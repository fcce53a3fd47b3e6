-- ===== src/ClusterStackController/Names.antt =====
-- What the calls of the reconcile loop of a cluster stack do to the releases on the API server.
use mathlib.Core.Path.{subst}
use cluster_stack_operator.Base.{
  ◌∙◌, ◌≡◌, ◌≢◌, refl, arith, Bool, true, false, ◌||◌, List, [], ◌∷◌, Option, none, some, Result,
  ok, err, Option-cases, Result-cases, Bool-cases, inl, inr, if◌then◌else◌, sym, ap,
}
use cluster_stack_operator.Strings.{Text, text_eq}
use cluster_stack_operator.Api.{
  ClusterStackReleaseSummary, ClusterStackRelease, ClusterStackReleaseSummary, OwnerReference,
  ObjectReference, Answer, found, not_found, failed,
}
use cluster_stack_operator.Api.Conditions.{ConditionsApi}
use cluster_stack_operator.ClusterStackController.Diff.{has_name}
use cluster_stack_operator.Strings.Order.{text_eq→eq}
use cluster_stack_operator.ClusterStackRelease.Summary.{summary}
use cluster_stack_operator.ClusterStackController.Provider
use cluster_stack_operator.ClusterStackController.Provider.{
  ProviderEnv, ProviderError, ProviderObject, create_or_update_provider, with_existing,
  with_template, updated_with, created_with, after_write, Written, write_not_found, write_failed,
  Template, reference, input_of, GenerateError, generate_provider_object,
}
use cluster_stack_operator.ClusterStackController.Loops.{
  provided, Got, exists, absent, get_failed, delete_failed, StackEnv, Cs, delete_all,
  get_or_create_cluster_stack_release, provider_step, create_one, create_all, new_release,
  after_get, provided,
}

-- What the API server has under the name of a release: nothing, an object, or one that is marked as to be
-- deleted and waits for its finalizer, which every release has.
pub data Presence : Type 0 where
  gone live leaving : Presence

-- The releases in the namespace, as the documentation of the API server promises for the calls that read,
-- create and delete an object: no object is created over another one, and an object that is deleted is
-- gone or leaving. The provider's objects are of another kind.
pub record ReleaseStore {W C S : Type 0} (env : StackEnv W C S) : Type 0 where
  pub presence : W → Text → Presence
  pub got : (w : W) (n : Text) → env.get_release w n ≡ exists → presence w n ≢ gone
  pub free :
      (w : W) (csr : ClusterStackRelease C)
      → (env.create_release w csr).1 ≡ false
      → presence w csr.name ≡ gone
  pub created :
      (w : W) (csr : ClusterStackRelease C) (n : Text)
      → (env.create_release w csr).1 ≡ false
      → presence (env.create_release w csr).0 n
        ≡ (if text_eq csr.name n then live else presence w n)
  pub removed :
      (w : W) (n : Text)
      → (env.delete_release w n).1 ≢ delete_failed
      → presence (env.delete_release w n).0 n ≢ live
  pub removed_other :
      (w : W) (m n : Text)
      → text_eq m n ≡ false
      → presence (env.delete_release w m).0 n ≡ presence w n
  pub updated :
      (w : W) (o : ProviderObject S) (n : Text)
      → presence (env.provider.update w o).0 n ≡ presence w n
  pub provided :
      (w : W) (o : ProviderObject S) (n : Text)
      → presence (env.provider.create w o).0 n ≡ presence w n

-- A release is there afterwards, as it was or new.
abbrev pub ensured : Presence → Presence
ensured gone = live
ensured live = live
ensured leaving = leaving

abbrev pub made : Bool → Presence → Presence
made true p = ensured p
made false p = p

made_twice : (b c : Bool) (p : Presence) → made c (made b p) ≡ made (b || c) p
made_twice true true gone = refl
made_twice true true live = refl
made_twice true true leaving = refl
made_twice true false p = refl
made_twice false c p = refl

made_there : (b : Bool) (p : Presence) → p ≢ gone → made b p ≡ p
made_there true gone h = absurd (h refl)
made_there true live h = refl
made_there true leaving h = refl
made_there false p h = refl

module _ (cond : ConditionsApi) {W S : Type 0} (env : StackEnv W cond.C S)
    (store : ReleaseStore env) (n : Text) where
  written_presence :
      (ref : ObjectReference) (a : W × Written)
      → store.presence (after_write ref a).0 n ≡ store.presence a.0 n
  written_presence ref (w, Provider.written) = refl
  written_presence ref (w, write_not_found) = refl
  written_presence ref (w, write_failed) = refl

  module _ (w : W) where
    updated_presence :
        (r : Result GenerateError (ProviderObject S × Bool))
        → store.presence (updated_with env.provider w r).0 n ≡ store.presence w n
    updated_presence (err e) = refl
    updated_presence (ok (o, true)) =
        written_presence (env.provider.object_reference o) (env.provider.update w o)
        ∙ store.updated w o n
    updated_presence (ok (o, false)) = refl

    created_presence :
        (r : Result GenerateError (ProviderObject S × Bool))
        → store.presence (created_with env.provider w r).0 n ≡ store.presence w n
    created_presence (err e) = refl
    created_presence (ok (o, b)) =
        written_presence (env.provider.object_reference o) (env.provider.create w o)
        ∙ store.provided w o n

    module _ (name : Text) (stack : Cs cond) where
      with_existing_presence :
          (from : Template S) (a : Answer (ProviderObject S))
          → store.presence (with_existing env.provider w from name stack a).0 n ≡ store.presence w n
      unfolding with_existing
      with_existing_presence from failed = refl
      with_existing_presence from not_found =
          created_presence
            (generate_provider_object env.provider.deep_equal (input_of from none name stack))
      with_existing_presence from (found o) =
          updated_presence
            (generate_provider_object env.provider.deep_equal (input_of from (some o) name stack))

      with_template_presence :
          (a : Answer (Template S))
          → store.presence (with_template env.provider w name stack a).0 n ≡ store.presence w n
      unfolding with_template
      with_template_presence not_found = refl
      with_template_presence failed = refl
      with_template_presence (found from) =
          with_existing_presence from
            (env.provider.get_object w (reference from name) stack.namespace)

      create_or_update_presence :
          store.presence (create_or_update_provider env.provider w name stack).0 n
          ≡ store.presence w n
      unfolding create_or_update_provider
      create_or_update_presence = elim (Option-cases stack.spec.provider_ref) [
        | inl e ↦ ground (arith, e)
        | inr (ref, e) ↦
            ground
              (arith, e, with_template_presence (env.provider.get_template w ref stack.namespace))
      ]

  provided_world :
      (p : W × Result ProviderError ObjectReference)
      → store.presence (provided cond env p).0 n ≡ store.presence p.0 n
  provided_world (w, ok ref) = refl
  provided_world (w, err e) = refl

  provider_presence :
      (w : W) (name : Text) (stack : Cs cond)
      → store.presence (provider_step cond env w name stack).0 n ≡ store.presence w n
  unfolding provider_step
  provider_presence w name stack = ground (
    arith,
    provided_world (create_or_update_provider env.provider w name stack),
    create_or_update_presence w name stack,
  )

  after_get_presence :
      (w : W) (csr : ClusterStackRelease cond.C) (g : Got)
      → env.get_release w csr.name ≡ g
      → (after_get cond env w csr g).1 ≡ false
      → store.presence (after_get cond env w csr g).0 n
        ≡ made (text_eq csr.name n) (store.presence w n)
  after_get_presence w csr exists e h = elim (Bool-cases (text_eq csr.name n)) [
    | inr other ↦ rw other refl
    | inl same ↦
        let q : csr.name ≡ n = text_eq→eq csr.name n same in
        sym (
          made_there (text_eq csr.name n) (store.presence w n)
            (subst (λ x. store.presence w x ≢ gone) q (store.got w csr.name e)))
  ]
  after_get_presence w csr get_failed e h = absurd (cc h)
  after_get_presence w csr absent e h = elim (Bool-cases (text_eq csr.name n)) [
    | inr other ↦ store.created w csr n h ∙ rw other refl
    | inl same ↦
        let q : csr.name ≡ n = text_eq→eq csr.name n same in
        let free : store.presence w n ≡ gone =
          subst (λ x. store.presence w x ≡ gone) q (store.free w csr h) in
        store.created w csr n h ∙ rw (same, free) refl
  ]

  get_or_create_presence :
      (w : W) (name namespace : Text) (owner : OwnerReference) (ref : Option ObjectReference)
      → (get_or_create_cluster_stack_release cond env w name namespace owner ref).1 ≡ false
      → store.presence (get_or_create_cluster_stack_release cond env w name namespace owner ref).0 n
        ≡ made (text_eq name n) (store.presence w n)
  unfolding get_or_create_cluster_stack_release
  get_or_create_presence w name namespace owner ref h =
      after_get_presence w (new_release cond env name namespace owner ref) (env.get_release w name)
        refl h

  create_one_presence :
      (owner : OwnerReference) (w : W) (stack : Cs cond) (name : Text)
      → (create_one cond env owner w stack name).1 ≡ none
      → store.presence (create_one cond env owner w stack name).0 n
        ≡ made (text_eq name n) (store.presence w n)
  unfolding create_one
  create_one_presence owner w stack name h =
      elim (Result-cases (provider_step cond env w name stack).1) [
        | inl (e, bad) ↦ absurd (ground (arith, bad))
        | inr (ref, good) ↦
            let w' = (provider_step cond env w name stack).0 in
            ground (
              arith,
              good,
              ap (λ p. made (text_eq name n) p) (provider_presence w name stack),
              get_or_create_presence w' name stack.namespace owner ref,
            )
      ]

  pub create_all_presence :
      (owner : OwnerReference) (w : W) (stack : Cs cond) (l : List (ClusterStackRelease cond.C))
      (sums : List ClusterStackReleaseSummary)
      → (create_all cond env owner w stack l).1 ≡ ok sums
      → store.presence (create_all cond env owner w stack l).0 n
        ≡ made (has_name n l) (store.presence w n)
  unfolding create_all
  create_all_presence owner w stack [] sums h = refl
  create_all_presence owner w stack (csr ∷ l) sums h = elim (Result-cases (summary cond csr)) [
    | inl (e, bad) ↦ absurd (ground (arith, bad))
    | inr (s, good) ↦
        let c = create_one cond env owner w stack csr.name in
        elim (Result-cases (create_all cond env owner c.0 stack l).1) [
          | inl (e, bad) ↦ absurd (ground (arith, good, bad))
          | inr (rest, fine) ↦ elim (Option-cases c.1) [
            | inr (e, bad) ↦ absurd (ground (arith, good, bad))
            | inl made_one ↦
                ap (λ x. store.presence x n) (ground (arith, good, fine, made_one))
                ∙ create_all_presence owner c.0 stack l rest fine
                ∙ ap (λ p. made (has_name n l) p)
                    (create_one_presence owner w stack csr.name made_one)
                ∙ made_twice (text_eq csr.name n) (has_name n l) (store.presence w n)
          ]
        ]
  ]

  -- What the deletions leave of a release, by whether its name is among them.
  abbrev pub Deletes : Bool → Presence → Presence → Type 0
  Deletes true p p' = p' ≢ live
  Deletes false p p' = p' ≡ p

  Deletes-next :
      (b c : Bool) (p q r : Presence) → Deletes b p q → Deletes c q r → Deletes (b || c) p r
  Deletes-next true true p q r h k = k
  Deletes-next true false p q r h k = λ e. h (sym k ∙ e)
  Deletes-next false true p q r h k = k
  Deletes-next false false p q r h k = k ∙ h

  delete_one :
      (w : W) (m : Text)
      → (env.delete_release w m).1 ≢ delete_failed
      → Deletes (text_eq m n) (store.presence w n) (store.presence (env.delete_release w m).0 n)
  delete_one w m h = elim (Bool-cases (text_eq m n)) [
    | inr other ↦ rw other (store.removed_other w m n other)
    | inl same ↦ rw same (
        subst (λ x. store.presence (env.delete_release w m).0 x ≢ live) (text_eq→eq m n same)
          (store.removed w m h))
  ]

  pub delete_all_presence :
      (w : W) (l : List (ClusterStackRelease cond.C))
      → (delete_all cond env w l).1 ≡ none
      → Deletes (has_name n l) (store.presence w n) (store.presence (delete_all cond env w l).0 n)
  unfolding delete_all
  delete_all_presence w [] h = refl
  delete_all_presence w (csr ∷ l) h =
      let d = env.delete_release w csr.name in
      let granted : d.1 ≢ delete_failed = λ e. ground (arith, h, e) in
      let rest : (delete_all cond env d.0 l).1 ≡ none = ground (arith, h, granted) in
      let same : delete_all cond env w (csr ∷ l) ≡ delete_all cond env d.0 l =
        ground (arith, granted) in
      subst (λ x. Deletes (has_name n (csr ∷ l)) (store.presence w n) (store.presence x.0 n))
        (sym same)
        (Deletes-next (text_eq csr.name n) (has_name n l) (store.presence w n)
          (store.presence d.0 n) (store.presence (delete_all cond env d.0 l).0 n)
          (delete_one w csr.name granted) (delete_all_presence d.0 l rest))
