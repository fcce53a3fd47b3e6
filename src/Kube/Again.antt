-- ===== src/Kube/Again.antt =====
-- An `Apply` after one that has applied everything makes no call.
use mathlib.Core.Path.{subst}
use cluster_stack_operator.Base.{
  ok_inj, Bool, true, false, ◌≡◌, refl, sym, ◌∙◌, ap, List, [], ◌∷◌, none, some, arith, All,
  Bool-cases, Option-cases, inl, inr, ok, if◌then◌else◌,
}
use cluster_stack_operator.Strings.{Text}
use cluster_stack_operator.Strings.Order.{text_eq_refl}
use cluster_stack_operator.Api.{Unstructured, Resource}
use cluster_stack_operator.Kube.Template.{
  Document, find_resource, has_object, same_name, resources_to_be_deleted,
}
use cluster_stack_operator.Kube.Client
use cluster_stack_operator.Kube.Client.{
  delete_step, KubeApi, Run, each, start, returned, apply_step, known_synced, remove_step, append,
}
use cluster_stack_operator.Kube.Settled.{Synced, names, object_names, each_cons}
use cluster_stack_operator.Kube.Applied.{apply_settled}

has_pair : List (Text × Text) → Text → Text → Bool
has_pair [] a b = false
has_pair ((c, d) ∷ l) a b = if same_name c d a b then true else has_pair l a b

Within : List (Text × Text) → Text × Text → Type 0
Within ns n = has_pair ns n.0 n.1 ≡ true

Within-more :
    (m : Text × Text) (ns l : List (Text × Text)) → All (Within ns) l → All (Within (m ∷ ns)) l
unfolding Within has_pair
Within-more m ns [] h = tt
Within-more m ns (n ∷ l) (h, hs) = (ground (arith, h), Within-more m ns l hs)

Within-self : (l : List (Text × Text)) → All (Within l) l
unfolding Within has_pair
Within-self [] = tt
Within-self (n ∷ l) =
    (ground (arith, text_eq_refl n.0, text_eq_refl n.1), Within-more n l l (Within-self l))

found-Synced :
    (rs : List Resource) (a b : Text)
    → has_pair (names rs) a b ≡ true
    → All Synced rs
    → (x : Resource) × (find_resource rs a b ≡ some x) × Synced x
unfolding has_pair find_resource
found-Synced [] a b h s = cc
found-Synced (r ∷ rs) a b h (s, ss) = elim (Option-cases (find_resource rs a b)) [
  | inr (x, e) ↦ (x, rw (e, find_resource) refl, found_is rs x e ss)
  | inl e ↦ elim (Bool-cases (same_name r.namespace r.name a b)) [
    | inl k ↦ (r, ground (arith, e, k), s)
    | inr k ↦ let (y, q, t) = found-Synced rs a b (ground (arith, h, k)) ss in absurd (cc (q, e))
  ]
]
  where
    found_is :
        (l : List Resource) (x : Resource) → find_resource l a b ≡ some x → All Synced l → Synced x
    found_is [] x e t = cc
    found_is (r ∷ l) x e (t, ts) = elim (Option-cases (find_resource l a b)) [
      | inr (y, k) ↦ found_is l x (k ∙ ground (arith, e, k)) ts
      | inl k ↦ elim (Bool-cases (same_name r.namespace r.name a b)) [
        | inl q ↦ let u : r ≡ x = ground (arith, e, k, q) in subst Synced u t
        | inr q ↦ absurd (ground (arith, e, k, q))
      ]
    ]

has_object_names :
    (os : List Unstructured) (a b : Text) → has_object os a b ≡ has_pair (object_names os) a b
unfolding has_object has_pair
has_object_names [] a b = refl
has_object_names (o ∷ os) a b = rw (has_object_names os a b) refl

none_gone :
    (rs : List Resource) (os : List Unstructured)
    → All (Within (object_names os)) (names rs)
    → resources_to_be_deleted rs os ≡ []
unfolding resources_to_be_deleted Within
none_gone [] os h = refl
none_gone (r ∷ rs) os (h, hs) =
    ground (arith, none_gone rs os hs, has_object_names os r.namespace r.name, h)

module _ {W : Type 0} (api : KubeApi W) (rs : List Resource) (synced : All Synced rs) where
  -- A run that has gone on without a call.
  record Idle (r r' : Run W) : Type 0 where
    error_none : r'.error ≡ none
    same_world : r'.world ≡ r.world
    same_requeue : r'.requeue ≡ r.requeue

  Idle-step :
      (o : Unstructured) (r : Run W)
      → r.error ≡ none
      → Within (names rs) (o.namespace, o.name)
      → Idle r (apply_step api rs o r)
  unfolding apply_step Within
  Idle-step o r e h =
      let (x, f, s) = found-Synced rs o.namespace o.name h synced in
      let k : known_synced api (find_resource rs o.namespace o.name) ≡ some x =
        rw f (ground (arith, s)) in
      rw (k, apply_step) (record { error_none = e; same_world = refl; same_requeue = refl })

  Idle-delete_step :
      (o : Unstructured) (r : Run W)
      → r.error ≡ none
      → Within (names rs) (o.namespace, o.name)
      → Idle r (delete_step api rs o r)
  unfolding delete_step Within
  Idle-delete_step o r e h =
      let (x, f, s) = found-Synced rs o.namespace o.name h synced in
      let k : known_synced api (find_resource rs o.namespace o.name) ≡ some x =
        rw f (ground (arith, s)) in
      rw (k, delete_step) (record { error_none = e; same_world = refl; same_requeue = refl })

  module _ (f : Unstructured → Run W → Run W)
      (idle : (o : Unstructured) (r : Run W)
        → r.error ≡ none
        → Within (names rs) (o.namespace, o.name)
        → Idle r (f o r)) where
    Idle-each :
        (os : List Unstructured) (r : Run W)
        → r.error ≡ none
        → All (Within (names rs)) (object_names os)
        → Idle r (each f os r)
    Idle-each [] r e h =
        unfold each in record { error_none = e; same_world = refl; same_requeue = refl }
    Idle-each (o ∷ os) r e (h, hs) =
        let one = idle o r e h in
        let rest = Idle-each os (f o r) one.error_none hs in
        let c = sym (each_cons f o os r e) in
        subst (Idle r) c (record {
          error_none = rest.error_none;
          same_world = rest.same_world ∙ one.same_world;
          same_requeue = rest.same_requeue ∙ one.same_requeue;
        })

module _ {W : Type 0} (api : KubeApi W) where
  returned_idle :
      (r : Run W) (v : W)
      → r.error ≡ none
      → r.world ≡ v
      → r.requeue ≡ false
      → returned false (each (remove_step api) [] r) ≡ (v, false, ok r.resources)
  unfolding each
  returned_idle r v e w q = ground (arith, e, w, q)

  applied_idle :
      (rs : List Resource) (objs : List Unstructured) (v : W)
      → All Synced rs
      → names rs ≡ object_names objs
      → (rs' : List Resource) × (returned false (
            each
              (remove_step api)
              (resources_to_be_deleted rs objs)
              (each (apply_step api rs) objs (start v)))
          ≡ (v, false, ok rs'))
  applied_idle rs objs v s n =
      let i = Idle-each api rs s (apply_step api rs) (Idle-step api rs s) objs (start v) refl (
        subst (λ ns. All (Within ns) (object_names objs)) (sym n)
          (Within-self (object_names objs))) in
      let g =
        none_gone rs objs (subst (λ ns. All (Within ns) (names rs)) n (Within-self (names rs))) in
      (
        (each (apply_step api rs) objs (start v)).resources,
        rw g (
            returned_idle (each (apply_step api rs) objs (start v)) v i.error_none i.same_world
              i.same_requeue),
      )

  returned_kept :
      (f : Bool) (r : Run W) (v : W)
      → r.error ≡ none
      → r.world ≡ v
      → r.requeue ≡ false
      → returned f r ≡ (v, false, ok r.resources)
  returned_kept f r v e w q = ground (arith, e, w, q)

  -- `Delete` makes no call for a template whose objects all have a synced resource, as they have after
  -- an `Apply` that returned no error and asked for no further round: none of them is deleted.
  pub delete_skips_applied :
      (template : List Document) (old rs : List Resource) (w w' v : W)
      → Client.apply api template old w ≡ (w', false, ok rs)
      → api.new_for_config v ≡ none
      → (rs' : List Resource) × (Client.delete api template rs v ≡ (v, false, ok rs'))
  unfolding Client.delete
  delete_skips_applied template old rs w w' v h c =
      let (objs, e, n, s) = apply_settled api template old rs w w' h in
      let r = each (delete_step api rs) objs (start v) in
      let i =
        Idle-each api rs s (delete_step api rs) (Idle-delete_step api rs s) objs (start v) refl (
          subst (λ ns. All (Within ns) (object_names objs)) (sym n)
            (Within-self (object_names objs))) in
      (
        r.resources,
        rw (c, e, Client.delete) (returned_kept _ r v i.error_none i.same_world i.same_requeue),
      )

  -- After an `Apply` that returned no error and asked for no further round, an `Apply` of the same
  -- template with its resources makes no call, whatever the API server's state is, and returns synced
  -- resources of the same names.
  pub apply_again :
      (template : List Document) (old rs : List Resource) (w w' v : W)
      → Client.apply api template old w ≡ (w', false, ok rs)
      → (rs' : List Resource) × (Client.apply api template rs v ≡ (v, false, ok rs'))
        × (names rs' ≡ names rs)
        × All Synced rs'
  unfolding Client.apply
  apply_again template old rs w w' v h =
      let (objs, e, n, s) = apply_settled api template old rs w w' h in
      let (rs', k) = applied_idle rs objs v s n in
      let k' : Client.apply api template rs v ≡ (v, false, ok rs') = rw (e, Client.apply) k in
      let (objs', e', n', s') = apply_settled api template rs rs' v v k' in
      (rs', k', n' ∙ ap object_names (ok_inj (sym e' ∙ e)) ∙ sym n, s')
