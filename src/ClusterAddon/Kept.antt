-- ===== src/ClusterAddon/Kept.antt =====
-- What the delete stages of a release and the annotations leave.
use mathlib.Core.Path.{subst}
use cluster_stack_operator.Base.{
  ℕ, suc, ◌+◌, ◌<◌, ◌≤◌, false, ◌≡◌, refl, sym, ◌∙◌, ap, List, [], ◌∷◌, ◌++◌, append-nil,
  append_assoc, Option, none, some, arith, All, All-append, Bool-cases, Option-cases, Result-cases,
  inl, inr, ok, ok_inj, length,
}
use cluster_stack_operator.Strings.{Text, text_eq}
use cluster_stack_operator.Strings.Order.{text_eq_refl}
use cluster_stack_operator.Api.{Resource}
use cluster_stack_operator.ClusterAddon.{
  ClusterAddon, Stage, apply_action, set_stage_annotations, lookup, annotations_of,
  stage_annotation,
}
use cluster_stack_operator.ClusterAddon.Execute.{StageEnv}
use cluster_stack_operator.ClusterAddon.Resources.{
  Pointer, Objects, allocate, has_address, remove_resources_from_current_list_of_objects,
  release_objects, stage_values, stage_resources, with_stage,
}

-- The addresses of the list are in use, below the free one.
abbrev pub Below : ℕ → List Pointer → Type 0
Below n = All (λ p. p.address < n)

allocate_fresh : (n a : ℕ) (rs : List Resource) → a < n → has_address (allocate n rs) a ≡ false
unfolding allocate has_address
allocate_fresh n a [] h = refl
allocate_fresh n a (r ∷ rs) h = ground (arith, h, allocate_fresh (suc n) a rs)

-- Objects that were parsed just now are at no address of the list, so nothing is removed.
remove_nothing :
    (n : ℕ) (ps : List Pointer) (rs : List Resource)
    → Below n ps
    → remove_resources_from_current_list_of_objects ps (allocate n rs) ≡ ps
unfolding remove_resources_from_current_list_of_objects
remove_nothing n [] rs h = refl
remove_nothing n (p ∷ ps) rs (h, hs) =
    rw (allocate_fresh n p.address rs h) (ap (λ l. p ∷ l) (remove_nothing n ps rs hs))

allocate-Below : (n : ℕ) (rs : List Resource) → Below (n + length rs) (allocate n rs)
unfolding allocate
allocate-Below n [] = tt
allocate-Below n (r ∷ rs) = (
  omega arith,
  subst (λ m. Below m (allocate (suc n) rs)) (omega arith) (allocate-Below (suc n) rs),
)

more_Below : (n m : ℕ) (ps : List Pointer) → n ≤ m → Below n ps → Below m ps
more_Below n m [] h k = tt
more_Below n m (p ∷ ps) h (k, ks) = (omega (arith, h, k), more_Below n m ps h ks)

module _ {W : Type 0} (env : StageEnv W) (w : W) (dir kubernetes_version : Text) where
  -- What a stage adds to the list.
  record Added (o o' : Objects) : Type 0 where
    added : List Pointer
    resources_added : o'.resources ≡ o.resources ++ added
    below : Below o'.free o'.resources

  stage_adds :
      (action : Text) (values : Option Text) (rs : List Resource) (o : Objects)
      → Below o.free o.resources
      → Added o (with_stage env w dir kubernetes_version action values rs o)
  stage_adds action values rs o b = elim (Bool-cases (text_eq action apply_action)) [
    | inl e ↦ record {
      added = allocate o.free rs;
      resources_added = rw e refl;
      below = rw e (
          All-append (λ p. p.address < o.free + length rs) o.resources (allocate o.free rs)
            (more_Below o.free (o.free + length rs) o.resources (omega arith) b)
            (allocate-Below o.free rs));
    }
    | inr e ↦ record {
      added = [];
      resources_added =
          rw (e, remove_nothing o.free o.resources rs b) (sym (append-nil o.resources));
      below =
          rw (e, remove_nothing o.free o.resources rs b)
            (more_Below o.free (o.free + length rs) o.resources (omega arith) b);
    }
  ]

  -- The stages of a hook only add resources to the list of a release: a stage that deletes, whatever
  -- its objects are, removes none of those that the stages before it applied.
  pub release_objects_kept :
      (l : List Stage) (o o' : Objects)
      → Below o.free o.resources
      → release_objects env w dir kubernetes_version l o ≡ ok o'
      → (added : List Pointer) × (o'.resources ≡ o.resources ++ added)
  unfolding release_objects
  release_objects_kept [] o o' b h =
      ([], ap (λ x. x.resources) (sym (ok_inj h)) ∙ sym (append-nil o.resources))
  release_objects_kept (s ∷ l) o o' b h =
      elim (Result-cases (stage_values env w dir kubernetes_version o.values s.name)) [
        | inl (e, k) ↦ absurd (ground (arith, h, k))
        | inr (values, k) ↦
            elim (Result-cases (stage_resources env w dir kubernetes_version values s.name)) [
              | inl (e, q) ↦ absurd (ground (arith, h, k, q))
              | inr (rs, q) ↦
                  let a = stage_adds s.action values rs o b in
                  let (added, p) =
                    release_objects_kept l
                      (with_stage env w dir kubernetes_version s.action values rs o) o' a.below
                      (rw (k, release_objects, q) at h) in
                  (
                    a.added ++ added,
                    p ∙ rw a.resources_added (append_assoc o.resources a.added added),
                  )
            ]
      ]

module _ {C : Type 0} (r : ClusterAddon C) (value : Text) where
  set_fresh :
      lookup (annotations_of r) stage_annotation ≡ none
      → set_stage_annotations r value
        ≡ record r { annotations = some ((stage_annotation, value) ∷ annotations_of r) }
  unfolding set_stage_annotations
  set_fresh e = rw (e, set_stage_annotations) refl

  set_kept :
      (v : Text)
      → lookup (annotations_of r) stage_annotation ≡ some v
      → set_stage_annotations r value ≡ record r { annotations = some (annotations_of r) }
  unfolding set_stage_annotations
  set_kept v e = rw (e, set_stage_annotations) refl

-- The first value of the stage annotation stays: a later call of `SetStageAnnotations` has no effect.
pub stage_annotation_stays :
    {C : Type 0} (r : ClusterAddon C) (first later : Text)
    → set_stage_annotations (set_stage_annotations r first) later ≡ set_stage_annotations r first
stage_annotation_stays r first later =
    elim (Option-cases (lookup (annotations_of r) stage_annotation)) [
      | inl e ↦
          let r1 = record r { annotations = some ((stage_annotation, first) ∷ annotations_of r) } in
          let found : lookup (annotations_of r1) stage_annotation ≡ some first =
            rw (text_eq_refl stage_annotation) refl in
          ap (λ x. set_stage_annotations x later) (set_fresh r first e)
          ∙ set_kept r1 later first found
          ∙ sym (set_fresh r first e)
      | inr (v, e) ↦
          ap (λ x. set_stage_annotations x later) (set_kept r first v e)
          ∙ set_kept (record r { annotations = some (annotations_of r) }) later v e
          ∙ sym (set_kept r first v e)
    ]
