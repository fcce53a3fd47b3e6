-- ===== src/Kube/Deleted.antt =====
-- `DeleteNewClusterStack` calls every resource synced.
use mathlib.Core.Path.{subst}
use cluster_stack_operator.Base.{
  Bool, false, ◌≡◌, refl, sym, ◌∙◌, ap, List, [], ◌∷◌, ◌++◌, append-nil, append_assoc, none, arith,
  All, All-append, Option-cases, Result-cases, inl, inr, ok,
}
use cluster_stack_operator.Strings.{Text}
use cluster_stack_operator.Api.{
  Unstructured, Resource, GroupVersionKind, group_version_kind, new_resource_from_unstructured,
}
use cluster_stack_operator.Kube.Template.{Document, parse_k8s_yaml, set_label}
use cluster_stack_operator.Kube.Client.{
  KubeApi, Deletion, Run, each, start, returned, delete_new_step, delete_new_answer,
  delete_new_cluster_stack, deleted, not_found, failed, object_label_key_owned,
  object_label_value_owned,
}
use cluster_stack_operator.Kube.Settled.{Synced, each_cons, each_stopped}

-- What tells an object from the others: its kind with its group and version, its namespace and its name.
abbrev pub Identity : Type 0
Identity = GroupVersionKind × Text × Text

abbrev pub identities : List Resource → List Identity
identities [] = []
identities (x ∷ l) = (group_version_kind x, x.namespace, x.name) ∷ identities l

abbrev pub object_identities : List Unstructured → List Identity
object_identities [] = []
object_identities (o ∷ l) = (o.gvk, o.namespace, o.name) ∷ object_identities l

identities-append : (xs ys : List Resource) → identities (xs ++ ys) ≡ identities xs ++ identities ys
identities-append [] ys = refl
identities-append (x ∷ xs) ys = rw (identities-append xs ys) refl

-- What a run without an error has added: synced resources of the given identities.
record Adds {W : Type 0} (ns : List Identity) (r r' : Run W) : Type 0 where
  added : List Resource
  resources_added : r'.resources ≡ r.resources ++ added
  identities_added : identities added ≡ ns
  all_synced : All Synced added

module _ {W : Type 0} (api : KubeApi W) where
  delete_new_answer-Adds :
      (o : Unstructured) (a : W × Deletion) (r : Run W)
      → Adds
          ((o.gvk, o.namespace, o.name) ∷ [])
          r
          (delete_new_answer api (new_resource_from_unstructured o) a r)
  unfolding delete_new_answer new_resource_from_unstructured
  delete_new_answer-Adds o (w, deleted) r = record {
    added = _;
    resources_added = refl;
    identities_added = refl;
    all_synced = (refl, tt);
  }
  delete_new_answer-Adds o (w, not_found) r = record {
    added = _;
    resources_added = refl;
    identities_added = refl;
    all_synced = (refl, tt);
  }
  delete_new_answer-Adds o (w, failed e) r = record {
    added = _;
    resources_added = refl;
    identities_added = refl;
    all_synced = (refl, tt);
  }

  delete_new_step-Adds :
      (o : Unstructured) (r : Run W)
      → (delete_new_step api o r).error ≡ none
      → Adds ((o.gvk, o.namespace, o.name) ∷ []) r (delete_new_step api o r)
  unfolding delete_new_step
  delete_new_step-Adds o r e =
      elim (Result-cases (set_label o object_label_key_owned object_label_value_owned)) [
        | inl (x, h) ↦ absurd (ground (arith, h, e))
        | inr (o', h) ↦ elim (Option-cases (api.get_interface r.world o'.gvk)) [
          | inr (x, k) ↦ absurd (ground (arith, h, k, e))
          | inl k ↦
              rw (h, k, delete_new_step)
                (delete_new_answer-Adds o (api.delete r.world o'.gvk o'.name) r)
        ]
      ]

  delete_new-Adds :
      (os : List Unstructured) (r : Run W)
      → r.error ≡ none
      → (each (delete_new_step api) os r).error ≡ none
      → Adds (object_identities os) r (each (delete_new_step api) os r)
  delete_new-Adds [] r e e' =
      unfold each in
      record {
        added = [];
        resources_added = sym (append-nil r.resources);
        identities_added = refl;
        all_synced = tt;
      }
  delete_new-Adds (o ∷ os) r e e' =
      let f = delete_new_step api in
      let c = each_cons f o os r e in
      let e'' : (each f os (f o r)).error ≡ none = ap (λ x. x.error) (sym c) ∙ e' in
      elim (Option-cases (f o r).error) [
        | inr (x, k) ↦ absurd (cc (k, ap (λ y. y.error) (each_stopped f os (f o r) x k), e''))
        | inl k ↦
            let one = delete_new_step-Adds o r k in
            let rest = delete_new-Adds os (f o r) k e'' in
            subst (Adds (object_identities (o ∷ os)) r) (sym c) (record {
              added = one.added ++ rest.added;
              resources_added =
                  rw (rest.resources_added, one.resources_added)
                    (append_assoc r.resources one.added rest.added);
              identities_added =
                  rw
                    (
                      identities-append one.added rest.added,
                      one.identities_added,
                      rest.identities_added,
                    )
                    refl;
              all_synced = All-append Synced one.added rest.added one.all_synced rest.all_synced;
            })
      ]

  returned_resources :
      (r : Run W) (w : W) (b : Bool) (rs : List Resource)
      → returned false r ≡ (w, b, ok rs)
      → (r.error ≡ none) × (r.resources ≡ rs)
  returned_resources r w b rs h = elim (Option-cases r.error) [
    | inr (x, e) ↦ absurd (ground (arith, e, h))
    | inl e ↦ (e, ground (arith, e, h))
  ]

  -- Where `DeleteNewClusterStack` returns resources, they have the kinds, the namespaces and the names of
  -- the template's objects, in their order, and each is marked as synced, whatever the API server
  -- answered to the deletions.
  pub delete_new-All-Synced :
      (template : List Document) (w w' : W) (b : Bool) (rs : List Resource)
      → delete_new_cluster_stack api template w ≡ (w', b, ok rs)
      → (objs : List Unstructured) × (parse_k8s_yaml template ≡ ok objs)
        × (identities rs ≡ object_identities objs)
        × All Synced rs
  unfolding delete_new_cluster_stack
  delete_new-All-Synced template w w' b rs h = elim (Result-cases (parse_k8s_yaml template)) [
    | inl (x, e) ↦ absurd (ground (arith, e, h))
    | inr (objs, e) ↦
        let r = each (delete_new_step api) objs (start w) in
        let (a, c) = returned_resources r w' b rs (rw (e, delete_new_cluster_stack) at h) in
        let adds = delete_new-Adds objs (start w) refl a in
        let same : adds.added ≡ rs = sym adds.resources_added ∙ c in
        (
          objs,
          e,
          ap identities (sym same) ∙ adds.identities_added,
          subst (All Synced) same adds.all_synced,
        )
  ]
