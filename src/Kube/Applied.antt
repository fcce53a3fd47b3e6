-- ===== src/Kube/Applied.antt =====
-- `Apply` that asks for no further round: every object has a synced resource.
use cluster_stack_operator.Kube.Client
use mathlib.Core.Path.{subst}
use cluster_stack_operator.Base.{
  false, ◌≡◌, refl, sym, ◌∙◌, ap, List, [], ◌∷◌, ◌++◌, append-nil, Option, none, some, arith, All,
  Bool-cases, Option-cases, Result-cases, inl, inr, ok, and_true,
}
use cluster_stack_operator.Strings.{Text}
use cluster_stack_operator.Strings.Order.{text_eq→eq}
use cluster_stack_operator.Api.{
  Unstructured, Resource, is_synced, new_resource_from_unstructured, group_version_kind,
}
use cluster_stack_operator.Kube.Template.{
  Document, parse_k8s_yaml, find_resource, same_name, set_label, resources_to_be_deleted,
}
use cluster_stack_operator.Kube.Client.{
  KubeApi, Deletion, Run, each, start, returned, apply_step, apply_object, apply_answer,
  known_synced, remove_step, removal_answer, apply, deleted, not_found, failed,
  object_label_key_owned, object_label_value_owned,
}
use cluster_stack_operator.Kube.Labels.{SameObject, set_label-SameObject}
use cluster_stack_operator.Kube.Settled.{
  Synced, names, object_names, both_advance, each_stopped, Advances, Advancing, all_names,
  each-Advances,
}

abbrev pub object_name : Unstructured → List (Text × Text)
object_name o = (o.namespace, o.name) ∷ []

all_names-object_name : (l : List Unstructured) → all_names object_name l ≡ object_names l
all_names-object_name [] = refl
all_names-object_name (o ∷ l) = rw (all_names-object_name l) refl

-- A resource that is found has the name that was looked for.
pub find_resource_name :
    (l : List Resource) (namespace name : Text) (x : Resource)
    → find_resource l namespace name ≡ some x
    → (x.namespace ≡ namespace) × (x.name ≡ name)
unfolding find_resource
find_resource_name [] namespace name x h = cc
find_resource_name (r ∷ l) namespace name x h =
    elim (Option-cases (find_resource l namespace name)) [
      | inr (r', e) ↦ find_resource_name l namespace name x (e ∙ ground (arith, e))
      | inl e ↦ elim (Bool-cases (same_name r.namespace r.name namespace name)) [
        | inr k ↦ absurd (ground (arith, e, k))
        | inl k ↦
            let q : r ≡ x = ground (arith, e, k) in
            let (a, b) = and_true _ _ k in
            (
              ap (λ y. y.namespace) (sym q) ∙ text_eq→eq _ _ a,
              ap (λ y. y.name) (sym q) ∙ text_eq→eq _ _ b,
            )
      ]
    ]

module _ {W : Type 0} (api : KubeApi W) where
  one_added :
      (ns : List (Text × Text)) (x : Resource) (r r' : Run W)
      → r.error ≡ none
      → r.requeue ≡ false
      → r'.resources ≡ r.resources ++ x ∷ []
      → (x.namespace, x.name) ∷ [] ≡ ns
      → Synced x
      → Advances ns r r'
  one_added ns x r r' e q h n s = record {
    no_error = e;
    no_requeue = q;
    added = x ∷ [];
    resources_added = h;
    names_added = n;
    all_synced = (s, tt);
  }

  apply_answer-Advances :
      (o o' : Unstructured) (a : W × Option Text) (r : Run W)
      → SameObject o o'
      → r.error ≡ none
      → (apply_answer api (new_resource_from_unstructured o') a r).requeue ≡ false
      → Advances (object_name o) r (apply_answer api (new_resource_from_unstructured o') a r)
  unfolding apply_answer new_resource_from_unstructured
  apply_answer-Advances o o' (w, none) r s e q =
      one_added (object_name o) _ r _ e q refl (rw (s.same_namespace, s.same_name) refl) refl
  apply_answer-Advances o o' (w, some x) r s e q = cc

  apply_object-Advances :
      (o : Unstructured) (r : Run W)
      → r.error ≡ none
      → (apply_object api (apply_answer api) o r).error ≡ none
      → (apply_object api (apply_answer api) o r).requeue ≡ false
      → Advances (object_name o) r (apply_object api (apply_answer api) o r)
  unfolding apply_object
  apply_object-Advances o r e e' q =
      elim (Result-cases (set_label o object_label_key_owned object_label_value_owned)) [
        | inl (x, h) ↦ absurd (ground (arith, h))
        | inr (o', h) ↦ elim (Option-cases (api.get_interface r.world o'.gvk)) [
          | inr (x, k) ↦ absurd (ground (arith, h, k))
          | inl k ↦
              rw (h, k, apply_object)
                (apply_answer-Advances o o' (api.apply r.world o') r
                  (set_label-SameObject o o' object_label_key_owned object_label_value_owned h) e
                  (rw (h, k, apply_object) at q))
        ]
      ]

  known_found :
      (o : Option Resource) (x : Resource) → known_synced api o ≡ some x → (o ≡ some x) × Synced x
  known_found none x h = cc
  known_found (some y) x h = elim (Bool-cases (is_synced y.status)) [
    | inr k ↦ absurd (ground (arith, k))
    | inl k ↦
        let q : y ≡ x = ground (arith, k) in (ap some q, ap (λ z. is_synced z.status) (sym q) ∙ k)
  ]

  apply_step_advances : (old : List Resource) → Advancing object_name (apply_step api old)
  unfolding apply_step
  apply_step_advances old o r e e' q =
      elim (Option-cases (known_synced api (find_resource old o.namespace o.name))) [
        | inl k ↦
            rw (k, apply_step)
              (apply_object-Advances o r e (rw (k, apply_step) at e') (rw (k, apply_step) at q))
        | inr (x, k) ↦
            let (f, s) = known_found (find_resource old o.namespace o.name) x k in
            let (a, b) = find_resource_name old o.namespace o.name x f in
            rw (k, apply_step)
              (one_added (object_name o) x r _ e (rw (k, apply_step) at q) refl (rw (a, b) refl) s)
      ]

  removal_answer-Advances :
      (x : Resource) (a : W × Deletion) (r : Run W)
      → r.error ≡ none
      → (removal_answer api x a r).requeue ≡ false
      → Advances [] r (removal_answer api x a r)
  unfolding removal_answer
  removal_answer-Advances x (w, deleted) r e q = record {
    no_error = e;
    no_requeue = q;
    added = [];
    resources_added = sym (append-nil r.resources);
    names_added = refl;
    all_synced = tt;
  }
  removal_answer-Advances x (w, not_found) r e q = record {
    no_error = e;
    no_requeue = q;
    added = [];
    resources_added = sym (append-nil r.resources);
    names_added = refl;
    all_synced = tt;
  }
  removal_answer-Advances x (w, failed m) r e q = cc

  remove_step_advances : Advancing (λ x. []) (remove_step api)
  unfolding remove_step
  remove_step_advances x r e e' q =
      elim (Option-cases (api.get_interface r.world (group_version_kind x))) [
        | inr (m, k) ↦ absurd (ground (arith, k, e'))
        | inl k ↦
            rw (k, remove_step)
              (removal_answer-Advances x (api.delete r.world (group_version_kind x) x.name) r e
                (rw (k, remove_step) at q))
      ]

  no_names : (l : List Resource) → all_names (λ x. []) l ≡ []
  no_names [] = refl
  no_names (x ∷ l) = no_names l

  returned_ok :
      (r : Run W) (w : W) (rs : List Resource)
      → returned false r ≡ (w, false, ok rs)
      → (r.error ≡ none) × (r.requeue ≡ false) × (r.resources ≡ rs)
  returned_ok r w rs h = elim (Option-cases r.error) [
    | inr (x, e) ↦ absurd (ground (arith, e, h))
    | inl e ↦ (e, ground (arith, e, h), ground (arith, e, h))
  ]

  -- Both loops of `Apply`, for objects that are parsed.
  loops_advance :
      (old : List Resource) (objs : List Unstructured) (w : W)
      → (each
          (remove_step api)
          (resources_to_be_deleted old objs)
          (each (apply_step api old) objs (start w))).error
        ≡ none
      → (each
          (remove_step api)
          (resources_to_be_deleted old objs)
          (each (apply_step api old) objs (start w))).requeue
        ≡ false
      → Advances (object_names objs) (start w) (
          each
            (remove_step api)
            (resources_to_be_deleted old objs)
            (each (apply_step api old) objs (start w)))
  loops_advance old objs w e q =
      let r = each (apply_step api old) objs (start w) in
      let gone = resources_to_be_deleted old objs in
      elim (Option-cases r.error) [
        | inr (x, k) ↦
            absurd (cc (ap (λ y. y.error) (each_stopped (remove_step api) gone r x k), k, e))
        | inl k ↦
            let second =
              each-Advances (λ x. []) (remove_step api) remove_step_advances gone r k e q in
            let first =
              each-Advances object_name (apply_step api old) (apply_step_advances old) objs
                (start w) refl k second.no_requeue in
            subst (λ ns. Advances ns (start w) (each (remove_step api) gone r))
              (rw (all_names-object_name objs, no_names gone) (append-nil (object_names objs)))
              (both_advance (all_names object_name objs) (all_names (λ x. []) gone) (start w) r
                (each (remove_step api) gone r) first second)
      ]

  -- An `Apply` that returns no error and asks for no further round has parsed its template, and its
  -- resources have the namespaces and the names of the template's objects, in their order, and are all
  -- synced. Their kinds may be others, since synced resources are found by namespace and name.
  pub apply_settled :
      (template : List Document) (old rs : List Resource) (w w' : W)
      → apply api template old w ≡ (w', false, ok rs)
      → (objs : List Unstructured) × (parse_k8s_yaml template ≡ ok objs)
        × (names rs ≡ object_names objs)
        × All Synced rs
  unfolding Client.apply
  apply_settled template old rs w w' h = elim (Result-cases (parse_k8s_yaml template)) [
    | inl (x, e) ↦ absurd (ground (arith, e, h))
    | inr (objs, e) ↦
        let r =
          each (remove_step api) (resources_to_be_deleted old objs)
            (each (apply_step api old) objs (start w)) in
        let (a, b, c) = returned_ok r w' rs (rw (e, Client.apply) at h) in
        let adv = loops_advance old objs w a b in
        let same : adv.added ≡ rs = sym adv.resources_added ∙ c in
        (objs, e, ap names (sym same) ∙ adv.names_added, subst (All Synced) same adv.all_synced)
  ]
