-- ===== src/Kube/Labels.antt =====
-- `setLabel` changes labels and selectors only.
use cluster_stack_operator.Base.{
  sym, if◌then◌else◌, ap, Result-cases, Result, ◌∙◌, Bool, true, false, ◌≡◌, refl, List, Option,
  none, some, arith, Option-cases, inl, inr, ok, ok_inj,
}
use cluster_stack_operator.Strings.{Text}
use cluster_stack_operator.Api.{
  present, Unstructured, Selector, selector_malformed, selector_empty, selector_given, match_labels,
}
use cluster_stack_operator.Kube.Template.{
  set_key, is_beta, Error, set_label, entries, with_template, with_selector, with_workload_labels,
}

-- What the label leaves of an object.
pub record SameObject (o o' : Unstructured) : Type 0 where
  pub same_gvk : o'.gvk ≡ o.gvk
  pub same_namespace : o'.namespace ≡ o.namespace
  pub same_name : o'.name ≡ o.name

with_template-SameObject :
    (o o' : Unstructured) (key val : Text) → with_template o key val ≡ ok o' → SameObject o o'
with_template-SameObject o o' key val h = elim (Option-cases (entries o.template_labels)) [
  | inl e ↦ absurd (ground (arith, e))
  | inr (m, e) ↦ record {
    same_gvk = ground (arith, e);
    same_namespace = ground (arith, e);
    same_name = ground (arith, e);
  }
]

trans-SameObject : (a b c : Unstructured) → SameObject a b → SameObject b c → SameObject a c
trans-SameObject a b c h k = record {
  same_gvk = k.same_gvk ∙ h.same_gvk;
  same_namespace = k.same_namespace ∙ h.same_namespace;
  same_name = k.same_name ∙ h.same_name;
}

same : (a b : Unstructured) → ◌≡◌ {A = Result Error Unstructured} (ok a) (ok b) → SameObject a b
same a b h = record {
  same_gvk = ap (λ x. x.gvk) (sym (ok_inj h));
  same_namespace = ap (λ x. x.namespace) (sym (ok_inj h));
  same_name = ap (λ x. x.name) (sym (ok_inj h));
}

with_selector-SameObject :
    (o o' : Unstructured) (key : Text) → with_selector o key ≡ ok o' → SameObject o o'
with_selector-SameObject o o' key h = go o.selector (entries o.template_labels) refl refl h
  where
    go :
        (s : Selector) (m : Option (List (Text × Text)))
        → o.selector ≡ s
        → entries o.template_labels ≡ m
        → with_selector o key ≡ ok o'
        → SameObject o o'
    go selector_malformed m e f h' = absurd (ground (arith, e))
    go selector_given m e f h' = record {
      same_gvk = ground (arith, e);
      same_namespace = ground (arith, e);
      same_name = ground (arith, e);
    }
    go (match_labels l) m e f h' = record {
      same_gvk = ground (arith, e);
      same_namespace = ground (arith, e);
      same_name = ground (arith, e);
    }
    go selector_empty none e f h' = record {
      same_gvk = ground (arith, e, f);
      same_namespace = ground (arith, e, f);
      same_name = ground (arith, e, f);
    }
    go selector_empty (some l) e f h' = record {
      same_gvk = ground (arith, e, f);
      same_namespace = ground (arith, e, f);
      same_name = ground (arith, e, f);
    }

if-SameObject :
    (b : Bool) (x y : Result Error Unstructured) (o o' : Unstructured)
    → (x ≡ ok o' → SameObject o o')
    → (y ≡ ok o' → SameObject o o')
    → (if b then x else y) ≡ ok o'
    → SameObject o o'
if-SameObject true x y o o' f g h = f h
if-SameObject false x y o o' f g h = g h

with_workload_labels-SameObject :
    (o o' : Unstructured) (key val : Text)
    → with_workload_labels o key val ≡ ok o'
    → SameObject o o'
with_workload_labels-SameObject o o' key val h = elim (Result-cases (with_template o key val)) [
  | inl (x, e) ↦ absurd (ground (arith, e))
  | inr (o1, e) ↦ trans-SameObject o o1 o' (with_template-SameObject o o1 key val e) (
      if-SameObject (is_beta o1.api_version) (with_selector o1 key) (ok o1) o1 o'
        (with_selector-SameObject o1 o' key) (same o1 o') (rw e at h))
]

-- A label that is set leaves the kind, the namespace and the name of the object.
pub set_label-SameObject :
    (o o' : Unstructured) (key val : Text) → set_label o key val ≡ ok o' → SameObject o o'
unfolding set_label
set_label-SameObject o o' key val h = elim (Option-cases (entries o.labels)) [
  | inl e ↦ absurd (ground (arith, e))
  | inr (m, e) ↦
      let o1 = record o { labels = present (set_key m key val) } in
      trans-SameObject o o1 o' (record { same_gvk = refl; same_namespace = refl; same_name = refl })
        (if-SameObject _ _ _ o1 o'
          (if-SameObject _ _ _ o1 o' (with_workload_labels-SameObject o1 o' key val) (same o1 o'))
          (if-SameObject _ _ _ o1 o' (with_template-SameObject o1 o' key val) (same o1 o'))
          (rw (e, set_label) at h))
]
