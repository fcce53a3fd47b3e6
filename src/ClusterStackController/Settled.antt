-- ===== src/ClusterStackController/Settled.antt =====
-- What `generateProviderObject` makes of the labels and of the spec, and that it settles.
use cluster_stack_operator.Base.{
  ◌∙◌, ap, ◌≡◌, refl, arith, Bool, true, false, List, [], ◌∷◌, Option, none, some, ok,
}
use cluster_stack_operator.Strings.{Text, text_eq}
use cluster_stack_operator.Strings.Order.{text_eq→eq, text_eq_refl}
use cluster_stack_operator.Kube.Template.{delete_key}
use cluster_stack_operator.ClusterAddon.{lookup}
use cluster_stack_operator.ClusterStackController.Provider
use cluster_stack_operator.ClusterStackController.Provider.{
  ProviderObject, GenerateInput, GenerateError, Field, set_all, dress, as_new, spec_of,
  unstructured_spec_equal, generate_provider_object,
}

-- The value of a key in one map, or else in another one.
abbrev pub either : Option Text → Option Text → Option Text
either (some v) o = some v
either none o = o

lookup-delete :
    (m : List (Text × Text)) (key k : Text)
    → text_eq key k ≡ false
    → lookup (delete_key m key) k ≡ lookup m k
lookup-delete [] key k h = refl
lookup-delete ((q, v) ∷ m) key k h =
    ground (arith, lookup-delete m key k h, text_eq→eq q k, text_eq→eq q key, text_eq_refl k)

-- The entries that are set win over those that are there.
lookup-set_all :
    (l m : List (Text × Text)) (k : Text)
    → lookup (set_all l m) k ≡ either (lookup l k) (lookup m k)
unfolding set_all
lookup-set_all [] m k = refl
lookup-set_all ((key, v) ∷ l) m k =
    ground (arith, lookup-set_all l m k, lookup-delete (set_all l m) key k)

module _ {S : Type 0} (deep_equal : S → S → Bool) (input : GenerateInput S) (t : ProviderObject S)
    (has_template : input.template.template ≡ Provider.present t) where
  -- The object that the generated one is made of.
  abbrev pub base : Option (ProviderObject S) → ProviderObject S
  base none = t
  base (some o) = o

  generate_parts :
      (o : ProviderObject S) (u : Bool)
      → generate_provider_object deep_equal input ≡ ok (o, u)
      → (o.labels ≡ set_all input.labels (base input.existing_object).labels)
        × (o.annotations ≡ set_all input.annotations (base input.existing_object).annotations)
  unfolding generate_provider_object unstructured_spec_equal dress as_new
  generate_parts o u h = (ground (arith, has_template), ground (arith, has_template))

  -- A label or annotation of a generated object has the value that the cluster stack gives it, and any
  -- other one is that of the object that exists, or of the template if none exists.
  pub generate_labels :
      (o : ProviderObject S) (u : Bool) (k : Text)
      → generate_provider_object deep_equal input ≡ ok (o, u)
      → (lookup o.labels k
          ≡ either (lookup input.labels k) (lookup (base input.existing_object).labels k))
        × (lookup o.annotations k
            ≡ either
                (lookup input.annotations k)
                (lookup (base input.existing_object).annotations k))
  generate_labels o u k h =
      let (labels, annotations) = generate_parts o u h in
      (
        ap (λ m. lookup m k) labels
            ∙ lookup-set_all input.labels (base input.existing_object).labels k,
        ap (λ m. lookup m k) annotations
            ∙ lookup-set_all input.annotations (base input.existing_object).annotations k,
      )

  -- The spec of the generated object is equal to that of the template.
  generate_spec :
      (o : ProviderObject S) (u : Bool) (s : S)
      → t.spec ≡ Provider.present s
      → deep_equal s s ≡ true
      → generate_provider_object deep_equal input ≡ ok (o, u)
      → (s' : S) × (o.spec ≡ Provider.present s') × (deep_equal s' s ≡ true)
  unfolding generate_provider_object unstructured_spec_equal dress as_new
  generate_spec o u s has_spec same h = go o.spec refl
    where
      go :
          (f : Field S)
          → o.spec ≡ f
          → (s' : S) × (f ≡ Provider.present s') × (deep_equal s' s ≡ true)
      go Provider.malformed e = absurd (ground (arith, has_template, has_spec))
      go Provider.missing e = absurd (ground (arith, has_template, has_spec))
      go (Provider.present s') e = (s', refl, ground (arith, has_template, has_spec))

module _ {S : Type 0} (deep_equal : S → S → Bool) (input : GenerateInput S)
    (t o stored : ProviderObject S) (s : S) (u : Bool) where
  -- A second pass over the generated object, or over one with the same spec that the server keeps for it,
  -- asks for no update, if the template has a spec.
  pub generate_settled :
      input.template.template ≡ Provider.present t
      → t.spec ≡ Provider.present s
      → deep_equal s s ≡ true
      → generate_provider_object deep_equal input ≡ ok (o, u)
      → stored.spec ≡ o.spec
      → (o' : ProviderObject S) × (generate_provider_object deep_equal
            (record input { existing_object = some stored })
          ≡ ok (o', false))
  unfolding generate_provider_object unstructured_spec_equal
  generate_settled has_template has_spec same h kept =
      let (s', found, equal) =
        generate_spec deep_equal input t has_template o u s has_spec same h in
      (
        dress (record input { existing_object = some stored }) stored,
        ground (arith, has_template, has_spec, kept, found, equal),
      )
