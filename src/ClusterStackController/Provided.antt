-- ===== src/ClusterStackController/Provided.antt =====
-- The object of the provider is created or updated when the API server grants the calls for it.
use cluster_stack_operator.Base.{
  ◌≡◌, ◌≢◌, refl, arith, true, Option, none, some, ok, Bool-cases, inl, inr,
}
use cluster_stack_operator.Strings.{Text}
use cluster_stack_operator.Api.{
  ClusterStackSpec, ClusterStack, ObjectReference, Answer, found, not_found, failed,
}
use cluster_stack_operator.Api.Conditions.{ConditionsApi}
use cluster_stack_operator.ClusterStackController.Provider.{
  ProviderEnv, ProviderObject, Template, present, Written, written, write_not_found, write_failed,
  after_write, create_or_update_provider, with_template, with_existing, generate_provider_object,
  unstructured_spec_equal, dress, as_new, input_of, reference,
}
use cluster_stack_operator.ClusterStackController.Loops.{StackEnv, Cs, provider_step}

-- The template of the reference is there and has an object with a spec, every read is answered, the objects
-- that exist have a spec, an object that exists can be updated, and one that does not exist can be created.
pub record ProviderGrants {W S : Type 0} (env : ProviderEnv W S) (ref : ObjectReference)
    (namespace : Text) : Type 0 where
  pub template : Template S
  pub object : ProviderObject S
  pub object_spec : S
  pub template_there : (w : W) → env.get_template w ref namespace ≡ found template
  pub template_given : template.template ≡ present object
  pub spec_given : object.spec ≡ present object_spec
  pub reads : (w : W) (r : ObjectReference) → env.get_object w r namespace ≢ failed
  pub specs :
      (w : W) (r : ObjectReference) (o : ProviderObject S)
      → env.get_object w r namespace ≡ found o
      → (s : S) × (o.spec ≡ present s)
  pub updates :
      (w : W) (r : ObjectReference) (o o' : ProviderObject S)
      → env.get_object w r namespace ≡ found o
      → o'.name ≡ o.name
      → (env.update w o').1 ≡ written
  pub creates :
      (w : W) (r : ObjectReference) (o : ProviderObject S)
      → env.get_object w r namespace ≡ not_found
      → o.name ≡ r.name
      → (env.create w o).1 ≡ written

-- A cluster stack without a provider, or one whose provider's objects are granted.
pub data HasProvider {W S : Type 0} (env : ProviderEnv W S) (spec : ClusterStackSpec)
    (namespace : Text) : Type 0 where
  unneeded : spec.no_provider ≡ true → HasProvider env spec namespace
  granted :
      (ref : ObjectReference)
      → spec.provider_ref ≡ some ref
      → ProviderGrants env ref namespace
      → HasProvider env spec namespace

after_write_ok :
    {W : Type 0} (ref : ObjectReference) (a : W × Written)
    → a.1 ≡ written
    → (after_write ref a).1 ≡ ok ref
after_write_ok ref (w, written) h = refl
after_write_ok ref (w, write_not_found) h = absurd (cc h)
after_write_ok ref (w, write_failed) h = absurd (cc h)

module _ {W S C : Type 0} (env : ProviderEnv W S) (ref : ObjectReference) (stack : ClusterStack C)
    (g : ProviderGrants env ref stack.namespace) (w : W) (name : Text) where
  with_existing_ok :
      (a : Answer (ProviderObject S))
      → env.get_object w (reference g.template name) stack.namespace ≡ a
      → (r : ObjectReference) × ((with_existing env w g.template name stack a).1 ≡ ok r)
  unfolding with_existing generate_provider_object unstructured_spec_equal dress as_new
  with_existing_ok failed e = absurd (g.reads w (reference g.template name) e)
  with_existing_ok not_found e =
      let input = input_of g.template none name stack in
      let o = dress input (as_new input g.object) in
      (
        env.object_reference o,
        rw g.template_given (
            after_write_ok (env.object_reference o) (env.create w o)
              (g.creates w (reference g.template name) o e refl)),
      )
  with_existing_ok (found o) e =
      let input = input_of g.template (some o) name stack in
      let (s, has_spec) = g.specs w (reference g.template name) o e in
      elim (Bool-cases (env.deep_equal s g.object_spec)) [
        | inl equal ↦ (
          env.object_reference (dress input o),
          rw (g.template_given, has_spec, g.spec_given, equal) refl,
        )
        | inr other ↦
            let o' = dress input (record o { spec = present g.object_spec }) in
            (
              env.object_reference o',
              rw (g.template_given, has_spec, g.spec_given, other)
                  (after_write_ok (env.object_reference o') (env.update w o')
                    (g.updates w (reference g.template name) o o' e refl)),
            )
      ]

  create_or_update_ok :
      stack.spec.provider_ref ≡ some ref
      → (r : ObjectReference) × ((create_or_update_provider env w name stack).1 ≡ ok r)
  unfolding create_or_update_provider with_template
  create_or_update_ok h =
      let (r, e) =
        with_existing_ok (env.get_object w (reference g.template name) stack.namespace) refl in
      (r, ground (arith, h, g.template_there w, e))

module _ (cond : ConditionsApi) {W S : Type 0} (env : StackEnv W cond.C S) where
  -- The provider's object of every release is created or updated, if there is a provider.
  abbrev pub Provides : Cs cond → Type 0
  Provides stack =
      (w : W) (name : Text)
      → (ref : Option ObjectReference) × ((provider_step cond env w name stack).1 ≡ ok ref)

  pub provider_step_ok :
      (stack : Cs cond) → HasProvider env.provider stack.spec stack.namespace → Provides stack
  unfolding provider_step
  provider_step_ok stack (unneeded h) w name = (none, rw h refl)
  provider_step_ok stack (granted ref h g) w name = elim (Bool-cases stack.spec.no_provider) [
    | inl free ↦ (none, rw free refl)
    | inr needed ↦
        let (r, e) = create_or_update_ok env.provider ref stack g w name h in
        (some r, ground (arith, needed, e))
  ]
