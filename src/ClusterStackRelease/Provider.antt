-- ===== src/ClusterStackRelease/Provider.antt =====
-- internal/controller/clusterstackrelease_controller.go: `updateProviderClusterStackRelease`.
use cluster_stack_operator.Base.{Bool, true, false, Option, none, some, if◌then◌else◌}

-- The field `status.ready` of an object: no bool, missing, or its value.
pub data ReadyField : Type 0 where
  no_bool no_field : ReadyField
  is_ready : Bool → ReadyField

-- The calls on the object of the provider, of type `O`; `none` and `true` are errors.
pub record ProviderCalls (W O : Type 0) : Type 0 where
  pub get : W → Option O
  pub new_helper : W → O → Bool
  pub set_controller_reference : O → Option O
  pub patch : W → O → W × Bool
  pub watch : W → O → W × Bool
  pub ready : O → ReadyField

module _ {W O : Type 0} (calls : ProviderCalls W O) where
  -- `unstructured.NestedBool`: false where the field is missing.
  abbrev pub ready_of : ReadyField → Option Bool
  ready_of no_bool = none
  ready_of no_field = some false
  ready_of (is_ready b) = some b

  abbrev pub watched : O → W × Bool → W × Option Bool
  watched o (w, true) = (w, none)
  watched o (w, false) = (w, ready_of (calls.ready o))

  abbrev pub patched : O → W × Bool → W × Option Bool
  patched o (w, true) = (w, none)
  patched o (w, false) = watched o (calls.watch w o)

  abbrev pub owned : W → Option O → W × Option Bool
  owned w none = (w, none)
  owned w (some o) = patched o (calls.patch w o)

  -- `updateProviderClusterStackRelease`, without the mark of a provider that is not ready, which
  -- `after_provider` has: the world, and the field or an error.
  unfoldable pub update_provider_cluster_stack_release : W → W × Option Bool
  update_provider_cluster_stack_release w = elim (calls.get w) [
    | none ↦ (w, none)
    | some o ↦
        if calls.new_helper w o then (w, none) else owned w (calls.set_controller_reference o)
  ]
