-- ===== src/Webhooks/Immutable.antt =====
-- Which new specs and new versions of an object are admitted.
use cluster_stack_operator.Base.{
  Bool, false, not, ◌&&◌, ◌≡◌, ◌↔◌, refl, List, [], ◌∷◌, ◌++◌, arith, All, Result-cases, inl, inr,
  ok,
}
use cluster_stack_operator.Strings.{Text}
use cluster_stack_operator.Strings.Order.{text_eq→eq, text_eq_refl}
use cluster_stack_operator.Version
use cluster_stack_operator.Api.{ClusterStackSpec}
use cluster_stack_operator.Webhooks.{Field, admitted, aggregate_obj_errors}
use cluster_stack_operator.Webhooks.Stacks
use cluster_stack_operator.Webhooks.Stacks.{error_if, is_nil, version_errors}

-- The fields of the spec that a ClusterStack cannot change.
pub record Unchanged (old new : ClusterStackSpec) : Type 0 where
  pub same_provider : old.provider ≡ new.provider
  pub same_name : old.name ≡ new.name
  pub same_channel : old.channel ≡ new.channel
  pub same_kubernetes_version : old.kubernetes_version ≡ new.kubernetes_version

update-Unchanged :
    (local_mode : Bool) (old new : ClusterStackSpec)
    → Stacks.validate_update local_mode old new ≡ admitted
    → Unchanged old new
unfolding Stacks.validate_update aggregate_obj_errors
update-Unchanged local_mode old new h = record {
  same_provider = text_eq→eq old.provider new.provider (ground arith);
  same_name = text_eq→eq old.name new.name (ground arith);
  same_channel = text_eq→eq old.channel new.channel (ground arith);
  same_kubernetes_version = text_eq→eq old.kubernetes_version new.kubernetes_version (ground arith);
}

Unchanged-update :
    (local_mode : Bool) (old new : ClusterStackSpec)
    → Unchanged old new
    → Stacks.validate_update local_mode old new ≡ admitted
unfolding Stacks.validate_update aggregate_obj_errors
Unchanged-update local_mode old new u = rw (
  u.same_provider,
  u.same_name,
  u.same_channel,
  u.same_kubernetes_version,
  text_eq_refl new.provider,
  text_eq_refl new.name,
  text_eq_refl new.channel,
  text_eq_refl new.kubernetes_version,
)

-- An update of a ClusterStack is admitted exactly if it leaves the provider, the name, the channel and
-- the Kubernetes version of the spec, in local mode and outside of it.
pub update_admitted_iff :
    (local_mode : Bool) (old new : ClusterStackSpec)
    → (Stacks.validate_update local_mode old new ≡ admitted) ↔ Unchanged old new
update_admitted_iff local_mode old new =
    (update-Unchanged local_mode old new, Unchanged-update local_mode old new)

-- A version of the spec that `version.New` reads.
abbrev pub Reads : Text → Type 0
Reads v = (w : Version.Version) × (Version.new v ≡ ok w)

version_errors_read : (vs : List Text) → version_errors vs ≡ [] → All Reads vs
unfolding version_errors
version_errors_read [] h = tt
version_errors_read (v ∷ vs) h = elim (Result-cases (Version.new v)) [
  | inl (e, k) ↦ absurd (ground (arith, k))
  | inr (w, k) ↦ ((w, k), version_errors_read vs (ground (arith, k)))
]

read_version_errors : (vs : List Text) → All Reads vs → version_errors vs ≡ []
unfolding version_errors
read_version_errors [] h = refl
read_version_errors (v ∷ vs) ((w, k), hs) = rw (k, version_errors) (read_version_errors vs hs)

append_nil_cases : {A : Type 0} (xs ys : List A) → xs ++ ys ≡ [] → (xs ≡ []) × (ys ≡ [])
append_nil_cases [] ys h = (refl, h)
append_nil_cases (x ∷ xs) ys h = cc

admitted_nil : (l : List Field) → aggregate_obj_errors l ≡ admitted → l ≡ []
unfolding aggregate_obj_errors
admitted_nil [] h = refl
admitted_nil (x ∷ l) h = cc

-- A ClusterStack is created exactly if each version of its spec can be read in dot notation, and it has
-- a reference to a provider or says that it has no provider; in local mode and outside of it, and
-- whether or not it subscribes to new releases.
pub create_admitted_iff :
    (local_mode : Bool) (spec : ClusterStackSpec)
    → (Stacks.validate_create local_mode spec ≡ admitted)
      ↔ (All Reads spec.versions × ((is_nil spec.provider_ref && not spec.no_provider) ≡ false))
unfolding Stacks.validate_create
create_admitted_iff local_mode spec = (
  λ h.
      let (a, b) = append_nil_cases (version_errors spec.versions) _ (admitted_nil _ h) in
      (version_errors_read spec.versions a, ground arith),
  λ (a, b). rw (read_version_errors spec.versions a, b) (unfold aggregate_obj_errors in refl),
)
