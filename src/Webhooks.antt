-- ===== src/Webhooks.antt =====
-- The webhooks of api/v1alpha1: what they answer to a request.
pub mod Stacks
pub mod Releases
pub mod Clusters
pub mod Addons
pub mod Immutable
pub mod InUse
pub mod Steps
use cluster_stack_operator.Base.{List, [], ◌∷◌}
use cluster_stack_operator.Strings.{Text}

-- The paths of the fields with an error.
pub data Field : Type 0 where
  versions_field provider_ref_field provider_field name_field channel_field : Field
  kubernetes_version_field topology_field class_field version_field : Field
  cluster_ref_field cluster_ref_kind_field cluster_ref_name_field cluster_ref_namespace_field :
      Field

-- The answer: admitted, admitted with a warning, refused for its fields or for the clusters that use
-- it, or refused with another error; `panicked` is a nil pointer that is read.
pub data Verdict : Type 0 where
  admitted warned refused panicked : Verdict
  invalid : List Field → Verdict
  in_use : List Text → Verdict

-- `aggregateObjErrors`: nil for an empty list.
unfoldable pub aggregate_obj_errors : List Field → Verdict
aggregate_obj_errors [] = admitted
aggregate_obj_errors (e ∷ es) = invalid (e ∷ es)
