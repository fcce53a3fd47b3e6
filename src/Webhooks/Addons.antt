-- ===== src/Webhooks/Addons.antt =====
-- api/v1alpha1/clusteraddon_webhook.go.
use cluster_stack_operator.Base.{not, [], ◌∷◌, ◌++◌, Option, none, some}
use cluster_stack_operator.Strings.{Text, codes, text_eq}
use cluster_stack_operator.Api.{ObjectReference}
use cluster_stack_operator.Webhooks.{
  Verdict, admitted, panicked, aggregate_obj_errors, cluster_ref_field, cluster_ref_kind_field,
  cluster_ref_name_field, cluster_ref_namespace_field,
}
use cluster_stack_operator.Webhooks.Stacks.{error_if}

-- `ValidateCreate`, on the reference to the cluster.
unfoldable pub validate_create : Option ObjectReference → Verdict
validate_create none = aggregate_obj_errors (cluster_ref_field ∷ [])
validate_create (some r) =
    aggregate_obj_errors (error_if (not (text_eq r.kind (codes "Cluster"))) cluster_ref_kind_field)

-- `ValidateUpdate`, on the namespace of the new object, the old reference and the new one.
unfoldable pub validate_update : Text → Option ObjectReference → Option ObjectReference → Verdict
validate_update namespace old none = aggregate_obj_errors (cluster_ref_field ∷ [])
validate_update namespace none (some new) = panicked
validate_update namespace (some old) (some new) = aggregate_obj_errors (
    error_if (not (text_eq old.name new.name)) cluster_ref_name_field
    ++ (error_if (not (text_eq new.namespace namespace)) cluster_ref_namespace_field
        ++ error_if (not (text_eq old.kind new.kind)) cluster_ref_kind_field))

-- `ValidateDelete`.
abbrev pub validate_delete : Verdict
validate_delete = admitted
