-- ===== src/Webhooks/Stacks.antt =====
-- api/v1alpha1/clusterstack_webhook.go.
use cluster_stack_operator.Base.{
  Bool, true, false, not, ◌&&◌, List, [], ◌∷◌, ◌++◌, Option, none, some, if◌then◌else◌, ok, err,
}
use cluster_stack_operator.Strings.{Text, text_eq}
use cluster_stack_operator.Version
use cluster_stack_operator.KubernetesVersion
use cluster_stack_operator.ClusterStack as Stack
use cluster_stack_operator.Api.{ClusterStackSpec, Cluster}
use cluster_stack_operator.Webhooks.{
  Field, Verdict, admitted, warned, in_use, aggregate_obj_errors, versions_field,
  provider_ref_field, provider_field, name_field, channel_field, kubernetes_version_field,
}

-- The loop over the versions of the spec.
unfoldable pub version_errors : List Text → List Field
version_errors [] = []
version_errors (v ∷ vs) =
    let rest = version_errors vs in
    elim (Version.new v) [ ok _ ↦ rest | err _ ↦ versions_field ∷ rest ]

abbrev pub is_nil {ℓ} : {A : Type ℓ} → Option A → Bool
is_nil none = true
is_nil (some _) = false

abbrev pub error_if : Bool → Field → List Field
error_if b f = if b then f ∷ [] else []

-- `ValidateCreate`. The error for a spec that subscribes in local mode is built and not kept.
unfoldable pub validate_create : Bool → ClusterStackSpec → Verdict
validate_create local_mode spec = aggregate_obj_errors (
    version_errors spec.versions
    ++ error_if (is_nil spec.provider_ref && not spec.no_provider) provider_ref_field)

-- `ValidateUpdate`.
unfoldable pub validate_update : Bool → ClusterStackSpec → ClusterStackSpec → Verdict
validate_update local_mode old new = aggregate_obj_errors (
    error_if (not (text_eq old.provider new.provider)) provider_field
    ++ (error_if (not (text_eq old.name new.name)) name_field
        ++ (error_if (not (text_eq old.channel new.channel)) channel_field
            ++ error_if (not (text_eq old.kubernetes_version new.kubernetes_version))
                kubernetes_version_field)))

-- The comparison in `getClustersUsingClusterStack`.
abbrev pub is_of_spec : ClusterStackSpec → Stack.ClusterStack → Bool
is_of_spec spec cs =
    text_eq spec.provider cs.provider
    && text_eq spec.channel cs.version.channel
    && text_eq spec.name cs.name
    && text_eq spec.kubernetes_version (KubernetesVersion.string_with_dot cs.kubernetes_version)

unfoldable pub uses_class : ClusterStackSpec → Text → Bool
uses_class spec class = elim (Stack.new_from_cluster_class_properties class) [
  | err _ ↦ false
  | ok cs ↦ is_of_spec spec cs
]

unfoldable pub uses_stack : ClusterStackSpec → Cluster → Bool
uses_stack spec cluster = elim cluster.topology [
  | none ↦ false
  | some t ↦ if text_eq t.class [] then false else uses_class spec t.class
]

-- `getClustersUsingClusterStack`, behind the call that lists the clusters.
unfoldable pub clusters_using_stack : ClusterStackSpec → List Cluster → List Text
clusters_using_stack spec [] = []
clusters_using_stack spec (c ∷ l) =
    let rest = clusters_using_stack spec l in if uses_stack spec c then c.name ∷ rest else rest

abbrev pub in_use_verdict : List Text → Verdict
in_use_verdict [] = admitted
in_use_verdict (c ∷ l) = in_use (c ∷ l)

-- `ValidateDelete`; the argument is the answer to the call that lists the clusters.
unfoldable pub validate_delete : ClusterStackSpec → Option (List Cluster) → Verdict
validate_delete spec none = warned
validate_delete spec (some clusters) = in_use_verdict (clusters_using_stack spec clusters)
