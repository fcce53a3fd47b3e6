-- ===== src/Webhooks/Releases.antt =====
-- api/v1alpha1/clusterstackrelease_webhook.go.
use cluster_stack_operator.Base.{
  Bool, ◌&&◌, List, [], ◌∷◌, Option, none, some, if◌then◌else◌, Result, ok, err, ◌>>=◌,
}
use cluster_stack_operator.Strings.{Text, text_eq}
use cluster_stack_operator.Version
use cluster_stack_operator.KubernetesVersion
use cluster_stack_operator.ClusterStack as Stack
use cluster_stack_operator.Api.{Cluster}
use cluster_stack_operator.Webhooks.{Verdict, admitted, warned}
use cluster_stack_operator.Webhooks.Stacks.{in_use_verdict}

-- `ValidateCreate` and `ValidateUpdate`.
abbrev pub validate_create : Verdict
validate_create = admitted

abbrev pub validate_update : Verdict
validate_update = admitted

-- The comparison in `getClustersUsingClusterStackRelease`.
abbrev pub same_release : Stack.ClusterStack → Stack.ClusterStack → Bool
same_release class release =
    text_eq class.name release.name
    && text_eq class.provider release.provider
    && KubernetesVersion.version_eq class.kubernetes_version release.kubernetes_version
    && text_eq (Version.string class.version) (Version.string release.version)

-- The body of the loop, for the class of a topology that is not nil.
unfoldable pub uses_release : Text → Text → Result Stack.Error Bool
uses_release name class = do
  c ← Stack.new_from_cluster_class_properties class
  r ← Stack.new_from_cluster_stack_release_properties name
  ok (same_release c r)

-- `getClustersUsingClusterStackRelease`, behind the call that lists the clusters.
unfoldable pub clusters_using_release : Text → List Cluster → Result Stack.Error (List Text)
clusters_using_release name [] = ok []
clusters_using_release name (cluster ∷ l) = elim cluster.topology [
  | none ↦ clusters_using_release name l
  | some t ↦ do
    b ← uses_release name t.class
    rest ← clusters_using_release name l
    ok (if b then cluster.name ∷ rest else rest)
]

-- `ValidateDelete`; the argument is the answer to the call that lists the clusters.
unfoldable pub validate_delete : Text → Option (List Cluster) → Verdict
validate_delete name none = warned
validate_delete name (some clusters) = elim (clusters_using_release name clusters) [
  | err _ ↦ warned
  | ok using ↦ in_use_verdict using
]
