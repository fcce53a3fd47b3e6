-- ===== src/ClusterStackController/Watch.antt =====
-- internal/controller/clusterstack_controller.go: the requests for cluster stacks whose releases change.
use cluster_stack_operator.Base.{List, [], ◌∷◌}
use cluster_stack_operator.Strings.{Text}
use cluster_stack_operator.Api.{ClusterStackRelease, OwnerReference}

abbrev pub requests : Text → List OwnerReference → List (Text × Text)
requests namespace [] = []
requests namespace (r ∷ l) = (namespace, r.name) ∷ requests namespace l

-- `ClusterStackReleaseToClusterStack`, for an object of its type: the namespaces and names of the requests.
unfoldable pub cluster_stack_release_to_cluster_stack :
    {C : Type 0} → ClusterStackRelease C → List (Text × Text)
cluster_stack_release_to_cluster_stack csr = requests csr.namespace csr.owner_references
