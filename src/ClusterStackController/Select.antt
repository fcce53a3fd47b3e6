-- ===== src/ClusterStackController/Select.antt =====
-- The functions of the ClusterStack controller that read the objects it found.
use cluster_stack_operator.Base.{
  Bool, true, false, ◌&&◌, List, [], ◌∷◌, ◌++◌, Option, none, some, if◌then◌else◌, Result, ok, err,
  ◌>>=◌,
}
use cluster_stack_operator.Strings.{Text, text_eq}
use cluster_stack_operator.Version
use cluster_stack_operator.KubernetesVersion
use cluster_stack_operator.ClusterStack as Stack
use cluster_stack_operator.ClusterStack.{less}
use cluster_stack_operator.Sort.{Sorter}
use cluster_stack_operator.Api.{
  ClusterStackRelease, ClusterStackSpec, ClusterStack, Cluster, OwnerReference, member,
}

-- The loop of `getLatestReadyClusterStackRelease`: the ready cluster stacks, and the Kubernetes
-- versions by their names in dot notation, the newest entry in front.
pub record Ready : Type 0 where
  pub objects : List Stack.ClusterStack
  pub kubernetes_versions : List (Text × Text)

abbrev pub add_ready : {C : Type 0} → ClusterStackRelease C → Stack.ClusterStack → Ready → Ready
add_ready csr cs r = record {
  objects = r.objects ++ cs ∷ [];
  kubernetes_versions =
      (Stack.string_with_dot cs, csr.status.kubernetes_version) ∷ r.kubernetes_versions;
}

unfoldable pub collect_ready :
    {C : Type 0} → List (ClusterStackRelease C) → Ready → Result Stack.Error Ready
collect_ready [] r = ok r
collect_ready (csr ∷ l) r = elim csr.status.ready [
  | false ↦ collect_ready l r
  | true ↦ elim (Stack.new_from_cluster_stack_release_properties csr.name) [
    | err e ↦ err e
    | ok cs ↦ collect_ready l (add_ready csr cs r)
  ]
]

-- A read of a Go map: the zero value, the empty text, where the key is missing.
unfoldable pub map_get : List (Text × Text) → Text → Text
map_get [] key = []
map_get ((k, v) ∷ m) key = if text_eq k key then v else map_get m key

-- The last cluster stack of the sorted list: its name in dot notation, and its Kubernetes version.
abbrev pub latest_of : Option Stack.ClusterStack → List (Text × Text) → Option (Text × Text)
latest_of none m = none
latest_of (some cs) m = some (Stack.string_with_dot cs, map_get m (Stack.string_with_dot cs))

-- The controller sorts cluster stacks with `sort.Sort`, a parameter.
module _ (s : Sorter less) where
  -- `getLatestReadyClusterStackRelease`; `none` is a nil pointer with the empty Kubernetes version.
  unfoldable pub get_latest_ready_cluster_stack_release :
      {C : Type 0} → List (ClusterStackRelease C) → Result Stack.Error (Option (Text × Text))
  get_latest_ready_cluster_stack_release releases = do
    r ← collect_ready releases (record { objects = []; kubernetes_versions = [] })
    ok (latest_of (Stack.latest (s.sort r.objects)) r.kubernetes_versions)

-- `matchesSpec`: the cluster stack of a name, if it can be read and is one of the spec.
unfoldable pub matches : ClusterStackSpec → Stack.ClusterStack → Bool
matches spec cs =
    text_eq cs.version.channel spec.channel
    && text_eq (KubernetesVersion.string_with_dot cs.kubernetes_version) spec.kubernetes_version
    && text_eq cs.name spec.name
    && text_eq cs.provider spec.provider

unfoldable pub matches_spec : Text → ClusterStackSpec → Option Stack.ClusterStack
matches_spec str spec = elim (Stack.new_from_cluster_stack_release_properties str) [
  | err e ↦ none
  | ok cs ↦ if matches spec cs then some cs else none
]

-- The loop of `getLatestReleaseFromRemoteRepository`.
unfoldable pub matching : List Text → ClusterStackSpec → List Stack.ClusterStack
matching [] spec = []
matching (release ∷ l) spec = elim (matches_spec release spec) [
  | none ↦ matching l spec
  | some cs ↦ cs ∷ matching l spec
]

abbrev pub option_map {ℓ κ} : {A : Type ℓ} {B : Type κ} → (A → B) → Option A → Option B
option_map f none = none
option_map f (some a) = some (f a)

module _ (s : Sorter less) where
  -- `getLatestReleaseFromRemoteRepository`, behind the call that lists the releases.
  unfoldable pub get_latest_release : List Text → ClusterStackSpec → Option Text
  get_latest_release releases spec =
      option_map Stack.string (Stack.latest (s.sort (matching releases spec)))

-- `getClusterStackReleasesInSpec`; the map is the list of its keys.
unfoldable pub in_spec_from : ClusterStackSpec → List Text → Result Stack.Error (List Text)
in_spec_from spec [] = ok []
in_spec_from spec (v ∷ vs) = do
  cs ← Stack.new spec.provider spec.name spec.kubernetes_version v
  keys ← in_spec_from spec vs
  ok (if member keys (Stack.string cs) then keys else Stack.string cs ∷ keys)

unfoldable pub get_cluster_stack_releases_in_spec :
    ClusterStackSpec → Result Stack.Error (List Text)
get_cluster_stack_releases_in_spec spec = in_spec_from spec spec.versions

-- `getUsedClusterClasses`, behind the call that lists the clusters.
unfoldable pub used_cluster_classes : List Cluster → List Text
used_cluster_classes [] = []
used_cluster_classes (cluster ∷ l) = elim cluster.topology [
  | none ↦ used_cluster_classes l
  | some t ↦ if text_eq t.class [] then used_cluster_classes l else t.class ∷ used_cluster_classes l
]

-- `getUsableClusterStackReleaseVersions`.
unfoldable pub get_usable_versions :
    {C : Type 0} → List (ClusterStackRelease C) → Result Version.Error (List Text)
get_usable_versions [] = ok []
get_usable_versions (csr ∷ l) = elim csr.status.ready [
  | false ↦ get_usable_versions l
  | true ↦ do
    v ← Version.from_release_tag csr.name
    rest ← get_usable_versions l
    ok (Version.string_with_dot v ∷ rest)
]

-- `schema.ParseGroupVersion`, from which the code takes the group, is a parameter; `none` is its error.
module _ (parse_group : Text → Option Text) where
  -- `GroupVersionKind().Group` of an object.
  abbrev pub group_of : Text → Text
  group_of api_version = elim (parse_group api_version) [ none ↦ [] | some g ↦ g ]

  -- `matchesOwnerRef`.
  unfoldable pub matches_owner_ref : {C : Type 0} → OwnerReference → ClusterStack C → Bool
  matches_owner_ref a cs = elim (parse_group a.api_version) [
    | none ↦ false
    | some g ↦
        text_eq g (group_of cs.api_version) && text_eq a.kind cs.kind && text_eq a.name cs.name
  ]

  -- The inner loop of `getExistingClusterStackReleases`, which stops at the first match.
  unfoldable pub owned_by : {C : Type 0} → List OwnerReference → ClusterStack C → Bool
  owned_by [] cs = false
  owned_by (a ∷ l) cs = if matches_owner_ref a cs then true else owned_by l cs

  -- `getExistingClusterStackReleases`, behind the call that lists the releases.
  unfoldable pub existing_releases :
      {C : Type 0} → List (ClusterStackRelease C) → ClusterStack C → List (ClusterStackRelease C)
  existing_releases [] cs = []
  existing_releases (csr ∷ l) cs =
      let rest = existing_releases l cs in
      if owned_by csr.owner_references cs then csr ∷ rest else rest
