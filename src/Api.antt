-- ===== src/Api.antt =====
-- api/v1alpha1: the objects of the operator, with the fields that the code reads or writes.
-- `C` stands for the conditions of an object, a type of cluster-api.
pub mod Conditions
use cluster_stack_operator.Base.{
  Bool, true, false, List, [], ◌∷◌, ◌++◌, Option, none, some, ◌&&◌, if◌then◌else◌,
}
use cluster_stack_operator.Strings.{Text, codes, text_eq}

-- `metav1.OwnerReference` and `corev1.ObjectReference`.
pub record OwnerReference : Type 0 where
  pub api_version : Text
  pub kind : Text
  pub name : Text
  pub uid : Text

pub record ObjectReference : Type 0 where
  pub api_version : Text
  pub kind : Text
  pub namespace : Text
  pub name : Text
  pub uid : Text

-- `ResourceStatus`; `unset` is the empty string.
pub data ResourceStatus : Type 0 where
  unset synced not_synced : ResourceStatus

pub ResourceStatus-discrete : Discrete ResourceStatus
ResourceStatus-discrete = hlevel

abbrev pub is_synced : ResourceStatus → Bool
is_synced synced = true
is_synced _ = false

-- `Resource`.
pub record Resource : Type 0 where
  pub group : Text
  pub version : Text
  pub kind : Text
  pub namespace : Text
  pub name : Text
  pub status : ResourceStatus
  pub error : Text

-- `schema.GroupVersionKind`.
pub record GroupVersionKind : Type 0 where
  pub group : Text
  pub version : Text
  pub kind : Text

-- `NamespacedName`.
unfoldable pub namespaced_name : Resource → Text
namespaced_name r = r.namespace ++ b'/' ∷ r.name

-- `GroupVersionKind`.
abbrev pub group_version_kind : Resource → GroupVersionKind
group_version_kind r = record { group = r.group; version = r.version; kind = r.kind }

-- The map of strings at a path of an object; `malformed` is a value that is no such map, or a part of
-- the path that is no map.
pub data Nested : Type 0 where
  malformed missing : Nested
  present : List (Text × Text) → Nested

-- The map `spec.selector`: with no entries, with entries, or with labels under `matchLabels` only.
pub data Selector : Type 0 where
  selector_malformed selector_empty selector_given : Selector
  match_labels : List (Text × Text) → Selector

-- What the code reads of an `unstructured.Unstructured`, and the labels that it sets.
pub record Unstructured : Type 0 where
  pub api_version : Text
  pub gvk : GroupVersionKind
  pub namespace : Text
  pub name : Text
  pub labels : Nested
  pub template_labels : Nested
  pub selector : Selector

-- `NewResourceFromUnstructured`, for an object that is not nil.
unfoldable pub new_resource_from_unstructured : Unstructured → Resource
new_resource_from_unstructured u = record {
  group = u.gvk.group;
  version = u.gvk.version;
  kind = u.gvk.kind;
  namespace = u.namespace;
  name = u.name;
  status = unset;
  error = [];
}

-- `ClusterStackReleaseStatus`.
pub record ClusterStackReleaseStatus (C : Type 0) : Type 0 where
  pub resources : List Resource
  pub kubernetes_version : Text
  pub ready : Bool
  pub conditions : C

-- `ClusterStackRelease`; `deleting` is a deletion timestamp that is not zero.
pub record ClusterStackRelease (C : Type 0) : Type 0 where
  pub name : Text
  pub namespace : Text
  pub owner_references : List OwnerReference
  pub finalizers : List Text
  pub deleting : Bool
  pub provider_ref : Option ObjectReference
  pub status : ClusterStackReleaseStatus C

-- `ClusterStackSpec`.
pub record ClusterStackSpec : Type 0 where
  pub provider : Text
  pub name : Text
  pub kubernetes_version : Text
  pub channel : Text
  pub versions : List Text
  pub auto_subscribe : Bool
  pub no_provider : Bool
  pub provider_ref : Option ObjectReference

-- `ClusterStackReleasePhase`.
pub data ClusterStackReleasePhase : Type 0 where
  phase_none downloading_assets provider_specific_work applying_objects done :
      ClusterStackReleasePhase

-- `ClusterStackReleaseSummary`; the message is a reason of a condition.
pub record ClusterStackReleaseSummary : Type 0 where
  pub name : Text
  pub ready : Bool
  pub phase : ClusterStackReleasePhase
  pub message : Text

-- `ClusterStackStatus`.
pub record ClusterStackStatus (C : Type 0) : Type 0 where
  pub latest_release : Text
  pub summary : List ClusterStackReleaseSummary
  pub usable_versions : Text
  pub conditions : C

-- `ClusterStack`.
pub record ClusterStack (C : Type 0) : Type 0 where
  pub api_version : Text
  pub kind : Text
  pub name : Text
  pub namespace : Text
  pub uid : Text
  pub labels : List (Text × Text)
  pub annotations : List (Text × Text)
  pub deleting : Bool
  pub spec : ClusterStackSpec
  pub status : ClusterStackStatus C

-- `clusterv1.Cluster`: the class and the version of a topology that is not nil.
pub record Topology : Type 0 where
  pub class : Text
  pub version : Text

pub record Cluster : Type 0 where
  pub name : Text
  pub namespace : Text
  pub topology : Option Topology

-- The answer of a read of the API server: an error is not found, or another one.
pub data Answer (A : Type 0) : Type 0 where
  found : A → Answer A
  not_found failed : Answer A

-- The key of a Go map of type `map[string]struct{}`, as the list of its keys in the order of a range.
unfoldable pub member : List Text → Text → Bool
member [] n = false
member (k ∷ ks) n = if text_eq k n then true else member ks n
