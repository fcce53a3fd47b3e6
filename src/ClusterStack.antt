-- ===== src/ClusterStack.antt =====
-- pkg/clusterstack: cluster stacks, their names in both notations, and lists of them.
pub mod Names
pub mod RoundTrip
pub mod Order
pub mod Parsed
use cluster_stack_operator.Base.{
  ℕ, Bool, true, false, List, [], ◌∷◌, ◌++◌, Option, none, some, if◌then◌else◌, ℤ, pos, negsuc,
  int_eq, Result, ok, err, ◌&&◌, ◌||◌, wrap, length, ◌>>=◌,
}
use cluster_stack_operator.Strings.{Text, text_eq, split, join, dash, dot}
use cluster_stack_operator.KubernetesVersion
use cluster_stack_operator.KubernetesVersion.{KubernetesVersion}
use cluster_stack_operator.Version
use cluster_stack_operator.Version.{Version}

pub record ClusterStack : Type 0 where
  pub provider : Text
  pub name : Text
  pub kubernetes_version : KubernetesVersion
  pub version : Version

-- The sentinel errors, and the wrapped errors of the two version packages.
pub data Error : Type 0 where
  invalid_format invalid_provider invalid_name : Error
  kubernetes_version_error : KubernetesVersion.Error → Error
  version_error : Version.Error → Error

-- The version parser that a notation uses.
abbrev pub VersionParser : Type 0
VersionParser = Text → Result Version.Error Version

-- Both `NewFrom…Properties`, behind the split: the checks, the Kubernetes version, the version.
unfoldable pub from_properties :
    VersionParser → Text → Text → Text → Text → Text → Result Error ClusterStack
from_properties parse provider name major minor version_string =
    if text_eq provider []
    then err invalid_provider
    else if text_eq name []
    then err invalid_name
    else do
      kv ← wrap kubernetes_version_error (KubernetesVersion.new major minor)
      v ← wrap version_error (parse version_string)
      ok (record { provider = provider; name = name; kubernetes_version = kv; version = v })

-- `NewFromClusterClassProperties`: five parts, or six with the version in dot notation.
unfoldable pub from_class_parts : List Text → Result Error ClusterStack
from_class_parts (p ∷ n ∷ k1 ∷ k2 ∷ v4 ∷ []) = from_properties Version.new p n k1 k2 v4
from_class_parts (p ∷ n ∷ k1 ∷ k2 ∷ v4 ∷ v5 ∷ []) =
    from_properties Version.new p n k1 k2 (join (v4 ∷ v5 ∷ []) dash)
from_class_parts _ = err invalid_format

unfoldable pub new_from_cluster_class_properties : Text → Result Error ClusterStack
new_from_cluster_class_properties str = from_class_parts (split str dash)

-- `NewFromClusterStackReleaseProperties`: five parts, or seven with the version in dash notation.
unfoldable pub from_release_parts : List Text → Result Error ClusterStack
from_release_parts (p ∷ n ∷ k1 ∷ k2 ∷ v4 ∷ []) =
    from_properties Version.parse_version_string p n k1 k2 v4
from_release_parts (p ∷ n ∷ k1 ∷ k2 ∷ v4 ∷ v5 ∷ v6 ∷ []) =
    from_properties Version.parse_version_string p n k1 k2 (join (v4 ∷ v5 ∷ v6 ∷ []) dash)
from_release_parts _ = err invalid_format

unfoldable pub new_from_cluster_stack_release_properties : Text → Result Error ClusterStack
new_from_cluster_stack_release_properties str = from_release_parts (split str dash)

abbrev pub option_map_error {ℓ} : {E : Type ℓ} → Option E → (E → Error) → Option Error
option_map_error none f = none
option_map_error (some e) f = some (f e)

-- `Validate`; `none` is the nil error.
unfoldable pub validate : ClusterStack → Option Error
validate cs =
    if text_eq cs.provider []
    then some invalid_provider
    else if text_eq cs.name []
    then some invalid_name
    else elim (Version.validate cs.version) [
      | some e ↦ some (version_error e)
      | none ↦
          option_map_error (KubernetesVersion.validate cs.kubernetes_version)
            kubernetes_version_error
    ]

abbrev pub validated : ClusterStack → Result Error ClusterStack
validated cs = elim (validate cs) [ none ↦ ok cs | some e ↦ err e ]

-- `New`.
unfoldable pub new : Text → Text → Text → Text → Result Error ClusterStack
new provider name kubernetes_version cs_version = do
  kv ← wrap kubernetes_version_error (KubernetesVersion.new_from_string kubernetes_version)
  v ← wrap version_error (Version.new cs_version)
  validated (record { provider = provider; name = name; kubernetes_version = kv; version = v })

-- `String`.
unfoldable pub string : ClusterStack → Text
string cs =
    join
      (cs.provider
        ∷ cs.name
        ∷ KubernetesVersion.string cs.kubernetes_version
        ∷ Version.string cs.version
        ∷ [])
      dash

-- `StringWithDot`.
unfoldable pub string_with_dot : ClusterStack → Text
string_with_dot cs =
    join
      (cs.provider
        ∷ cs.name
        ∷ KubernetesVersion.string cs.kubernetes_version
        ∷ Version.string_with_dot cs.version
        ∷ [])
      dash

-- `ClusterStacks.Contains`.
unfoldable pub contains : List ClusterStack → Text → Bool
contains [] name = false
contains (release ∷ r) name = text_eq (string release) name || contains r name

-- `ClusterStacks.Latest`: the last element, or nil.
unfoldable pub latest : List ClusterStack → Option ClusterStack
latest [] = none
latest (cs ∷ []) = some cs
latest (_ ∷ cs ∷ r) = latest (cs ∷ r)

-- `ClusterStacks.Less`, on the two elements.
unfoldable pub less : ClusterStack → ClusterStack → Bool
less a b = elim (Version.compare a.version b.version) [
  | err _ ↦ false
  | ok cmp ↦ int_eq cmp (negsuc 0)
]
