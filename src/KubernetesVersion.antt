-- ===== src/KubernetesVersion.antt =====
-- pkg/kubernetesversion: the major and minor version of Kubernetes.
pub mod RoundTrip
use cluster_stack_operator.Base.{
  ℕ, Bool, List, [], ◌∷◌, ◌++◌, Option, none, some, if◌then◌else◌, ℤ, pos, int_eq, Result, ok, err,
  ◌&&◌,
}
use cluster_stack_operator.Strings.{Text, split, dash, dot}
use cluster_stack_operator.Strconv.{atoi, itoa}

pub record KubernetesVersion : Type 0 where
  pub major : ℤ
  pub minor : ℤ

pub data Error : Type 0 where
  invalid_format invalid_major_version invalid_minor_version : Error

-- `New`.
unfoldable pub new : Text → Text → Result Error KubernetesVersion
new major_str minor_str = elim (atoi major_str) [
  | none ↦ err invalid_major_version
  | some major ↦ elim (atoi minor_str) [
    | none ↦ err invalid_minor_version
    | some minor ↦ ok (record { major = major; minor = minor })
  ]
]

-- `NewFromString`, from the parts on. Its body behind the split repeats that of `New`.
unfoldable pub from_splitted : List Text → Result Error KubernetesVersion
from_splitted (s0 ∷ s1 ∷ []) = elim (atoi s0) [
  | none ↦ err invalid_major_version
  | some major ↦ elim (atoi s1) [
    | none ↦ err invalid_minor_version
    | some minor ↦ ok (record { major = major; minor = minor })
  ]
]
from_splitted _ = err invalid_format

-- `NewFromString`.
unfoldable pub new_from_string : Text → Result Error KubernetesVersion
new_from_string str = from_splitted (split str dot)

-- `Validate`; `none` is the nil error.
unfoldable pub validate : KubernetesVersion → Option Error
validate kv =
    if int_eq kv.major (pos 0)
    then some invalid_major_version
    else if int_eq kv.minor (pos 0)
    then some invalid_minor_version
    else none

-- `String`.
unfoldable pub string : KubernetesVersion → Text
string kv = itoa kv.major ++ dash ∷ itoa kv.minor

-- `StringWithDot`.
unfoldable pub string_with_dot : KubernetesVersion → Text
string_with_dot kv = itoa kv.major ++ dot ∷ itoa kv.minor

-- `==` of two Kubernetes versions.
abbrev pub version_eq : KubernetesVersion → KubernetesVersion → Bool
version_eq a b = int_eq a.major b.major && int_eq a.minor b.minor
