-- ===== src/ClusterStack/Parsed.antt =====
-- What the parsers of cluster stack names return.
use cluster_stack_operator.Base.{
  ◌≡◌, refl, List, [], ◌∷◌, ok, err, arith, All, Result, inl, inr, Option-cases,
}
use cluster_stack_operator.Strings.{Text, split, join, dash, dot, Lacks}
use cluster_stack_operator.Strings.Parts.{split_pieces}
use cluster_stack_operator.Strconv.{atoi}
use cluster_stack_operator.KubernetesVersion
use cluster_stack_operator.KubernetesVersion.{KubernetesVersion}
use cluster_stack_operator.KubernetesVersion.RoundTrip.{InRange}
use cluster_stack_operator.Version
use cluster_stack_operator.Version.{Version}
use cluster_stack_operator.Version.Valid.{IsParsed, atoi-Lacks-dash}
use cluster_stack_operator.Version.Reading.{parse_iff, new_iff, Spells-IsParsed}
use cluster_stack_operator.ClusterStack.{
  ClusterStack, VersionParser, from_properties, from_release_parts, from_class_parts,
  new_from_cluster_stack_release_properties, new_from_cluster_class_properties, string,
  string_with_dot,
}
use cluster_stack_operator.ClusterStack.Names.{IsNamed}
use cluster_stack_operator.ClusterStack.RoundTrip.{
  normal_stack, new_from_release-string, new_from_class-string_with_dot,
}

new-InRange :
    (k1 k2 : Text) (kv : KubernetesVersion)
    → Lacks dash k1
    → Lacks dash k2
    → KubernetesVersion.new k1 k2 ≡ ok kv
    → InRange kv
unfolding KubernetesVersion.new
new-InRange k1 k2 kv l1 l2 h = elim (Option-cases (atoi k1)) [
  | inl e ↦ absurd (ground arith)
  | inr (major, e) ↦ elim (Option-cases (atoi k2)) [
    | inl f ↦ absurd (ground arith)
    | inr (minor, f) ↦ record {
      major_fits = atoi-Lacks-dash k1 kv.major l1 (ground arith);
      minor_fits = atoi-Lacks-dash k2 kv.minor l2 (ground arith);
    }
  ]
]

-- A version parser that returns well-formed versions only.
abbrev Sound : VersionParser → Type 0
Sound parse = (s : Text) (v : Version) → parse s ≡ ok v → IsParsed v

parse_Sound : Sound Version.parse_version_string
parse_Sound s v h = Spells-IsParsed dash s v ((parse_iff s v).0 h)

new-Sound : Sound Version.new
new-Sound s v h = Spells-IsParsed dot s v ((new_iff s v).0 h)

module _ (parse : VersionParser) (sound : Sound parse) where
  from_properties-IsNamed :
      (p n k1 k2 s : Text) (cs : ClusterStack)
      → Lacks dash p
      → Lacks dash n
      → Lacks dash k1
      → Lacks dash k2
      → from_properties parse p n k1 k2 s ≡ ok cs
      → IsNamed cs
  unfolding from_properties
  from_properties-IsNamed p n k1 k2 s cs lp ln l1 l2 h =
      go (KubernetesVersion.new k1 k2) (parse s) refl refl (ground arith)
    where
      go :
          (a : Result KubernetesVersion.Error KubernetesVersion) (b : Result Version.Error Version)
          → KubernetesVersion.new k1 k2 ≡ a
          → parse s ≡ b
          → from_properties parse p n k1 k2 s ≡ ok cs
          → IsNamed cs
      go (err e) b ea eb h' = absurd (ground arith)
      go (ok kv) (err e) ea eb h' = absurd (ground arith)
      go (ok kv) (ok v) ea eb h' =
          let same_provider : cs.provider ≡ p = ground arith in
          let same_name : cs.name ≡ n = ground arith in
          let same_kv : cs.kubernetes_version ≡ kv = ground arith in
          let same_version : cs.version ≡ v = ground arith in
          record {
            provider_given = ground arith;
            provider_plain = rw same_provider lp;
            name_given = ground arith;
            name_plain = rw same_name ln;
            kubernetes_fits = rw same_kv (new-InRange k1 k2 kv l1 l2 ea);
            version_parsed = rw same_version (sound s v eb);
          }

from_release_parts-IsNamed :
    (l : List Text) (cs : ClusterStack)
    → All (Lacks dash) l
    → from_release_parts l ≡ ok cs
    → IsNamed cs
unfolding from_release_parts
from_release_parts-IsNamed (p ∷ n ∷ k1 ∷ k2 ∷ v4 ∷ []) cs (lp, (ln, (l1, (l2, _)))) h =
    from_properties-IsNamed Version.parse_version_string parse_Sound p n k1 k2 v4 cs lp ln l1 l2 h
from_release_parts-IsNamed (p ∷ n ∷ k1 ∷ k2 ∷ v4 ∷ v5 ∷ v6 ∷ []) cs (lp, (ln, (l1, (l2, _)))) h =
    from_properties-IsNamed Version.parse_version_string parse_Sound p n k1 k2
      (join (v4 ∷ v5 ∷ v6 ∷ []) dash) cs lp ln l1 l2 h
from_release_parts-IsNamed _ cs l h = cc

from_class_parts-IsNamed :
    (l : List Text) (cs : ClusterStack)
    → All (Lacks dash) l
    → from_class_parts l ≡ ok cs
    → IsNamed cs
unfolding from_class_parts
from_class_parts-IsNamed (p ∷ n ∷ k1 ∷ k2 ∷ v4 ∷ []) cs (lp, (ln, (l1, (l2, _)))) h =
    from_properties-IsNamed Version.new new-Sound p n k1 k2 v4 cs lp ln l1 l2 h
from_class_parts-IsNamed (p ∷ n ∷ k1 ∷ k2 ∷ v4 ∷ v5 ∷ []) cs (lp, (ln, (l1, (l2, _)))) h =
    from_properties-IsNamed Version.new new-Sound p n k1 k2 (join (v4 ∷ v5 ∷ []) dash) cs lp ln l1
      l2 h
from_class_parts-IsNamed _ cs l h = cc

-- Every cluster stack read from the name of a release has a provider and a name without dashes,
-- Kubernetes numbers that an `int` holds, and a version that the version parsers can return.
pub new_from_release-IsNamed :
    (s : Text) (cs : ClusterStack)
    → new_from_cluster_stack_release_properties s ≡ ok cs
    → IsNamed cs
unfolding new_from_cluster_stack_release_properties
new_from_release-IsNamed s cs h =
    from_release_parts-IsNamed (split s dash) cs (split_pieces dash s) h

-- So has every cluster stack read from the name of a cluster class.
pub new_from_class-IsNamed :
    (s : Text) (cs : ClusterStack) → new_from_cluster_class_properties s ≡ ok cs → IsNamed cs
unfolding new_from_cluster_class_properties
new_from_class-IsNamed s cs h = from_class_parts-IsNamed (split s dash) cs (split_pieces dash s) h

-- The name of a cluster class leads to its release: if the class reads as a cluster stack, then the name
-- that is printed with dashes is read as that cluster stack again, of a stable version without its patch.
pub release_of_class :
    (s : Text) (cs : ClusterStack)
    → new_from_cluster_class_properties s ≡ ok cs
    → new_from_cluster_stack_release_properties (string cs) ≡ ok (normal_stack cs)
release_of_class s cs h = new_from_release-string cs (new_from_class-IsNamed s cs h)

-- The other way round, from the release to the class.
pub class_of_release :
    (s : Text) (cs : ClusterStack)
    → new_from_cluster_stack_release_properties s ≡ ok cs
    → new_from_cluster_class_properties (string_with_dot cs) ≡ ok (normal_stack cs)
class_of_release s cs h = new_from_class-string_with_dot cs (new_from_release-IsNamed s cs h)
