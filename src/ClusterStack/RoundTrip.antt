-- ===== src/ClusterStack/RoundTrip.antt =====
-- The two notations of a cluster stack are read back.
use cluster_stack_operator.Base.{◌≡◌, ◌∷◌, ok, arith, ◌∙◌}
use cluster_stack_operator.Strings.{Text, split, join, dash, dot}
use cluster_stack_operator.Strconv.{itoa}
use cluster_stack_operator.KubernetesVersion.RoundTrip.{new-itoa}
use cluster_stack_operator.Version
use cluster_stack_operator.Version.{Version}
use cluster_stack_operator.Version.Parse.{split-dash_bare, split-dash_full, split-dash_dotted}
use cluster_stack_operator.Version.Reading.{Spells}
use cluster_stack_operator.Version.RoundTrip.{
  normal, parse-string, new-string_with_dot, string-Spells, string_with_dot-Spells,
}
use cluster_stack_operator.ClusterStack.{
  ClusterStack, VersionParser, from_properties, from_release_parts, from_class_parts,
  new_from_cluster_stack_release_properties, new_from_cluster_class_properties, string,
  string_with_dot,
}
use cluster_stack_operator.ClusterStack.Names.{IsNamed, split_prefix}

-- A version in dash notation is one part or three, and both parsers put it together again.
from_release_parts_version :
    (p n k1 k2 s : Text) (v : Version)
    → Spells dash s v
    → from_release_parts (p ∷ n ∷ k1 ∷ k2 ∷ split s dash)
      ≡ from_properties Version.parse_version_string p n k1 k2 s
unfolding from_release_parts join
from_release_parts_version p n k1 k2 s v (Spells.bare d hd e r) = rw (e, split-dash_bare d hd)
from_release_parts_version p n k1 k2 s v (Spells.full d w q hd hw hq e r) =
    rw (e, split-dash_full d w q hd hw hq, join)

from_class_parts_version :
    (p n k1 k2 s : Text) (v : Version)
    → Spells dot s v
    → from_class_parts (p ∷ n ∷ k1 ∷ k2 ∷ split s dash) ≡ from_properties Version.new p n k1 k2 s
unfolding from_class_parts join
from_class_parts_version p n k1 k2 s v (Spells.bare d hd e r) = rw (e, split-dash_bare d hd)
from_class_parts_version p n k1 k2 s v (Spells.full d w q hd hw hq e r) =
    rw (e, split-dash_dotted d w q hd hw hq, join)

-- What a print keeps of a cluster stack.
abbrev pub normal_stack : ClusterStack → ClusterStack
normal_stack cs = record cs { version = normal cs.version }

module _ (cs : ClusterStack) (w : IsNamed cs) where
  from_properties_ok :
      (parse : VersionParser) (s : Text)
      → parse s ≡ ok (normal cs.version)
      → from_properties parse cs.provider cs.name
          (itoa cs.kubernetes_version.major)
          (itoa cs.kubernetes_version.minor)
          s
        ≡ ok (normal_stack cs)
  unfolding from_properties
  from_properties_ok parse s h =
      ground
        (arith, w.provider_given, w.name_given, new-itoa cs.kubernetes_version w.kubernetes_fits, h)

  -- For a cluster stack as the parsers return it, with a provider and a name that are not empty and hold
  -- no dash, Kubernetes numbers that are not negative and fit an `int`, and a version that its parser can
  -- return: the dash notation, which names its release, is read back by
  -- `NewFromClusterStackReleaseProperties`, of a stable version without its patch.
  pub new_from_release-string :
      new_from_cluster_stack_release_properties (string cs) ≡ ok (normal_stack cs)
  unfolding new_from_cluster_stack_release_properties string
  new_from_release-string = rw (split_prefix cs w (Version.string cs.version)) (
      from_release_parts_version cs.provider cs.name (itoa cs.kubernetes_version.major)
        (itoa cs.kubernetes_version.minor) (Version.string cs.version) (normal cs.version)
        (string-Spells cs.version w.version_parsed)
      ∙ from_properties_ok Version.parse_version_string (Version.string cs.version)
          (parse-string cs.version w.version_parsed))

  -- The dot notation, which names its cluster class, is read back by `NewFromClusterClassProperties`.
  pub new_from_class-string_with_dot :
      new_from_cluster_class_properties (string_with_dot cs) ≡ ok (normal_stack cs)
  unfolding new_from_cluster_class_properties string_with_dot
  new_from_class-string_with_dot = rw (split_prefix cs w (Version.string_with_dot cs.version)) (
      from_class_parts_version cs.provider cs.name (itoa cs.kubernetes_version.major)
        (itoa cs.kubernetes_version.minor) (Version.string_with_dot cs.version) (normal cs.version)
        (string_with_dot-Spells cs.version w.version_parsed)
      ∙ from_properties_ok Version.new (Version.string_with_dot cs.version)
          (new-string_with_dot cs.version w.version_parsed))
