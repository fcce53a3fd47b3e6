-- ===== src/Tests/Stacks.antt =====
-- The theorems on the names and the order of cluster stacks at concrete values.
use cluster_stack_operator.Base.{ℕ, ◌≡◌, refl, ◌∷◌, [], ok, pos, some, List}
use cluster_stack_operator.Strings.{Text, codes}
use cluster_stack_operator.Version.{Version}
use cluster_stack_operator.KubernetesVersion.{KubernetesVersion}
use cluster_stack_operator.Sort.{IsWeakOrder, Sorter}
use cluster_stack_operator.Sort.Insertion.{insertion_sorter}
use cluster_stack_operator.ClusterStack.{
  ClusterStack, less, latest, string, string_with_dot, new_from_cluster_stack_release_properties,
  new_from_cluster_class_properties,
}
use cluster_stack_operator.ClusterStack.Names.{IsNamed}
use cluster_stack_operator.ClusterStack.RoundTrip.{normal_stack, new_from_release-string}
use cluster_stack_operator.ClusterStack.Parsed.{
  new_from_class-IsNamed, release_of_class, class_of_release,
}

abbrev pub stack_of : Version → ClusterStack
stack_of v = record {
  provider = codes "openstack";
  name = codes "ferrol";
  kubernetes_version = record { major = pos 1; minor = pos 27 };
  version = v;
}

abbrev pub stable : ℕ → ClusterStack
stable n = stack_of (record { major = pos n; channel = codes "stable"; patch = [] })

abbrev pub alpha : ℕ → ClusterStack
alpha n = stack_of (record { major = pos n; channel = codes "alpha"; patch = codes "3" })

release_read :
    new_from_cluster_stack_release_properties (codes "openstack-ferrol-1-27-v2-alpha-3")
    ≡ ok (alpha 2)
unfolding new_from_cluster_stack_release_properties
    cluster_stack_operator.ClusterStack.from_release_parts cluster_stack_operator.Strings.split
    cluster_stack_operator.ClusterStack.from_properties cluster_stack_operator.Strings.text_eq
    cluster_stack_operator.KubernetesVersion.new cluster_stack_operator.Strconv.atoi
    cluster_stack_operator.Version.parse_version_string cluster_stack_operator.Version.match_string
    cluster_stack_operator.Strings.join cluster_stack_operator.Strings.trim_prefix
    cluster_stack_operator.Version.validate cluster_stack_operator.Version.is_integer
release_read = refl

class_read :
    new_from_cluster_class_properties (codes "openstack-ferrol-1-27-v2-alpha.3") ≡ ok (alpha 2)
unfolding new_from_cluster_class_properties cluster_stack_operator.ClusterStack.from_class_parts
    cluster_stack_operator.Strings.split cluster_stack_operator.ClusterStack.from_properties
    cluster_stack_operator.Strings.text_eq cluster_stack_operator.KubernetesVersion.new
    cluster_stack_operator.Strconv.atoi cluster_stack_operator.Version.new
    cluster_stack_operator.Version.match_string cluster_stack_operator.Strings.join
    cluster_stack_operator.Strings.trim_prefix cluster_stack_operator.Version.validate
    cluster_stack_operator.Version.is_integer
class_read = refl

pub alpha-IsNamed : IsNamed (alpha 2)
alpha-IsNamed =
    new_from_class-IsNamed (codes "openstack-ferrol-1-27-v2-alpha.3") (alpha 2) class_read

new_from_release-string_example :
    new_from_cluster_stack_release_properties (string (alpha 2)) ≡ ok (normal_stack (alpha 2))
new_from_release-string_example = new_from_release-string (alpha 2) alpha-IsNamed

release_of_class_example :
    new_from_cluster_stack_release_properties (string (alpha 2)) ≡ ok (normal_stack (alpha 2))
release_of_class_example =
    release_of_class (codes "openstack-ferrol-1-27-v2-alpha.3") (alpha 2) class_read

class_of_release_example :
    new_from_cluster_class_properties (string_with_dot (alpha 2)) ≡ ok (normal_stack (alpha 2))
class_of_release_example =
    class_of_release (codes "openstack-ferrol-1-27-v2-alpha-3") (alpha 2) release_read

abbrev three : List ClusterStack
three = stable 2 ∷ stable 3 ∷ stable 1 ∷ []

last_of_three : latest ((insertion_sorter less).sort three) ≡ some (stable 3)
unfolding latest cluster_stack_operator.Sort.Insertion.insertion_sort less
    cluster_stack_operator.Version.compare cluster_stack_operator.Strings.text_eq
last_of_three = refl
