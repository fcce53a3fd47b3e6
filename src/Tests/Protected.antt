-- ===== src/Tests/Protected.antt =====
-- The theorems on the latest ready release at concrete values.
use cluster_stack_operator.Base.{true}
use cluster_stack_operator.Base.{arith, ◌≡◌, refl, ◌∷◌, [], ok, none, some, false, List}
use cluster_stack_operator.Strings.{Text, codes}
use cluster_stack_operator.Sort.Insertion.{insertion_sorter}
use cluster_stack_operator.ClusterStack as Stack
use cluster_stack_operator.ClusterStack.{less}
use cluster_stack_operator.ClusterStack.Order.{OfChannel}
use cluster_stack_operator.Api.{ClusterStackRelease}
use cluster_stack_operator.ClusterStackController.Diff.{make_diff, has_name}
use cluster_stack_operator.ClusterStackController.Select.{get_latest_ready_cluster_stack_release}
use cluster_stack_operator.ClusterStackController.LatestReady.{EachReady}
use cluster_stack_operator.ClusterStackController.Protected.{
  names_ready, stable_latest_ready_kept, custom_latest_ready_unprotected,
}
use cluster_stack_operator.Tests.Stacks.{alpha}
use cluster_stack_operator.Tests.Diffs.{
  ready, ready_releases, v2, found_ready, of_stable, as-Printed,
}

stable_latest_ready_kept_example :
    (names_ready v2 ready_releases ≡ true)
    × (has_name v2 (make_diff tt ready_releases none (some v2) [] []).1 ≡ false)
unfolding cluster_stack_operator.Strings.text_eq
stable_latest_ready_kept_example =
    stable_latest_ready_kept (insertion_sorter less) tt ready_releases (codes "stable") v2
      (codes "v1.27.3") none [] [] refl of_stable as-Printed found_ready

abbrev v2_alpha : Text
v2_alpha = codes "openstack-ferrol-1-27-v2-alpha-3"

abbrev alpha_releases : List (ClusterStackRelease Unit)
alpha_releases = ready v2_alpha ∷ []

alpha_read : Stack.new_from_cluster_stack_release_properties v2_alpha ≡ ok (alpha 2)
unfolding Stack.new_from_cluster_stack_release_properties Stack.from_release_parts
    cluster_stack_operator.Strings.split Stack.from_properties
    cluster_stack_operator.Strings.text_eq cluster_stack_operator.KubernetesVersion.new
    cluster_stack_operator.Strconv.atoi cluster_stack_operator.Version.parse_version_string
    cluster_stack_operator.Version.match_string cluster_stack_operator.Strings.join
    cluster_stack_operator.Strings.trim_prefix cluster_stack_operator.Version.validate
    cluster_stack_operator.Version.is_integer
alpha_read = refl

found_alpha :
    get_latest_ready_cluster_stack_release (insertion_sorter less) alpha_releases
    ≡ ok (some (codes "openstack-ferrol-1-27-v2-alpha.3", codes "v1.27.3"))
unfolding get_latest_ready_cluster_stack_release
    cluster_stack_operator.ClusterStackController.Select.collect_ready
    Stack.new_from_cluster_stack_release_properties Stack.from_release_parts
    cluster_stack_operator.Strings.split Stack.from_properties
    cluster_stack_operator.Strings.text_eq cluster_stack_operator.KubernetesVersion.new
    cluster_stack_operator.Strconv.atoi cluster_stack_operator.Version.parse_version_string
    cluster_stack_operator.Version.match_string cluster_stack_operator.Strings.join
    cluster_stack_operator.Strings.trim_prefix cluster_stack_operator.Version.validate
    cluster_stack_operator.Version.is_integer Stack.latest
    cluster_stack_operator.Sort.Insertion.insertion_sort Stack.string_with_dot
    cluster_stack_operator.ClusterStackController.Select.map_get
    cluster_stack_operator.KubernetesVersion.string cluster_stack_operator.Strconv.itoa
    cluster_stack_operator.Version.string_with_dot
found_alpha = refl

of_alpha : EachReady (OfChannel (codes "alpha")) alpha_releases
of_alpha = (λ cs h. ground (arith, alpha_read, h.reads), tt)

custom_latest_ready_unprotected_example :
    has_name v2_alpha
      (make_diff tt alpha_releases none (some (codes "openstack-ferrol-1-27-v2-alpha.3")) [] []).1
    ≡ has_name v2_alpha (make_diff tt alpha_releases none none [] []).1
unfolding cluster_stack_operator.Strings.text_eq
custom_latest_ready_unprotected_example =
    custom_latest_ready_unprotected (insertion_sorter less) tt alpha_releases (codes "alpha")
      (codes "openstack-ferrol-1-27-v2-alpha.3") (codes "v1.27.3") none [] [] v2_alpha (alpha 2)
      refl of_alpha found_alpha alpha_read
