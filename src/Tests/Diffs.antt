-- ===== src/Tests/Diffs.antt =====
-- The theorems on the ClusterStack controller's choices at concrete values.
use mathlib.Core.List.{Permᴰ}
use cluster_stack_operator.Base.{ap, ok_inj, sym, ◌∙◌}
use cluster_stack_operator.Base.{
  arith, ◌≡◌, refl, ◌∷◌, [], ◌++◌, ok, none, some, true, false, All, List, ◌||◌, ◌&&◌, not,
}
use cluster_stack_operator.Strings.{Text, codes}
use cluster_stack_operator.Sort.Insertion.{insertion_sorter}
use cluster_stack_operator.ClusterStack as Stack
use cluster_stack_operator.ClusterStack.{less}
use cluster_stack_operator.Api.{ClusterStackRelease, ClusterStackSpec, member}
use cluster_stack_operator.ClusterStackController.Diff.{named, is_name, make_diff, has_name}
use cluster_stack_operator.ClusterStackController.Wanted.{make_diff_creates, make_diff_deletes}
use cluster_stack_operator.ClusterStackController.Partition.{make_diff_partition}
use cluster_stack_operator.ClusterStackController.Select.{
  matches, get_latest_release, get_latest_ready_cluster_stack_release,
}
use cluster_stack_operator.ClusterStackController.Remote.{
  IsRelease, IsListed, get_latest_release_newest,
}
use cluster_stack_operator.ClusterStackController.LatestReady.{EachReady, latest_ready_newest}
use cluster_stack_operator.ClusterStackController.Protected.{Printed}
use cluster_stack_operator.ClusterStack.Order.{OfChannel}
use cluster_stack_operator.Tests.Stacks.{stable}

abbrev release : Text → ClusterStackRelease Unit
release n = named tt n

abbrev pub v1 : Text
v1 = codes "openstack-ferrol-1-27-v1"

abbrev pub v2 : Text
v2 = codes "openstack-ferrol-1-27-v2"

make_diff_creates_example :
    has_name v2 (make_diff tt (release v1 ∷ []) (some v2) none (v2 ∷ []) []).0 ≡ (
      is_name (some v2) v2
      || member (v2 ∷ []) v2
      || (has_name v2 (release v1 ∷ []) && (is_name none v2 || member [] v2)))
make_diff_creates_example = make_diff_creates tt (release v1 ∷ []) (some v2) none (v2 ∷ []) [] v2

make_diff_deletes_example :
    has_name v1 (make_diff tt (release v1 ∷ []) (some v2) none (v2 ∷ []) []).1 ≡ (
      has_name v1 (release v1 ∷ [])
      && not (is_name (some v2) v1)
      && not (is_name none v1)
      && not (member (v2 ∷ []) v1)
      && not (member [] v1))
make_diff_deletes_example = make_diff_deletes tt (release v1 ∷ []) (some v2) none (v2 ∷ []) [] v1

make_diff_partition_example :
    (kept : List (ClusterStackRelease Unit)) × (added : List (ClusterStackRelease Unit))
    × ((make_diff tt (release v1 ∷ []) (some v2) none [] []).0 ≡ kept ++ added)
    × Permᴰ (kept ++ (make_diff tt (release v1 ∷ []) (some v2) none [] []).1) (release v1 ∷ [])
    × All (λ r. r ≡ named tt r.name) added
make_diff_partition_example = make_diff_partition tt (release v1 ∷ []) (some v2) none [] []

abbrev pub spec : ClusterStackSpec
spec = record {
  provider = codes "openstack";
  name = codes "ferrol";
  kubernetes_version = codes "1.27";
  channel = codes "stable";
  versions = [];
  auto_subscribe = true;
  no_provider = true;
  provider_ref = none;
}

found : get_latest_release (insertion_sorter less) (v2 ∷ v1 ∷ []) spec ≡ some v2
unfolding get_latest_release Stack.latest cluster_stack_operator.Sort.Insertion.insertion_sort
    cluster_stack_operator.ClusterStackController.Select.matching
    cluster_stack_operator.ClusterStackController.Select.matches_spec
    Stack.new_from_cluster_stack_release_properties Stack.from_release_parts
    cluster_stack_operator.Strings.split Stack.from_properties
    cluster_stack_operator.Strings.text_eq cluster_stack_operator.KubernetesVersion.new
    cluster_stack_operator.Strconv.atoi cluster_stack_operator.Version.parse_version_string
    cluster_stack_operator.Version.match_string cluster_stack_operator.Strings.trim_prefix
    cluster_stack_operator.Version.validate matches less Stack.string
    cluster_stack_operator.KubernetesVersion.string
    cluster_stack_operator.KubernetesVersion.string_with_dot cluster_stack_operator.Strconv.itoa
    cluster_stack_operator.Strings.join cluster_stack_operator.Version.compare
    cluster_stack_operator.Version.string
found = refl

get_latest_release_newest_example :
    (m : Stack.ClusterStack) × (v2 ≡ Stack.string m)
    × IsListed spec (v2 ∷ v1 ∷ []) m
    × All (λ r. (cs : Stack.ClusterStack) → IsRelease spec r cs → less m cs ≡ false) (v2 ∷ v1 ∷ [])
get_latest_release_newest_example =
    get_latest_release_newest (insertion_sorter less) spec (v2 ∷ v1 ∷ []) v2 found

abbrev pub ready : Text → ClusterStackRelease Unit
ready n = record (named tt n) {
  status = record {
    resources = [];
    kubernetes_version = codes "v1.27.3";
    ready = true;
    conditions = tt;
  };
}

abbrev pub ready_releases : List (ClusterStackRelease Unit)
ready_releases = ready v2 ∷ ready v1 ∷ []

pub found_ready :
    get_latest_ready_cluster_stack_release (insertion_sorter less) ready_releases
    ≡ ok (some (v2, codes "v1.27.3"))
unfolding get_latest_ready_cluster_stack_release
    cluster_stack_operator.ClusterStackController.Select.collect_ready
    Stack.new_from_cluster_stack_release_properties Stack.from_release_parts
    cluster_stack_operator.Strings.split Stack.from_properties
    cluster_stack_operator.Strings.text_eq cluster_stack_operator.KubernetesVersion.new
    cluster_stack_operator.Strconv.atoi cluster_stack_operator.Version.parse_version_string
    cluster_stack_operator.Version.match_string cluster_stack_operator.Strings.trim_prefix
    cluster_stack_operator.Version.validate Stack.latest
    cluster_stack_operator.Sort.Insertion.insertion_sort less cluster_stack_operator.Version.compare
    Stack.string_with_dot cluster_stack_operator.ClusterStackController.Select.map_get
    cluster_stack_operator.KubernetesVersion.string cluster_stack_operator.Strconv.itoa
    cluster_stack_operator.Strings.join cluster_stack_operator.Version.string_with_dot
found_ready = refl

v2_read : Stack.new_from_cluster_stack_release_properties v2 ≡ ok (stable 2)
unfolding Stack.new_from_cluster_stack_release_properties Stack.from_release_parts
    cluster_stack_operator.Strings.split Stack.from_properties
    cluster_stack_operator.Strings.text_eq cluster_stack_operator.KubernetesVersion.new
    cluster_stack_operator.Strconv.atoi cluster_stack_operator.Version.parse_version_string
    cluster_stack_operator.Version.match_string cluster_stack_operator.Strings.trim_prefix
    cluster_stack_operator.Version.validate
v2_read = refl

v1_read : Stack.new_from_cluster_stack_release_properties v1 ≡ ok (stable 1)
unfolding Stack.new_from_cluster_stack_release_properties Stack.from_release_parts
    cluster_stack_operator.Strings.split Stack.from_properties
    cluster_stack_operator.Strings.text_eq cluster_stack_operator.KubernetesVersion.new
    cluster_stack_operator.Strconv.atoi cluster_stack_operator.Version.parse_version_string
    cluster_stack_operator.Version.match_string cluster_stack_operator.Strings.trim_prefix
    cluster_stack_operator.Version.validate
v1_read = refl

pub of_stable : EachReady (OfChannel (codes "stable")) ready_releases
of_stable =
    (λ cs h. ground (arith, v2_read, h.reads), (λ cs h. ground (arith, v1_read, h.reads), tt))

pub as-Printed : Printed ready_releases
unfolding Stack.string cluster_stack_operator.Version.string
    cluster_stack_operator.KubernetesVersion.string cluster_stack_operator.Strings.join
    cluster_stack_operator.Strconv.itoa cluster_stack_operator.Strings.text_eq
as-Printed = (
  λ cs h. ap Stack.string (ok_inj (sym v2_read ∙ h.reads)),
  (λ cs h. ap Stack.string (ok_inj (sym v1_read ∙ h.reads)), tt),
)

latest_ready_newest_example :
    (m : Stack.ClusterStack) × (v2 ≡ Stack.string_with_dot m)
    × (OfChannel (codes "stable") m)
    × EachReady (λ cs. less m cs ≡ false) ready_releases
latest_ready_newest_example =
    latest_ready_newest (insertion_sorter less) ready_releases (codes "stable")
      (OfChannel (codes "stable")) v2 (codes "v1.27.3") of_stable of_stable found_ready
