-- ===== src/Tests/Releases.antt =====
-- The theorems on releases at concrete values.
use cluster_stack_operator.Base.{◌≡◌, refl, [], ok, none, true, false}
use cluster_stack_operator.Strings.{Text, codes}
use cluster_stack_operator.Release.Open.{
  Files, Release, Error, Metadata, contents, present, absent, join_path, new,
}
use cluster_stack_operator.Release.Opened.{IsOpened, new-IsOpened}
use cluster_stack_operator.Tests.Stacks.{stable}

abbrev pub tag : Text
tag = codes "openstack-ferrol-1-27-v1"

abbrev pub on_disk : Files
on_disk = record {
  stat = λ p. present;
  metadata = λ p. contents (record {
    cluster_stack = codes "v1";
    kubernetes = codes "v1.27.3";
    cluster_addon = codes "v1-alpha.2";
    node_image = codes "v1";
  });
  read_dir = λ p. none;
}

abbrev pub opened : Release
opened = record {
  tag = tag;
  cluster_stack = stable 1;
  meta = record {
    cluster_stack = codes "v1";
    kubernetes = codes "v1.27.3";
    cluster_addon = codes "v1-alpha-2";
    node_image = codes "v1";
  };
  local_download_path = join_path (join_path (codes "/tmp") (codes "cluster-stacks")) tag;
}

is_opened : new on_disk tag (codes "/tmp") ≡ ok (opened, false)
unfolding new cluster_stack_operator.ClusterStack.new_from_cluster_stack_release_properties
    cluster_stack_operator.ClusterStack.from_release_parts cluster_stack_operator.Strings.split
    cluster_stack_operator.ClusterStack.from_properties cluster_stack_operator.Strings.text_eq
    cluster_stack_operator.KubernetesVersion.new cluster_stack_operator.Strconv.atoi
    cluster_stack_operator.Version.parse_version_string cluster_stack_operator.Version.match_string
    cluster_stack_operator.Strings.trim_prefix cluster_stack_operator.Version.validate
    cluster_stack_operator.Release.Open.new_from cluster_stack_operator.Release.Open.ensure_metadata
    cluster_stack_operator.Release.Open.normalise cluster_stack_operator.Release.Open.normalised
    cluster_stack_operator.Version.new cluster_stack_operator.Release.Open.validate
    cluster_stack_operator.Release.Open.validate_metadata cluster_stack_operator.Strconv.itoa
    cluster_stack_operator.Version.is_integer cluster_stack_operator.Version.string
is_opened = refl

new-IsOpened_example : IsOpened tag opened
new-IsOpened_example = new-IsOpened on_disk tag (codes "/tmp") opened is_opened

abbrev empty_disk : Files
empty_disk = record on_disk { stat = λ p. absent }

abbrev missing_release : Release
missing_release = record opened {
  meta = record { cluster_stack = []; kubernetes = []; cluster_addon = []; node_image = [] };
}

is_missing : new empty_disk tag (codes "/tmp") ≡ ok (missing_release, true)
unfolding new cluster_stack_operator.ClusterStack.new_from_cluster_stack_release_properties
    cluster_stack_operator.ClusterStack.from_release_parts cluster_stack_operator.Strings.split
    cluster_stack_operator.ClusterStack.from_properties cluster_stack_operator.Strings.text_eq
    cluster_stack_operator.KubernetesVersion.new cluster_stack_operator.Strconv.atoi
    cluster_stack_operator.Version.parse_version_string cluster_stack_operator.Version.match_string
    cluster_stack_operator.Strings.trim_prefix cluster_stack_operator.Version.validate
    cluster_stack_operator.Release.Open.new_from
is_missing = refl
