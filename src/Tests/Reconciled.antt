-- ===== src/Tests/Reconciled.antt =====
-- The theorem on ready releases at concrete values.
use cluster_stack_operator.Base.{◌≡◌, refl, ◌∷◌, [], some, true, false, List}
use cluster_stack_operator.Strings.{Text, codes}
use cluster_stack_operator.Api.{ClusterStackRelease}
use cluster_stack_operator.Release.Open.{Files}
use cluster_stack_operator.ClusterStackController.Diff.{named}
use cluster_stack_operator.ClusterStackRelease.{ReleaseEnv, reconcile}
use cluster_stack_operator.ClusterStackRelease.Ready.{IsApplied, reconcile_ready-IsApplied}
use cluster_stack_operator.Tests.Conditions.{table, Table}
use cluster_stack_operator.Tests.Kube.{server, template}
use cluster_stack_operator.Tests.Releases.{on_disk, tag}

abbrev with_charts : Files
with_charts = record on_disk {
  read_dir = λ p. some (
      (codes "openstack-ferrol-1-27-cluster-class-v1.tgz", false)
      ∷ (codes "openstack-ferrol-1-27-cluster-addon-v1-alpha.2.tgz", false)
      ∷ []);
}

abbrev env : ReleaseEnv (List Text)
env = record {
  files = λ w. with_charts;
  release_directory = codes "/tmp";
  new_assets_client = λ w. false;
  download = λ w t p. (w, false);
  remove_all = λ w p. (w, false);
  update_provider = λ w. (w, some true);
  list_clusters = λ w. some [];
  helm_template = λ w c n ns. some template;
}

abbrev csr : ClusterStackRelease Table
csr = named table.empty tag

becomes_ready : (reconcile table env server [] csr).csr.status.ready ≡ true
unfolding cluster_stack_operator.ClusterStackRelease.template_chart
    cluster_stack_operator.ClusterStackRelease.after_apply
    cluster_stack_operator.ClusterStackRelease.apply_release
    cluster_stack_operator.ClusterStackRelease.reconcile_normal
    cluster_stack_operator.ClusterStackRelease.reconcile_present
    cluster_stack_operator.ClusterStackRelease.reconcile_body
    cluster_stack_operator.ClusterStackRelease.finish
    cluster_stack_operator.ClusterStackRelease.reconcile
    cluster_stack_operator.Release.Open.validate_metadata
    cluster_stack_operator.Release.Open.validate cluster_stack_operator.Release.Open.normalised
    cluster_stack_operator.Release.Open.normalise
    cluster_stack_operator.Release.Open.ensure_metadata cluster_stack_operator.Release.Open.new_from
    cluster_stack_operator.Release.Open.new
    cluster_stack_operator.Release.Open.cluster_addon_chart_name
    cluster_stack_operator.Release.Open.cluster_class_chart_name
    cluster_stack_operator.Release.Open.contains cluster_stack_operator.Release.Open.is_tgz
    cluster_stack_operator.Release.Open.find_chart
    cluster_stack_operator.Release.Open.helm_chart_name_path
    cluster_stack_operator.Release.Open.check_helm_charts cluster_stack_operator.Kube.Client.each
    cluster_stack_operator.Kube.Client.apply_answer cluster_stack_operator.Kube.Client.apply_object
    cluster_stack_operator.Kube.Client.apply_step cluster_stack_operator.Kube.Client.apply
    cluster_stack_operator.Kube.Template.parse_k8s_yaml
    cluster_stack_operator.Kube.Template.set_label
    cluster_stack_operator.Kube.Template.find_resource
    cluster_stack_operator.Kube.Template.resources_to_be_deleted
    cluster_stack_operator.Version.match_string cluster_stack_operator.Version.is_integer
    cluster_stack_operator.Version.validate cluster_stack_operator.Version.parse_version_string
    cluster_stack_operator.Version.new cluster_stack_operator.Version.string
    cluster_stack_operator.Version.string_with_dot cluster_stack_operator.KubernetesVersion.new
    cluster_stack_operator.KubernetesVersion.string
    cluster_stack_operator.ClusterStack.from_properties
    cluster_stack_operator.ClusterStack.from_release_parts
    cluster_stack_operator.ClusterStack.new_from_cluster_stack_release_properties
    cluster_stack_operator.Strings.text_eq cluster_stack_operator.Strings.split
    cluster_stack_operator.Strings.trim_prefix cluster_stack_operator.Strconv.atoi
    cluster_stack_operator.Strconv.itoa
becomes_ready = refl

reconcile_ready-IsApplied_example : IsApplied table env server (reconcile table env server [] csr)
reconcile_ready-IsApplied_example =
    reconcile_ready-IsApplied table env server [] csr refl becomes_ready
