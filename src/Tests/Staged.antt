-- ===== src/Tests/Staged.antt =====
-- The theorems on the reconcile loop of an addon at concrete values.
use cluster_stack_operator.Base.{false, ◌≡◌, refl, ok, some, none, [], ◌∷◌, List}
use cluster_stack_operator.Strings.{Text, codes, text_eq}
use cluster_stack_operator.Api.{found}
use cluster_stack_operator.Kube.Client.{failed}
use cluster_stack_operator.ClusterStackRelease.{no_requeue}
use cluster_stack_operator.ClusterAddon.{ClusterAddon, Config, Stage}
use cluster_stack_operator.ClusterAddon as Addon
use cluster_stack_operator.ClusterAddon.Execute.{State, contains, execute_stage}
use cluster_stack_operator.ClusterAddon.Untar as Untar
use cluster_stack_operator.ClusterAddon.Setup.{AddonEnv, Input, readied}
use cluster_stack_operator.ClusterAddon.Simple.{reconcile_simple}
use cluster_stack_operator.ClusterAddon.CleanUp.{stages_of}
use cluster_stack_operator.ClusterAddon.Staged.{run_stages, all_executed, reconcile_stages}
use cluster_stack_operator.ClusterAddon.Completed.{Charts}
use cluster_stack_operator.ClusterAddon.Hook.{AllDone, run_stages_done}
use cluster_stack_operator.ClusterAddon.Fresh.{IsFinished, started, hook_completed}
use cluster_stack_operator.ClusterAddon.Chart.{IsOutcome, reconcile_simple-IsOutcome}
use cluster_stack_operator.Tests.Conditions.{table, Table}
use cluster_stack_operator.Tests.Kube.{server, template}
use cluster_stack_operator.Tests.Addons.{env, stage_input, cni, addon_at}
use cluster_stack_operator.Tests.Releases.{on_disk, opened}
use cluster_stack_operator.Tests.Hooks.{cluster}

abbrev addon_env : AddonEnv (List Text)
addon_env = record {
  get_cluster = λ w r. found cluster;
  access = λ w c. readied;
  stage = λ c. env;
  api = λ c. server;
  clean = λ c. record {
    get_interface = λ w n k. false;
    delete = λ w n k m. (w, failed (codes "error"));
  };
  new_clients = λ w. false;
  files = λ w. on_disk;
  release_directory = codes "/tmp";
  tar = record {
    mkdir_all = λ w p. (w, false);
    open_archive = λ w p. some Untar.end;
    write = λ w p c. (w, false);
    close = λ w. false;
  };
  parse_config = λ w p. none;
  new_assets_client = λ w. false;
  download = λ w t p. (w, false);
  remove_all = λ w p. (w, false);
}

abbrev input : Input
input = record {
  cluster = cluster;
  class = codes "openstack-ferrol-1-27-v1";
  release = opened;
  chart_path = codes "/tmp/chart.tgz";
  values_path = codes "/tmp/values.yaml";
  config_path = codes "/tmp/clusteraddon.yaml";
}

abbrev config : Config
config = record { addon_stages = (codes "AfterControlPlaneInitialized", cni ∷ []) ∷ [] }

charts : Charts table env server stage_input cni
unfolding cluster_stack_operator.ClusterAddon.Execute.old_template
    cluster_stack_operator.ClusterAddon.Execute.new_template cluster_stack_operator.Strings.text_eq
charts = record {
  applied_charts = λ k w. (([], template), refl);
  deleted_charts = λ k w. (template, refl);
}

abbrev at_pending : State (List Text) Table
at_pending = record { world = []; addon = addon_at Addon.pending }

abbrev ran : State (List Text) Table
ran = (run_stages table addon_env input config stage_input (cni ∷ []) at_pending).0

is_run :
    run_stages table addon_env input config stage_input (cni ∷ []) at_pending ≡ (ran, all_executed)
unfolding cluster_stack_operator.ClusterAddon.phase_in
    cluster_stack_operator.ClusterAddon.set_phase_in
    cluster_stack_operator.ClusterAddon.Staged.run_stage
    cluster_stack_operator.ClusterAddon.Staged.run_stages
    cluster_stack_operator.ClusterAddon.Execute.pre_condition
    cluster_stack_operator.ClusterAddon.Execute.old_template
    cluster_stack_operator.ClusterAddon.Execute.new_template
    cluster_stack_operator.ClusterAddon.Execute.applied
    cluster_stack_operator.ClusterAddon.Execute.apply_stage
    cluster_stack_operator.ClusterAddon.Execute.post_condition
    cluster_stack_operator.ClusterAddon.Execute.case_of
    cluster_stack_operator.ClusterAddon.Execute.checks
    cluster_stack_operator.ClusterAddon.Execute.execute_stage
    cluster_stack_operator.Kube.Client.each cluster_stack_operator.Kube.Client.apply_new_answer
    cluster_stack_operator.Kube.Client.apply_object
    cluster_stack_operator.Kube.Client.apply_new_cluster_stack
    cluster_stack_operator.Kube.Template.parse_k8s_yaml
    cluster_stack_operator.Kube.Template.set_label
    cluster_stack_operator.Kube.Template.objects_to_be_deleted
    cluster_stack_operator.Strings.text_eq
is_run = refl

run_stages_done_example : AllDone table addon_env input config stage_input ran (cni ∷ [])
unfolding cluster_stack_operator.ClusterAddon.phase_in cluster_stack_operator.Strings.text_eq
run_stages_done_example =
    run_stages_done table addon_env input config stage_input (cni ∷ []) at_pending ran (charts, tt)
      (refl, tt) ((λ h. cc h), tt) is_run

-- The addon of a new cluster, for which the hook was set.
abbrev new_addon : State (List Text) Table
new_addon = record {
  world = [];
  addon = record (addon_at Addon.pending) { stages = []; cluster_stack = []; version = [] };
}

abbrev completed : State (List Text) Table
completed = (reconcile_stages table addon_env input config stage_input none new_addon).0

is_completed :
    reconcile_stages table addon_env input config stage_input none new_addon
    ≡ (completed, ok no_requeue)
unfolding cluster_stack_operator.ClusterAddon.phase_in
    cluster_stack_operator.ClusterAddon.set_phase_in
    cluster_stack_operator.ClusterAddon.CleanUp.stages_of
    cluster_stack_operator.ClusterAddon.Staged.pending_stages
    cluster_stack_operator.ClusterAddon.Staged.run_stage
    cluster_stack_operator.ClusterAddon.Staged.run_stages
    cluster_stack_operator.ClusterAddon.Staged.finish_hook
    cluster_stack_operator.ClusterAddon.Staged.run_hook
    cluster_stack_operator.ClusterAddon.Staged.reset_stages
    cluster_stack_operator.ClusterAddon.Staged.start_hook
    cluster_stack_operator.ClusterAddon.Staged.start_upgrade
    cluster_stack_operator.ClusterAddon.Staged.reconcile_stages
    cluster_stack_operator.ClusterAddon.Execute.pre_condition
    cluster_stack_operator.ClusterAddon.Execute.old_template
    cluster_stack_operator.ClusterAddon.Execute.new_template
    cluster_stack_operator.ClusterAddon.Execute.applied
    cluster_stack_operator.ClusterAddon.Execute.apply_stage
    cluster_stack_operator.ClusterAddon.Execute.post_condition
    cluster_stack_operator.ClusterAddon.Execute.case_of
    cluster_stack_operator.ClusterAddon.Execute.checks
    cluster_stack_operator.ClusterAddon.Execute.execute_stage
    cluster_stack_operator.Kube.Client.each cluster_stack_operator.Kube.Client.apply_new_answer
    cluster_stack_operator.Kube.Client.apply_object
    cluster_stack_operator.Kube.Client.apply_new_cluster_stack
    cluster_stack_operator.Kube.Template.parse_k8s_yaml
    cluster_stack_operator.Kube.Template.set_label
    cluster_stack_operator.Kube.Template.objects_to_be_deleted
    cluster_stack_operator.Strings.text_eq
is_completed = refl

hook_completed_example :
    AllDone table addon_env input config stage_input
      (run_stages table addon_env input config stage_input
        (cni ∷ [])
        (started table addon_env input config stage_input none new_addon completed)).0
      (cni ∷ [])
    × IsFinished table addon_env input config stage_input completed
unfolding cluster_stack_operator.ClusterAddon.CleanUp.stages_of
    cluster_stack_operator.Strings.text_eq
hook_completed_example =
    hook_completed table addon_env input config stage_input none new_addon completed refl refl refl
      (charts, tt) (refl, tt) is_completed

reconcile_simple-IsOutcome_example :
    IsOutcome table addon_env input
      (reconcile_simple table addon_env input new_addon).0
      (reconcile_simple table addon_env input new_addon).1
reconcile_simple-IsOutcome_example = reconcile_simple-IsOutcome table addon_env input new_addon
