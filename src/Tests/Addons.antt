-- ===== src/Tests/Addons.antt =====
-- The theorems on addons at concrete values.
use cluster_stack_operator.Base.{true}
use cluster_stack_operator.Base.{
  Bool, ◌≡◌, ◌≢◌, ◌≤◌, refl, ◌∷◌, [], ◌++◌, ok, none, some, false, List, Option, Result,
}
use cluster_stack_operator.Strings.{Text, codes}
use cluster_stack_operator.Kube.Template.{Document}
use cluster_stack_operator.ClusterAddon.{
  ClusterAddon, Stage, StagePhase, phase_none, pending, done, phase_in, set_phase_in,
  get_stage_phase, apply_action, delete_action, set_stage_annotations,
}
use cluster_stack_operator.ClusterAddon.Execute.{
  StageEnv, StageInput, State, StageError, matched, execute_stage,
}
use cluster_stack_operator.ClusterAddon.Outcomes.{Holds}
use cluster_stack_operator.ClusterAddon.Phases.{phase_set}
use cluster_stack_operator.ClusterAddon.Rounds.{
  rank, execute_stage_returns, execute_stage_forward, execute_stage_done,
}
use cluster_stack_operator.ClusterAddon.Resources.{Pointer, ObjectsError, Objects, release_objects}
use cluster_stack_operator.ClusterAddon.Kept.{release_objects_kept}
use cluster_stack_operator.Tests.Conditions.{table, Table}
use cluster_stack_operator.Tests.Kube.{server, template}

abbrev pub env : StageEnv (List Text)
env = record {
  evaluate = λ w c. matched;
  exists = λ w p. false;
  build_values = λ w p. none;
  helm_template = λ w p v k. some template;
}

abbrev pub stage_input : StageInput
stage_input = record {
  chart_map = codes "cni" ∷ [];
  old_dir = [];
  new_dir = codes "/tmp";
  kubernetes_version = codes "v1.27.3";
  old_kubernetes_version = [];
}

abbrev pub cni : Stage
cni = record {
  name = codes "cni";
  action = apply_action;
  wait_for_pre_condition = record { objects = []; nil_objects = true; conditions = codes "ready" };
  wait_for_post_condition = record { objects = []; nil_objects = true; conditions = codes "ready" };
}

abbrev pub addon_at : StagePhase → ClusterAddon Table
addon_at p = record {
  name = codes "cluster-addon-c";
  namespace = codes "default";
  finalizers = [];
  deleting = false;
  annotations = none;
  cluster_stack = codes "openstack-ferrol-1-27-v1";
  version = codes "v1";
  hook = codes "AfterControlPlaneInitialized";
  cluster_ref = none;
  resources = [];
  stages = record { name = codes "cni"; action = apply_action; phase = p } ∷ [];
  ready = false;
  conditions = table.empty;
}

abbrev pub before : State (List Text) Table
before = record { world = []; addon = addon_at pending }

execute_stage_returns_example :
    (out : State (List Text) Table × Result StageError Bool) × (execute_stage table env server
        stage_input cni before
      ≡ some out)
execute_stage_returns_example = execute_stage_returns table env server stage_input cni before

abbrev result : Option (State (List Text) Table × Result StageError Bool) → State (List Text) Table
result (some r) = r.0
result none = before

abbrev after : State (List Text) Table
after = result (execute_stage table env server stage_input cni before)

executed : execute_stage table env server stage_input cni before ≡ some (after, ok false)
unfolding execute_stage cluster_stack_operator.Strings.text_eq
    cluster_stack_operator.ClusterAddon.Execute.checks
    cluster_stack_operator.ClusterAddon.Execute.case_of phase_in
    cluster_stack_operator.ClusterAddon.Execute.pre_condition set_phase_in
    cluster_stack_operator.ClusterAddon.Execute.apply_stage
    cluster_stack_operator.ClusterAddon.Execute.old_template
    cluster_stack_operator.ClusterAddon.Execute.new_template
    cluster_stack_operator.ClusterAddon.Execute.applied
    cluster_stack_operator.ClusterAddon.Execute.post_condition
    cluster_stack_operator.Kube.Client.apply_new_cluster_stack
    cluster_stack_operator.Kube.Template.parse_k8s_yaml cluster_stack_operator.Kube.Client.each
    cluster_stack_operator.Kube.Template.objects_to_be_deleted
    cluster_stack_operator.Kube.Client.apply_object
    cluster_stack_operator.Kube.Client.apply_new_answer
    cluster_stack_operator.Kube.Template.set_label
executed = refl

execute_stage_forward_example :
    rank (get_stage_phase before.addon (codes "cni") apply_action)
    ≤ rank (get_stage_phase after.addon (codes "cni") apply_action)
execute_stage_forward_example =
    execute_stage_forward table env server stage_input cni before after (ok false) executed

not_done : get_stage_phase before.addon (codes "cni") apply_action ≢ done
unfolding phase_in cluster_stack_operator.Strings.text_eq
not_done h = cc

is_done : get_stage_phase after.addon (codes "cni") apply_action ≡ done
unfolding execute_stage cluster_stack_operator.Strings.text_eq
    cluster_stack_operator.ClusterAddon.Execute.checks
    cluster_stack_operator.ClusterAddon.Execute.case_of phase_in
    cluster_stack_operator.ClusterAddon.Execute.pre_condition set_phase_in
    cluster_stack_operator.ClusterAddon.Execute.apply_stage
    cluster_stack_operator.ClusterAddon.Execute.old_template
    cluster_stack_operator.ClusterAddon.Execute.new_template
    cluster_stack_operator.ClusterAddon.Execute.applied
    cluster_stack_operator.ClusterAddon.Execute.post_condition
    cluster_stack_operator.Kube.Client.apply_new_cluster_stack
    cluster_stack_operator.Kube.Template.parse_k8s_yaml cluster_stack_operator.Kube.Client.each
    cluster_stack_operator.Kube.Template.objects_to_be_deleted
    cluster_stack_operator.Kube.Client.apply_object
    cluster_stack_operator.Kube.Client.apply_new_answer
    cluster_stack_operator.Kube.Template.set_label
is_done = refl

execute_stage_done_example :
    Holds env after.world cni.wait_for_post_condition
    × (◌≡◌ {A = Result StageError Bool} (ok false) (ok false))
execute_stage_done_example =
    execute_stage_done table env server stage_input cni before after (ok false) executed not_done
      is_done

found : phase_in before.addon.stages (codes "cni") apply_action ≢ phase_none
unfolding phase_in cluster_stack_operator.Strings.text_eq
found h = cc

phase_set_example :
    phase_in
      (set_phase_in before.addon.stages (codes "cni") apply_action done)
      (codes "cni")
      apply_action
    ≡ done
phase_set_example = phase_set (codes "cni") apply_action done before.addon.stages found

abbrev nothing : Objects
nothing = record { values = none; free = 0; resources = [] }

abbrev both_stages : List Stage
both_stages = cni ∷ record cni { action = delete_action } ∷ []

abbrev objects_of : Result ObjectsError Objects → Objects
objects_of (ok o) = o
objects_of _ = nothing

loop_ends :
    release_objects env [] [] [] both_stages nothing
    ≡ ok (objects_of (release_objects env [] [] [] both_stages nothing))
unfolding release_objects cluster_stack_operator.ClusterAddon.Resources.stage_values
    cluster_stack_operator.Kube.Template.get_resources_from_helm_template
    cluster_stack_operator.Kube.Template.parse_k8s_yaml
loop_ends = refl

release_objects_kept_example :
    (added : List Pointer) × ((objects_of
        (release_objects env [] [] [] both_stages nothing)).resources
      ≡ [] ++ added)
release_objects_kept_example =
    release_objects_kept env [] [] [] both_stages nothing
      (objects_of (release_objects env [] [] [] both_stages nothing)) tt loop_ends
