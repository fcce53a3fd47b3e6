-- ===== src/Tests/Saved.antt =====
-- The theorems on downloads, archives, conditions of stages and new addons at concrete values.
use mathlib.Core.Path.{subst}
use cluster_stack_operator.Base.{
  Bool, true, false, ◌==◌, ◌≡◌, refl, List, [], ◌∷◌, Option, none, some, if◌then◌else◌, All,
  some_inj, ◌≢◌, ◌⊎◌, Result, ok,
}
use cluster_stack_operator.Strings.{Text, codes, text_eq}
use cluster_stack_operator.Strings.Order.{text_eq_refl}
use cluster_stack_operator.Api.{Answer, found, not_found}
use cluster_stack_operator.Assets.{Asset, content, redirect, Remote, Disk, download_release_assets}
use cluster_stack_operator.Assets.Complete.{Contents, Serves, file_of, download_complete}
use cluster_stack_operator.ClusterAddon.{
  lookup, WaitForCondition, WaitObject, Stage, done, get_stage_phase,
}
use cluster_stack_operator.ClusterAddon.Observed.{with_cel, stage_done_observed}
use cluster_stack_operator.Tests.Conditions.{table, Table}
use cluster_stack_operator.Tests.Kube.{server}
use cluster_stack_operator.Tests.Addons.{env, stage_input, cni, before}
use cluster_stack_operator.ClusterAddon.Execute.{State, StageError, execute_stage, no_condition}
use cluster_stack_operator.ClusterAddon.Cel.{CelEnv, boolean, kind_of, compiled, collect}
use cluster_stack_operator.ClusterAddon.Create.{
  ClusterObject, CreateEnv, AddonStore, create_addon, created_once,
}
use cluster_stack_operator.ClusterAddon.Untar.{
  regular, Archive, end, entry, TarEnv, clean, un_tar_content,
}
use cluster_stack_operator.ClusterAddon.Paths.{IsBelow}
use cluster_stack_operator.ClusterAddon.Inside.{Log, Safe, un_tar_within}
use cluster_stack_operator.Extension.{addon_name}
use cluster_stack_operator.Tests.Hooks.{cluster}

-- A disk as the list of its files, the newest content in front.
abbrev Files : Type 0
Files = List (Text × Text)

abbrev disk : Disk Files
disk = record {
  mkdir_all = λ w p. (w, false);
  create = λ w p. ((p, []) ∷ w, false);
  copy = λ w p b. ((p, b) ∷ w, false);
  close_stream = λ w. false;
  close_file = λ w. false;
}

lookup_other : (w : Files) (p q b : Text) → text_eq p q ≡ false → lookup ((p, b) ∷ w) q ≡ lookup w q
lookup_other w p q b h = rw h refl

lookup_own : (w : Files) (p b : Text) → lookup ((p, b) ∷ w) p ≡ some b
lookup_own w p b = rw (text_eq_refl p) refl

abbrev contents : Contents disk
contents = record {
  at = lookup;
  made = λ w p q. refl;
  created = λ w p q h. lookup_other w p q [] h;
  put = λ w p b h. lookup_own w p b;
  kept = λ w p q b h. lookup_other w p q b h;
}

abbrev chart : Asset
chart = record { id = 1; name = codes "chart.tgz" }

abbrev metadata : Asset
metadata = record { id = 2; name = codes "metadata.yaml" }

abbrev remote : Remote
remote = record {
  list_releases = none;
  release_by_tag = λ t. some (200, chart ∷ metadata ∷ []);
  asset = λ i. if i == 1 then some (redirect (codes "url")) else some (content (codes "data"));
  fetch = λ u. some (200, codes "chart");
}

abbrev path : Text
path = codes "/tmp/v1"

other_files : text_eq (file_of path metadata) (file_of path chart) ≡ false
unfolding cluster_stack_operator.ClusterAddon.Untar.clean_parts
    cluster_stack_operator.ClusterAddon.Untar.clean
    cluster_stack_operator.ClusterAddon.Untar.join_clean cluster_stack_operator.Strings.text_eq
    cluster_stack_operator.Strings.split cluster_stack_operator.Strings.join
other_files = refl

no_error : (download_release_assets remote disk (codes "v1") path []).1 ≡ none
unfolding cluster_stack_operator.Assets.handle_redirect cluster_stack_operator.Assets.save_asset
    cluster_stack_operator.Assets.save_assets cluster_stack_operator.Assets.download_release_assets
no_error = refl

download_complete_example :
    All
      (λ a.
        (b : Text) × Serves remote a b
        × (lookup (download_release_assets remote disk (codes "v1") path []).0 (file_of path a)
            ≡ some b))
      (chart ∷ metadata ∷ [])
download_complete_example =
    download_complete remote disk contents (codes "v1") path [] 200 (chart ∷ metadata ∷ []) refl
      ((other_files, tt), (tt, tt)) no_error

abbrev tar : TarEnv (List Text)
tar = record {
  mkdir_all = λ w p. (w, false);
  open_archive = λ w p. some (entry regular (codes "values.yaml") [] end);
  write = λ w p b. (p ∷ w, false);
  close = λ w. false;
}

abbrev log : Log tar
log = record { written = λ w. w; made = λ w p. refl; wrote = λ w p b. refl }

values-Safe : Safe (entry regular (codes "values.yaml") [] end)
unfolding cluster_stack_operator.Strings.text_eq cluster_stack_operator.Strings.split
values-Safe = ((refl, tt), tt)

un_tar_within_example : All (IsBelow path) (un_tar_content tar [] (codes "/tmp/chart.tgz") path).0
un_tar_within_example =
    un_tar_within tar log path refl (codes "/tmp/chart.tgz") []
      (λ v a h. subst Safe (some_inj h) values-Safe) tt

abbrev cel : CelEnv (List Text) Text Text
cel = record {
  new_env = false;
  extend = λ vars k. false;
  compile = λ vars t. some t;
  program = λ t. some t;
  mapping = λ w k. false;
  get = λ w k ns n. some n;
  eval = λ p m. some (boolean true);
}

abbrev condition : WaitForCondition
condition = record {
  objects =
      record {
        key = codes "cilium";
        api_version = codes "apps/v1";
        name = codes "cilium";
        kind = codes "DaemonSet";
        namespace = codes "kube-system";
      }
      ∷ [];
  nil_objects = false;
  conditions = codes "cilium.status.ready";
}

abbrev stage : Stage
stage = record cni { wait_for_post_condition = condition }

abbrev executed : Option (State (List Text) Table × Result StageError Bool)
executed = execute_stage table (with_cel cel env) server stage_input stage before

abbrev result : Option (State (List Text) Table × Result StageError Bool) → State (List Text) Table
result none = before
result (some out) = out.0

is_executed : executed ≡ some (result executed, ok false)
unfolding cluster_stack_operator.ClusterAddon.Cel.declare
    cluster_stack_operator.ClusterAddon.Cel.collect
    cluster_stack_operator.ClusterAddon.Cel.run_program
    cluster_stack_operator.ClusterAddon.Cel.compiled
    cluster_stack_operator.ClusterAddon.Cel.evaluate_cel
    cluster_stack_operator.ClusterAddon.phase_in cluster_stack_operator.ClusterAddon.set_phase_in
    cluster_stack_operator.ClusterAddon.Execute.pre_condition
    cluster_stack_operator.ClusterAddon.Execute.old_template
    cluster_stack_operator.ClusterAddon.Execute.new_template
    cluster_stack_operator.ClusterAddon.Execute.applied
    cluster_stack_operator.ClusterAddon.Execute.apply_stage
    cluster_stack_operator.ClusterAddon.Execute.post_condition
    cluster_stack_operator.ClusterAddon.Execute.case_of
    cluster_stack_operator.ClusterAddon.Execute.checks
    cluster_stack_operator.ClusterAddon.Execute.execute_stage
    cluster_stack_operator.Kube.Client.each cluster_stack_operator.Kube.Client.apply_new_answer
    cluster_stack_operator.Kube.Client.apply_object
    cluster_stack_operator.Kube.Client.apply_new_cluster_stack
    cluster_stack_operator.Kube.Template.parse_k8s_yaml
    cluster_stack_operator.Kube.Template.set_label
    cluster_stack_operator.Kube.Template.objects_to_be_deleted
    cluster_stack_operator.Strings.text_eq
is_executed = refl

is_done : get_stage_phase (result executed).addon stage.name stage.action ≡ done
unfolding cluster_stack_operator.ClusterAddon.Cel.declare
    cluster_stack_operator.ClusterAddon.Cel.collect
    cluster_stack_operator.ClusterAddon.Cel.run_program
    cluster_stack_operator.ClusterAddon.Cel.compiled
    cluster_stack_operator.ClusterAddon.Cel.evaluate_cel
    cluster_stack_operator.ClusterAddon.phase_in cluster_stack_operator.ClusterAddon.set_phase_in
    cluster_stack_operator.ClusterAddon.Execute.pre_condition
    cluster_stack_operator.ClusterAddon.Execute.old_template
    cluster_stack_operator.ClusterAddon.Execute.new_template
    cluster_stack_operator.ClusterAddon.Execute.applied
    cluster_stack_operator.ClusterAddon.Execute.apply_stage
    cluster_stack_operator.ClusterAddon.Execute.post_condition
    cluster_stack_operator.ClusterAddon.Execute.case_of
    cluster_stack_operator.ClusterAddon.Execute.checks
    cluster_stack_operator.ClusterAddon.Execute.execute_stage
    cluster_stack_operator.Kube.Client.each cluster_stack_operator.Kube.Client.apply_new_answer
    cluster_stack_operator.Kube.Client.apply_object
    cluster_stack_operator.Kube.Client.apply_new_cluster_stack
    cluster_stack_operator.Kube.Template.parse_k8s_yaml
    cluster_stack_operator.Kube.Template.set_label
    cluster_stack_operator.Kube.Template.objects_to_be_deleted
    cluster_stack_operator.Strings.text_eq
is_done = refl

not_done : get_stage_phase before.addon stage.name stage.action ≢ done
unfolding cluster_stack_operator.ClusterAddon.phase_in cluster_stack_operator.Strings.text_eq
not_done h = cc h

stage_done_observed_example :
    (no_condition condition ≡ true)
    ⊎ (All
          (λ o.
            (v : Text) × (cel.get (result executed).world (kind_of o) o.namespace o.name ≡ some v))
          condition.objects
        × ((p : Text) × (m : List (Text × Text)) × (compiled cel condition.objects
                condition.conditions
              ≡ some p)
            × (collect cel (result executed).world condition.objects [] ≡ some m)
            × (cel.eval p m ≡ some (boolean true))))
stage_done_observed_example =
    stage_done_observed table cel env server stage_input stage before (result executed) (ok false)
      is_executed not_done is_done

abbrev answer : Bool → Answer Unit
answer true = found tt
answer false = not_found

abbrev has : List Text → Text → Bool
has [] n = false
has (m ∷ w) n = if text_eq m n then true else has w n

abbrev cluster_object : ClusterObject
cluster_object = record {
  cluster = cluster;
  api_version = codes "cluster.x-k8s.io/v1beta1";
  kind = codes "Cluster";
  uid = codes "1";
}

abbrev creator : CreateEnv (List Text)
creator = record {
  get_cluster = λ w ns n. found cluster_object;
  get_addon = λ w ns n. answer (has w n);
  create = λ w a. (a.name ∷ w, false);
}

has_own : (w : List Text) (n : Text) → answer (has (n ∷ w) n) ≡ found tt
has_own w n = rw (text_eq_refl n) refl

abbrev addon_store : AddonStore creator
addon_store = record { there = λ w a h. has_own w a.name; kept = λ w a ns n. refl }

created_without_error : (create_addon creator [] (codes "default") (codes "c")).1 ≡ false
unfolding create_addon
created_without_error = refl

created_once_example :
    (creator.get_addon
        (create_addon creator [] (codes "default") (codes "c")).0
        (codes "default")
        (addon_name (codes "c"))
      ≡ found tt)
    × (create_addon creator
          (create_addon creator [] (codes "default") (codes "c")).0
          (codes "default")
          (codes "c")
        ≡ ((create_addon creator [] (codes "default") (codes "c")).0, false))
created_once_example =
    created_once creator addon_store [] (codes "default") (codes "c") cluster_object refl
      created_without_error
