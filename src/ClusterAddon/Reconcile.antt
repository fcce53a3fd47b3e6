-- ===== src/ClusterAddon/Reconcile.antt =====
-- internal/controller/clusteraddon_controller.go: `Reconcile`, behind the call that gets the addon and up to
-- the patch.
use cluster_stack_operator.Base.{
  Bool, true, false, List, [], ◌∷◌, ◌++◌, Option, none, some, if◌then◌else◌, Result, ok, err,
}
use cluster_stack_operator.Strings.{Text, codes, text_eq, trim_suffix}
use cluster_stack_operator.Api.{Answer, found, not_found, failed, Cluster, member}
use cluster_stack_operator.Api.Conditions
use cluster_stack_operator.Api.Conditions.{ConditionsApi}
use cluster_stack_operator.ClusterStackRelease.{Requeue, no_requeue, after_seconds}
use cluster_stack_operator.Release.{convert_from_cluster_class_to_cluster_stack_format}
use cluster_stack_operator.Release.Open.{Release}
use cluster_stack_operator.Release.Open as Open
use cluster_stack_operator.ClusterAddon.{Config}
use cluster_stack_operator.ClusterAddon.Execute.{State, StageInput}
use cluster_stack_operator.ClusterAddon.Untar.{un_tar_content}
use cluster_stack_operator.ClusterAddon.Setup.{
  AddonEnv, AddonError, Input, Access, no_kubeconfig, nil_config, no_clientset, unready, readied,
  mark_true, mark_false, moved, cluster_failed, clientset_failed, config_failed, untar_failed,
  panicked, get_cluster_addon_config_path, get_addon_stages_input, Downloaded,
  download_old_cluster_stack_release,
}
use cluster_stack_operator.ClusterAddon.Simple.{reconcile_simple}
use cluster_stack_operator.ClusterAddon.Staged.{reconcile_stages}

abbrev pub finalizer : Text
finalizer = codes "clusteraddon.clusterstack.x-k8s.io"

abbrev pub add_finalizer : List Text → List Text
add_finalizer l = if member l finalizer then l else l ++ finalizer ∷ []

abbrev pub remove_finalizer : List Text → List Text
remove_finalizer [] = []
remove_finalizer (f ∷ l) =
    let rest = remove_finalizer l in if text_eq f finalizer then rest else f ∷ rest

module _ (cond : ConditionsApi) {W : Type 0} (env : AddonEnv W) where
  abbrev pub Reconciled : Type 0
  Reconciled = State W cond.C × Result AddonError Requeue

  abbrev pub waits : State W cond.C → Reconciled
  waits st = (st, ok (after_seconds 10))

  -- The stages with the old release: its chart is unpacked.
  unfoldable pub with_old : Input → Config → StageInput → Release → State W cond.C → Reconciled
  with_old input config stages_input r st =
      let chart = Open.cluster_addon_chart_path (env.files st.world) r in
      let old_dir = trim_suffix chart (codes ".tgz") in
      let u = un_tar_content env.tar st.world chart old_dir in
      if u.1
      then (moved cond env u.0 st, err untar_failed)
      else reconcile_stages cond env input config
          (record stages_input { old_dir = old_dir; old_kubernetes_version = r.meta.kubernetes })
          (some r) (moved cond env u.0 st)

  -- A nil release that is not asked for again is used all the same.
  abbrev pub after_download : Input → Config → StageInput → Downloaded cond env → Reconciled
  after_download input config stages_input (st, err e) = (st, err e)
  after_download input config stages_input (st, ok (old, true)) = waits st
  after_download input config stages_input (st, ok (none, false)) = (st, err panicked)
  after_download input config stages_input (st, ok (some r, false)) =
      with_old input config stages_input r st

  unfoldable pub with_config : Input → StageInput → State W cond.C → Reconciled
  with_config input stages_input st = elim (env.parse_config st.world input.config_path) [
    | none ↦ (st, err config_failed)
    | some config ↦
        if text_eq st.addon.cluster_stack []
        then reconcile_stages cond env input config stages_input none st
        else after_download input config stages_input
            (download_old_cluster_stack_release cond env st)
  ]

  abbrev pub with_charts : Input → State W cond.C → W × Option (Text × List Text) → Reconciled
  with_charts input st (w, none) = (
    mark_false cond env Conditions.cluster_addon_config_validated
        Conditions.parsing_cluster_addon_config_failed Conditions.error (moved cond env w st),
    ok no_requeue,
  )
  with_charts input st (w, some (new_dir, chart_map)) =
      with_config input
        (record {
          chart_map = chart_map;
          old_dir = [];
          new_dir = new_dir;
          kubernetes_version = input.release.meta.kubernetes;
          old_kubernetes_version = [];
        })
        (mark_true cond env Conditions.cluster_addon_config_validated (moved cond env w st))

  abbrev pub by_config : Input → State W cond.C → Reconciled
  by_config input st =
      if text_eq input.config_path []
      then reconcile_simple cond env input st
      else with_charts input st (get_addon_stages_input env st.world input.chart_path)

  -- A release that is on disk and has its charts.
  unfoldable pub with_release : Cluster → Text → Release → State W cond.C → Reconciled
  with_release cluster class r st = elim (get_cluster_addon_config_path env st.world class) [
    | err e ↦ (st, err e)
    | ok path ↦
        by_config
          (record {
            cluster = cluster;
            class = class;
            release = r;
            chart_path = Open.cluster_addon_chart_path (env.files st.world) r;
            values_path = Open.cluster_addon_values_path (env.files st.world) r;
            config_path = path;
          })
          st
  ]

  abbrev pub checked : Cluster → Text → Release → State W cond.C → Option Open.Error → Reconciled
  checked cluster class r st (some _) = (
    mark_false cond env Conditions.cluster_stack_release_assets_ready
        Conditions.issue_with_release_assets Conditions.error st,
    ok no_requeue,
  )
  checked cluster class r st none =
      with_release cluster class r
        (mark_true cond env Conditions.cluster_stack_release_assets_ready st)

  abbrev pub opened :
      Cluster → Text → State W cond.C → Result Open.Error (Release × Bool) → Reconciled
  opened cluster class st (err _) = waits (
      mark_false cond env Conditions.cluster_stack_release_assets_ready
        Conditions.issue_with_release_assets Conditions.error st)
  opened cluster class st (ok (r, true)) = waits (
      mark_false cond env Conditions.cluster_stack_release_assets_ready
        Conditions.release_assets_not_downloaded_yet Conditions.info st)
  opened cluster class st (ok (r, false)) =
      checked cluster class r st (Open.check_helm_charts (env.files st.world) r)

  -- A cluster that is ready; without a topology the code reads a nil pointer.
  unfoldable pub cluster_ready : Cluster → State W cond.C → Reconciled
  cluster_ready cluster st = elim cluster.topology [
    | none ↦ (mark_true cond env Conditions.cluster_ready st, err panicked)
    | some t ↦ opened cluster t.class (mark_true cond env Conditions.cluster_ready st) (
        Open.new (env.files st.world) (convert_from_cluster_class_to_cluster_stack_format t.class)
          env.release_directory)
  ]

  abbrev pub accessed : Cluster → State W cond.C → Access → Reconciled
  accessed cluster st no_kubeconfig = waits (
      mark_false cond env Conditions.cluster_ready Conditions.control_plane_not_ready
        Conditions.warning st)
  accessed cluster st no_clientset = (st, err clientset_failed)
  accessed cluster st unready = waits (
      mark_false cond env Conditions.cluster_ready Conditions.control_plane_not_ready
        Conditions.info st)
  accessed cluster st nil_config = cluster_ready cluster st
  accessed cluster st readied = cluster_ready cluster st

  abbrev pub with_cluster : State W cond.C → Answer Cluster → Reconciled
  with_cluster st (found cluster) = accessed cluster st (env.access st.world cluster)
  with_cluster st failed = (st, err cluster_failed)
  with_cluster st not_found =
      if st.addon.deleting
      then (
        record st { addon = record st.addon { finalizers = remove_finalizer st.addon.finalizers } },
        ok no_requeue,
      )
      else (st, err cluster_failed)

  -- `Reconcile` without the deferred function.
  unfoldable pub reconcile_body : State W cond.C → Reconciled
  reconcile_body st =
      let st' = record st {
        addon = record st.addon { finalizers = add_finalizer st.addon.finalizers };
      } in
      elim st'.addon.cluster_ref [
        | none ↦ (st', err panicked)
        | some ref ↦ with_cluster st' (env.get_cluster st'.world ref)
      ]

  -- The deferred function, up to the patch.
  unfoldable pub reconcile : State W cond.C → Reconciled
  reconcile st =
      let r = reconcile_body st in
      (
        record r.0 {
          addon = record r.0.addon { conditions = cond.set_summary r.0.addon.conditions };
        },
        r.1,
      )
