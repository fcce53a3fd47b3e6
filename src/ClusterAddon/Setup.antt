-- ===== src/ClusterAddon/Setup.antt =====
-- internal/controller/clusteraddon_controller.go: what the reconcile loop prepares, and the calls it makes.
use cluster_stack_operator.Base.{
  Bool, true, false, List, [], ◌∷◌, Option, none, some, if◌then◌else◌, Result, ok, err,
}
use cluster_stack_operator.Strings.{Text, codes, trim_suffix}
use cluster_stack_operator.Api.{Answer, Cluster, ObjectReference, Resource}
use cluster_stack_operator.Api.Conditions
use cluster_stack_operator.Api.Conditions.{ConditionsApi, ConditionType, Reason, Severity}
use cluster_stack_operator.Kube.Template as Template
use cluster_stack_operator.Kube.Client.{KubeApi, apply}
use cluster_stack_operator.Release.{convert_from_cluster_class_to_cluster_stack_format}
use cluster_stack_operator.Release.Open.{Files, Release, present, absent, unknown}
use cluster_stack_operator.Release.Open as Open
use cluster_stack_operator.ClusterAddon.{Config}
use cluster_stack_operator.ClusterAddon.Execute.{StageEnv, State, StageError, join_path}
use cluster_stack_operator.ClusterAddon.Resources.{CleanApi, ObjectsError}
use cluster_stack_operator.ClusterAddon.Untar.{TarEnv, un_tar_content}

-- The access to the workload cluster: no kubeconfig, a nil config, an error of `NewForConfig`, an API
-- server that does not answer on readyz, or one that does.
pub data Access : Type 0 where
  no_kubeconfig nil_config no_clientset unready readied : Access

-- What the reconcile loop calls; `none` and `true` are errors where nothing else is said.
pub record AddonEnv (W : Type 0) : Type 0 where
  pub get_cluster : W → ObjectReference → Answer Cluster
  pub access : W → Cluster → Access
  -- The calls for the workload cluster, and the templates with the values of a cluster.
  pub stage : Cluster → StageEnv W
  pub api : Cluster → KubeApi W
  pub clean : Cluster → CleanApi W
  -- `dynamic.NewForConfig` and `NewDiscoveryClientForConfig`.
  pub new_clients : W → Bool
  pub files : W → Files
  pub release_directory : Text
  pub tar : TarEnv W
  -- `ParseConfig`, which reads the file and decodes its YAML.
  pub parse_config : W → Text → Option Config
  -- `AssetsClientFactory.NewClient`, `DownloadReleaseAssets` and `os.RemoveAll`.
  pub new_assets_client : W → Bool
  pub download : W → Text → Text → W × Bool
  pub remove_all : W → Text → W × Bool

-- The errors of the loop; `panicked` is a nil pointer.
pub data AddonError : Type 0 where
  cluster_failed clientset_failed config_path_failed config_failed : AddonError
  values_failed template_failed download_failed untar_failed clean_failed panicked : AddonError
  apply_failed : Template.Error → AddonError
  stage_failed : StageError → AddonError
  objects_failed : ObjectsError → AddonError

-- `templateAndApplyClusterAddonInput`, without the fields of the stages.
pub record Input : Type 0 where
  pub cluster : Cluster
  pub class : Text
  pub release : Release
  pub chart_path : Text
  pub values_path : Text
  pub config_path : Text

module _ {W : Type 0} (env : AddonEnv W) where
  -- `getClusterAddonConfigPath`: the empty path where there is no file.
  unfoldable pub get_cluster_addon_config_path : W → Text → Result AddonError Text
  get_cluster_addon_config_path w class =
      let path =
        join_path
          (join_path (join_path env.release_directory (codes "cluster-stacks"))
            (convert_from_cluster_class_to_cluster_stack_format class))
          (codes "clusteraddon.yaml") in
      elim ((env.files w).stat path) [
        | present ↦ ok path
        | absent ↦ ok []
        | unknown ↦ err config_path_failed
      ]

  abbrev pub names_of : List (Text × Bool) → List Text
  names_of [] = []
  names_of ((name, _) ∷ l) = name ∷ names_of l

  -- `getAddonStagesInput`: the directory of the charts and their names.
  unfoldable pub get_addon_stages_input : W → Text → W × Option (Text × List Text)
  get_addon_stages_input w chart =
      if env.new_clients w
      then (w, none)
      else let dst = trim_suffix chart (codes ".tgz") in
        let u = un_tar_content env.tar w chart dst in
        if u.1 then (u.0, none) else elim ((env.files u.0).read_dir dst) [
          | none ↦ (u.0, none)
          | some l ↦ (u.0, some (dst, names_of l))
        ]

module _ (cond : ConditionsApi) {W : Type 0} (env : AddonEnv W) where
  abbrev pub mark_true : ConditionType → State W cond.C → State W cond.C
  mark_true t st = record st {
    addon = record st.addon { conditions = cond.mark_true st.addon.conditions t };
  }

  abbrev pub mark_false : ConditionType → Reason → Severity → State W cond.C → State W cond.C
  mark_false t r s st = record st {
    addon = record st.addon { conditions = cond.mark_false st.addon.conditions t r s };
  }

  abbrev pub moved : W → State W cond.C → State W cond.C
  moved w st = record st { world = w }

  -- The old release, none for nil, and whether to requeue; or an error.
  abbrev pub Downloaded : Type 0
  Downloaded = State W cond.C × Result AddonError (Option Release × Bool)

  -- `downloadReleaseAssets` and the return that follows it; the lock is left out.
  unfoldable pub download_old : Text → Text → State W cond.C → Downloaded
  download_old tag path st =
      let d = env.download st.world tag path in
      if d.1
      then (moved (env.remove_all d.0 path).0 st, err download_failed)
      else (moved d.0 st, ok (none, true))

  abbrev pub checked_old : State W cond.C → Release → Option Open.Error → Downloaded
  checked_old st r (some _) = (
    mark_false Conditions.cluster_stack_release_assets_ready Conditions.issue_with_release_assets
        Conditions.error st,
    ok (none, false),
  )
  checked_old st r none =
      (mark_true Conditions.cluster_stack_release_assets_ready st, ok (some r, false))

  abbrev pub opened_old : State W cond.C → Text → Result Open.Error (Release × Bool) → Downloaded
  opened_old st tag (err _) = (
    mark_false Conditions.cluster_stack_release_assets_ready Conditions.issue_with_release_assets
        Conditions.error st,
    ok (none, true),
  )
  opened_old st tag (ok (r, true)) = download_old tag r.local_download_path (
      mark_false Conditions.cluster_stack_release_assets_ready
        Conditions.release_assets_not_downloaded_yet Conditions.info st)
  opened_old st tag (ok (r, false)) =
      checked_old st r (Open.check_helm_charts (env.files st.world) r)

  -- `downloadOldClusterStackRelease`.
  unfoldable pub download_old_cluster_stack_release : State W cond.C → Downloaded
  download_old_cluster_stack_release st =
      if env.new_assets_client st.world
      then (
        mark_false Conditions.assets_client_api_available Conditions.failed_create_assets_client
            Conditions.error st,
        ok (none, cond.is_false st.addon.conditions Conditions.assets_client_api_available),
      )
      else let tag = convert_from_cluster_class_to_cluster_stack_format st.addon.cluster_stack in
        opened_old (mark_true Conditions.assets_client_api_available st) tag
          (Open.new (env.files st.world) tag env.release_directory)

  abbrev pub after_apply :
      State W cond.C
      → W × Bool × Result Template.Error (List Resource)
      → State W cond.C × Result AddonError Bool
  after_apply st (w, _, err e) = (moved w st, err (apply_failed e))
  after_apply st (w, requeue, ok rs) =
      (record st { world = w; addon = record st.addon { resources = rs } }, ok requeue)

  -- `templateAndApplyClusterAddonHelmChart`.
  unfoldable pub template_and_apply_helm_chart :
      Input → State W cond.C → State W cond.C × Result AddonError Bool
  template_and_apply_helm_chart input st =
      elim ((env.stage input.cluster).build_values st.world input.values_path) [
        | none ↦ (st, err values_failed)
        | some values ↦
            elim ((env.stage input.cluster).helm_template st.world input.chart_path (some values)
              input.release.meta.kubernetes) [
                | none ↦ (st, err template_failed)
                | some t ↦
                    after_apply st (apply (env.api input.cluster) t st.addon.resources st.world)
              ]
      ]
