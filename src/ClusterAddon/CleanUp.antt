-- ===== src/ClusterAddon/CleanUp.antt =====
-- internal/controller/clusteraddon_controller.go: the objects of the old and of the new release of an addon
-- with stages, and their clean-up.
use cluster_stack_operator.Base.{
  Bool, true, false, List, [], ◌∷◌, Option, none, some, if◌then◌else◌, Result, ok, err,
}
use cluster_stack_operator.Strings.{Text, text_eq}
use cluster_stack_operator.Api.{Resource}
use cluster_stack_operator.Api.Conditions.{ConditionsApi}
use cluster_stack_operator.Release.Open.{Release, present, absent, unknown}
use cluster_stack_operator.Release.Open as Open
use cluster_stack_operator.Kube.Template.{Document, get_resources_from_helm_template}
use cluster_stack_operator.ClusterAddon.{Stage, Config}
use cluster_stack_operator.ClusterAddon.Execute.{StageInput, State}
use cluster_stack_operator.ClusterAddon.Resources.{
  Pointer, Objects, ObjectsError, release_objects, resources_failed, old_hook, clean_up_resources,
}
use cluster_stack_operator.ClusterAddon.Setup.{
  AddonEnv, AddonError, Input, moved, clean_failed, panicked, config_path_failed, values_failed,
  template_failed, objects_failed, get_cluster_addon_config_path,
}

-- `clusterAddonConfig.AddonStages[hook]`: no stages where the key is missing.
unfoldable pub stages_of : List (Text × List Stage) → Text → List Stage
stages_of [] hook = []
stages_of ((h, stages) ∷ l) hook = if text_eq h hook then stages else stages_of l hook

module _ (cond : ConditionsApi) {W : Type 0} (env : AddonEnv W) (input : Input) (config : Config)
    (stages_input : StageInput) where
  abbrev pub objects_start : Objects
  objects_start = record { values = none; free = 0; resources = [] }

  abbrev pub resources_of : List Pointer → List Resource
  resources_of [] = []
  resources_of (p ∷ l) = p.resource ∷ resources_of l

  abbrev pub listed : Result ObjectsError Objects → Result AddonError (List Resource)
  listed (err e) = err (objects_failed e)
  listed (ok o) = ok (resources_of o.resources)

  -- `getNewReleaseObjects`.
  unfoldable pub get_new_release_objects : State W cond.C → Result AddonError (List Resource)
  get_new_release_objects st = listed (
      release_objects (env.stage input.cluster) st.world stages_input.new_dir
        stages_input.kubernetes_version (stages_of config.addon_stages st.addon.hook) objects_start)

  abbrev pub one_chart : Option (List Document) → Result AddonError (List Resource)
  one_chart none = err template_failed
  one_chart (some t) = elim (get_resources_from_helm_template t) [
    | err e ↦ err (objects_failed (resources_failed e))
    | ok rs ↦ ok rs
  ]

  -- The objects of an old release that is one chart.
  unfoldable pub old_chart_objects : State W cond.C → Release → Result AddonError (List Resource)
  old_chart_objects st r =
      elim ((env.stage input.cluster).build_values st.world
        (Open.cluster_addon_values_path (env.files st.world) r)) [
          | none ↦ err values_failed
          | some values ↦ one_chart (
              (env.stage input.cluster).helm_template st.world
                (Open.cluster_addon_chart_path (env.files st.world) r) (some values)
                r.meta.kubernetes)
        ]

  -- The objects of an old release that has stages: the stages are those of the new configuration.
  unfoldable pub old_stage_objects : State W cond.C → Release → Result AddonError (List Resource)
  old_stage_objects st r = listed (
      release_objects (env.stage input.cluster) st.world stages_input.old_dir r.meta.kubernetes
        (stages_of config.addon_stages (old_hook st.addon)) objects_start)

  -- `os.Stat` of the path of the configuration; the empty path does not exist.
  abbrev pub has_stages : State W cond.C → Result AddonError Text → Result AddonError Bool
  has_stages st (err e) = err e
  has_stages st (ok []) = ok false
  has_stages st (ok (c ∷ path)) = elim ((env.files st.world).stat (c ∷ path)) [
    | present ↦ ok true
    | absent ↦ ok false
    | unknown ↦ err config_path_failed
  ]

  abbrev pub old_objects :
      State W cond.C → Option Release → Result AddonError Bool → Result AddonError (List Resource)
  old_objects st r (err e) = err e
  old_objects st none (ok b) = err panicked
  old_objects st (some r) (ok true) = old_stage_objects st r
  old_objects st (some r) (ok false) = old_chart_objects st r

  -- `getOldReleaseObjects`.
  unfoldable pub get_old_release_objects :
      State W cond.C → Option Release → Result AddonError (List Resource)
  get_old_release_objects st old =
      old_objects st old
        (has_stages st (get_cluster_addon_config_path env st.world st.addon.cluster_stack))

  abbrev pub cleaned : State W cond.C → W × Option Bool → State W cond.C × Result AddonError Bool
  cleaned st (w, none) = (moved cond env w st, err clean_failed)
  cleaned st (w, some requeue) = (moved cond env w st, ok requeue)

  -- The two lists of objects and `cleanUpResources`.
  unfoldable pub clean_up :
      State W cond.C → Option Release → State W cond.C × Result AddonError Bool
  clean_up st old = elim (get_old_release_objects st old) [
    | err e ↦ (st, err e)
    | ok old_list ↦ elim (get_new_release_objects st) [
      | err e ↦ (st, err e)
      | ok new_list ↦
          cleaned st (clean_up_resources (env.clean input.cluster) old_list new_list st.world)
    ]
  ]
