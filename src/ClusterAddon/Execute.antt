-- ===== src/ClusterAddon/Execute.antt =====
-- internal/controller/clusteraddon_controller.go: `executeStage`, one round of the state machine of a stage.
use cluster_stack_operator.Base.{◌&&◌}
use cluster_stack_operator.Base.{
  ℕ, zero, suc, Bool, true, false, List, [], ◌∷◌, ◌++◌, Option, none, some, if◌then◌else◌, Result,
  ok, err,
}
use cluster_stack_operator.Strings.{Text, codes, text_eq}
use cluster_stack_operator.Api.{Resource}
use cluster_stack_operator.Api.Conditions
use cluster_stack_operator.Api.Conditions.{
  ConditionsApi, ConditionType, Reason, Severity, evaluated_cel, helm_chart_found,
  helm_chart_templated, helm_chart_applied, helm_chart_deleted,
}
use cluster_stack_operator.Kube.Template.{Document, Error}
use cluster_stack_operator.Kube.Client.{KubeApi, apply_new_cluster_stack, delete_new_cluster_stack}
use cluster_stack_operator.ClusterAddon.{
  ClusterAddon, Stage, StagePhase, phase_none, pending, waiting_for_pre_condition,
  applying_or_deleting, waiting_for_post_condition, done, WaitForCondition, get_stage_phase,
  set_stage_phase, apply_action,
}

-- The answer of `getDynamicResourceAndEvaluateCEL`; `not_matched` is `ErrConditionNotMatch`.
pub data CelAnswer : Type 0 where
  matched not_matched cel_failed : CelAnswer

-- What the function calls: the evaluation of conditions, the file system, the templates of values and
-- of Helm. `none` is an error. Nothing is assumed of it.
pub record StageEnv (W : Type 0) : Type 0 where
  pub evaluate : W → WaitForCondition → CelAnswer
  pub exists : W → Text → Bool
  pub build_values : W → Text → Option Text
  pub helm_template : W → Text → Option Text → Text → Option (List Document)

-- `templateAndApplyClusterAddonInput`, the fields that are read; an empty old directory is none.
pub record StageInput : Type 0 where
  pub chart_map : List Text
  pub old_dir : Text
  pub new_dir : Text
  pub kubernetes_version : Text
  pub old_kubernetes_version : Text

-- The world of the workload cluster, and the addon.
pub record State (W C : Type 0) : Type 0 where
  pub world : W
  pub addon : ClusterAddon C

pub data StageError : Type 0 where
  cel_error apply_error delete_error : StageError

-- A case of the switch ends with a return or with `goto check`.
pub data Next : Type 0 where
  check : Next
  returns : Result StageError Bool → Next

-- `filepath.Join`, for paths that are clean.
abbrev pub join_path : Text → Text → Text
join_path a b = a ++ b'/' ∷ b

abbrev pub overwrite_yaml : Text
overwrite_yaml = codes "overwrite.yaml"

-- The comparison with the zero value.
abbrev pub no_condition : WaitForCondition → Bool
no_condition w = elim w.objects [ [] ↦ w.nil_objects && text_eq w.conditions [] | _ ∷ _ ↦ false ]

abbrev pub contains : List Text → Text → Bool
contains [] n = false
contains (k ∷ ks) n = if text_eq k n then true else contains ks n

module _ (cond : ConditionsApi) {W : Type 0} (env : StageEnv W) (api : KubeApi W)
    (input : StageInput) where
  abbrev pub Addon : Type 0
  Addon = ClusterAddon cond.C

  abbrev pub mark_false : ConditionType → Reason → Severity → State W cond.C → State W cond.C
  mark_false t r s st = record st {
    addon = record st.addon { conditions = cond.mark_false st.addon.conditions t r s };
  }

  abbrev pub delete_condition : ConditionType → State W cond.C → State W cond.C
  delete_condition t st = record st {
    addon = record st.addon { conditions = cond.delete st.addon.conditions t };
  }

  abbrev pub set_phase : Stage → StagePhase → State W cond.C → State W cond.C
  set_phase stage p st = record st { addon = set_stage_phase st.addon stage.name stage.action p }

  abbrev pub in_world : W → State W cond.C → State W cond.C
  in_world w st = record st { world = w }

  abbrev pub with_resources : List Resource → State W cond.C → State W cond.C
  with_resources rs st = record st { addon = record st.addon { resources = rs } }

  -- The case of the phases pending and waiting for the pre condition.
  unfoldable pub pre_condition : Stage → State W cond.C → State W cond.C × Next
  pre_condition stage st =
      if no_condition stage.wait_for_pre_condition
      then (set_phase stage applying_or_deleting st, check)
      else elim (env.evaluate st.world stage.wait_for_pre_condition) [
        | matched ↦
            (set_phase stage applying_or_deleting (delete_condition evaluated_cel st), check)
        | not_matched ↦ (
          set_phase stage waiting_for_pre_condition (
              mark_false evaluated_cel Conditions.failed_to_evaluate_pre_condition Conditions.info
                st),
          returns (ok true),
        )
        | cel_failed ↦ (st, returns (err cel_error))
      ]

  -- The old template of `templateNewClusterStackAddonHelmChart`, or the reason of a return.
  unfoldable pub old_template : W → Text → Result Reason (List Document)
  old_template w name =
      if text_eq input.old_dir []
      then ok []
      else let dir = join_path input.old_dir name in
        if env.exists w (join_path dir overwrite_yaml)
        then elim (env.build_values w (join_path dir overwrite_yaml)) [
          | none ↦ err Conditions.template_old_cluster_stack_overwrite_failed
          | some values ↦
              elim (env.helm_template w dir (some values) input.old_kubernetes_version) [
                | none ↦ err Conditions.template_old_cluster_stack_failed
                | some t ↦ ok t
              ]
        ]
        else ok []

  abbrev pub new_with_values : W → Text → Option Text → Result Reason (List Document)
  new_with_values w dir values = elim (env.helm_template w dir values input.kubernetes_version) [
    | none ↦ err Conditions.template_new_cluster_stack_failed
    | some t ↦ ok t
  ]

  -- The new template.
  unfoldable pub new_template : W → Text → Result Reason (List Document)
  new_template w name =
      let dir = join_path input.new_dir name in
      if env.exists w (join_path dir overwrite_yaml)
      then elim (env.build_values w (join_path dir overwrite_yaml)) [
        | none ↦ err Conditions.template_new_cluster_stack_overwrite_failed
        | some values ↦ new_with_values w dir (some values)
      ]
      else new_with_values w dir none

  abbrev pub templates : W → Text → Result Reason (List Document × List Document)
  templates w name = elim (old_template w name) [
    | err r ↦ err r
    | ok old ↦ elim (new_template w name) [ err r ↦ err r | ok new ↦ ok (old, new) ]
  ]

  -- What the case makes of the answer of `ApplyNewClusterStack`.
  unfoldable pub applied :
      Stage → W × Bool × Result Error (List Resource) → State W cond.C → State W cond.C × Next
  applied stage (w, _, err e) st = (
    mark_false helm_chart_applied Conditions.failed_to_apply_objects Conditions.info
        (in_world w st),
    returns (err apply_error),
  )
  applied stage (w, true, ok rs) st = (
    mark_false helm_chart_applied Conditions.failed_to_apply_objects Conditions.info
        (in_world w st),
    returns (ok true),
  )
  applied stage (w, false, ok rs) st = (
    set_phase stage waiting_for_post_condition
        (with_resources [] (delete_condition helm_chart_applied (in_world w st))),
    check,
  )

  -- The case of the phase applying or deleting, for the action apply.
  unfoldable pub apply_stage : Stage → State W cond.C → State W cond.C × Next
  apply_stage stage st = elim (templates st.world stage.name) [
    | err r ↦ (mark_false helm_chart_templated r Conditions.error st, returns (ok false))
    | ok (old, new) ↦
        applied stage (apply_new_cluster_stack api old new st.world)
          (delete_condition helm_chart_templated st)
  ]

  -- What the case makes of the answer of `DeleteNewClusterStack`.
  unfoldable pub deleted :
      Stage → W × Bool × Result Error (List Resource) → State W cond.C → State W cond.C × Next
  deleted stage (w, _, err e) st = (
    mark_false helm_chart_deleted Conditions.failed_to_delete_objects Conditions.info
        (in_world w st),
    returns (err delete_error),
  )
  deleted stage (w, true, ok rs) st = (in_world w st, returns (ok true))
  deleted stage (w, false, ok rs) st = (
    set_phase stage waiting_for_post_condition
        (delete_condition helm_chart_deleted (with_resources [] (in_world w st))),
    check,
  )

  -- The same phase, for any other action.
  unfoldable pub delete_stage : Stage → State W cond.C → State W cond.C × Next
  delete_stage stage st =
      elim (env.helm_template st.world (join_path input.new_dir stage.name) none
        input.kubernetes_version) [
          | none ↦ (
            mark_false helm_chart_templated Conditions.template_new_cluster_stack_failed
                Conditions.error st,
            returns (ok false),
          )
          | some t ↦ deleted stage (delete_new_cluster_stack api t st.world) st
        ]

  -- The case of the phase waiting for the post condition.
  unfoldable pub post_condition : Stage → State W cond.C → State W cond.C × Next
  post_condition stage st =
      if no_condition stage.wait_for_post_condition
      then (set_phase stage done st, returns (ok false))
      else elim (env.evaluate st.world stage.wait_for_post_condition) [
        | matched ↦ (set_phase stage done (delete_condition evaluated_cel st), returns (ok false))
        | not_matched ↦ (
          mark_false evaluated_cel Conditions.failed_to_evaluate_post_condition Conditions.info st,
          returns (ok true),
        )
        | cel_failed ↦ (st, returns (err cel_error))
      ]

  -- The switch.
  unfoldable pub case_of : StagePhase → Stage → State W cond.C → State W cond.C × Next
  case_of pending stage st = pre_condition stage st
  case_of waiting_for_pre_condition stage st = pre_condition stage st
  case_of applying_or_deleting stage st =
      if text_eq stage.action apply_action then apply_stage stage st else delete_stage stage st
  case_of waiting_for_post_condition stage st = post_condition stage st
  case_of phase_none stage st = (st, returns (ok false))
  case_of done stage st = (st, returns (ok false))

  -- The label `check`, reached at most `n` times.
  unfoldable pub checks :
      ℕ → Stage → State W cond.C → Option (State W cond.C × Result StageError Bool)
  checks zero stage st = none
  checks (suc n) stage st =
      let r = case_of (get_stage_phase st.addon stage.name stage.action) stage st in
      elim r.1 [ returns x ↦ some (r.0, x) | check ↦ checks n stage r.0 ]

  -- `executeStage`: three checks are enough.
  unfoldable pub execute_stage :
      Stage → State W cond.C → Option (State W cond.C × Result StageError Bool)
  execute_stage stage st =
      if contains input.chart_map stage.name
      then checks 3 stage st
      else some
          (mark_false helm_chart_found Conditions.helm_chart_missing Conditions.info st, ok false)
