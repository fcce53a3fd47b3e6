-- ===== src/ClusterAddon/Staged.antt =====
-- internal/controller/clusteraddon_controller.go: an addon with a configuration of stages.
use cluster_stack_operator.Base.{
  Bool, true, false, not, ◌&&◌, ◌||◌, List, [], ◌∷◌, Option, none, some, if◌then◌else◌, Result, ok,
  err,
}
use cluster_stack_operator.Strings.{Text, codes, text_eq}
use cluster_stack_operator.Api.Conditions
use cluster_stack_operator.Api.Conditions.{ConditionsApi, helm_chart_applied}
use cluster_stack_operator.ClusterStackRelease.{no_requeue, after_seconds}
use cluster_stack_operator.Release.Open.{Release}
use cluster_stack_operator.ClusterAddon.{
  ClusterAddon, Stage, StageStatus, Config, pending, set_stage_annotations,
}
use cluster_stack_operator.ClusterAddon.Execute.{StageInput, State, StageError, execute_stage}
use cluster_stack_operator.ClusterAddon.Setup.{
  AddonEnv, AddonError, Input, mark_true, mark_false, stage_failed,
}
use cluster_stack_operator.ClusterAddon.CleanUp.{stages_of, clean_up}
use cluster_stack_operator.ClusterAddon.Simple.{Out, created}

abbrev pub before_cluster_upgrade : Text
before_cluster_upgrade = codes "BeforeClusterUpgrade"

abbrev pub after_control_plane_initialized : Text
after_control_plane_initialized = codes "AfterControlPlaneInitialized"

-- The status of the stages of a hook before it runs.
unfoldable pub pending_stages : List Stage → List StageStatus
pending_stages [] = []
pending_stages (s ∷ l) =
    record { name = s.name; action = s.action; phase = pending } ∷ pending_stages l

abbrev pub no_stages : List StageStatus → Bool
no_stages [] = true
no_stages (s ∷ l) = false

-- The end of both loops over the stages: a hook goes on, is asked for again, or has failed.
pub data StagesResult : Type 0 where
  all_executed asks_again : StagesResult
  fails : StageError → StagesResult

module _ (cond : ConditionsApi) {W : Type 0} (env : AddonEnv W) (input : Input)
    (config : Config) where
  module _ (stages_input : StageInput) where
    -- `executeStage`; `none` is a call that uses up its rounds.
    abbrev pub stage_out :
        State W cond.C
        → Option (State W cond.C × Result StageError Bool)
        → State W cond.C × Result StageError Bool
    stage_out st none = (st, ok true)
    stage_out st (some out) = out

    unfoldable pub run_stage : Stage → State W cond.C → State W cond.C × Result StageError Bool
    run_stage stage st =
        stage_out st (
          execute_stage cond (env.stage input.cluster) (env.api input.cluster) stages_input stage
            st)

    -- The loop over the stages of a hook.
    unfoldable pub run_stages : List Stage → State W cond.C → State W cond.C × StagesResult
    run_stages [] st = (st, all_executed)
    run_stages (s ∷ l) st =
        let r = run_stage s st in
        elim r.1 [
          | err e ↦ (r.0, fails e)
          | ok true ↦ (r.0, asks_again)
          | ok false ↦ run_stages l r.0
        ]

    abbrev pub annotated : Text → State W cond.C → State W cond.C
    annotated value st = record st { addon = set_stage_annotations st.addon value }

    -- The end of a hook: the condition, and the status and the hook that are removed.
    abbrev pub finished : State W cond.C → State W cond.C
    finished st =
        let st' = mark_true cond env helm_chart_applied st in
        record st' { addon = record st'.addon { resources = []; stages = []; hook = [] } }

    abbrev pub ready_with_class : State W cond.C → State W cond.C
    ready_with_class st = record st {
      addon = record st.addon { cluster_stack = input.class; ready = true };
    }

    -- The result of a loop that does not go on.
    abbrev pub stopped : State W cond.C → StagesResult → Out cond env input
    stopped st all_executed = (st, ok no_requeue)
    stopped st asks_again = (st, ok (after_seconds 20))
    stopped st (fails e) = (st, err (stage_failed e))

    abbrev pub after_clean_up :
        (State W cond.C → State W cond.C)
        → State W cond.C × Result AddonError Bool
        → Out cond env input
    after_clean_up next (st, err e) = (st, err e)
    after_clean_up next (st, ok true) = (st, ok (after_seconds 20))
    after_clean_up next (st, ok false) = (next st, ok no_requeue)

    -- The end of an upgrade without a hook.
    abbrev pub upgraded : State W cond.C → State W cond.C
    upgraded st = finished (ready_with_class (annotated (codes "upgraded") st))

    -- The end of the hook before an upgrade, and of the other one.
    abbrev pub created_with_class : State W cond.C → State W cond.C
    created_with_class st = ready_with_class (annotated created st)

    abbrev pub hook_upgraded : State W cond.C → State W cond.C
    hook_upgraded st = finished (created_with_class (annotated (codes "upgraded") st))

    abbrev pub hook_created : State W cond.C → State W cond.C
    hook_created st = finished (created_with_class st)

    abbrev pub after_upgrade : Option Release → State W cond.C × StagesResult → Out cond env input
    after_upgrade old (st, all_executed) =
        after_clean_up upgraded (clean_up cond env input config stages_input st old)
    after_upgrade old (st, asks_again) = stopped st asks_again
    after_upgrade old (st, fails e) = stopped st (fails e)

    -- An upgrade that keeps the Kubernetes version, for which no hook is called.
    unfoldable pub run_upgrade : Option Release → State W cond.C → Out cond env input
    run_upgrade old st = after_upgrade old (
        run_stages (stages_of config.addon_stages before_cluster_upgrade)
          (record st { addon = record st.addon { hook = before_cluster_upgrade } }))

    -- What follows the stages of a hook, by the hook.
    unfoldable pub finish_hook : Option Release → State W cond.C → Out cond env input
    finish_hook old st =
        if text_eq st.addon.hook before_cluster_upgrade
        then after_clean_up hook_upgraded (clean_up cond env input config stages_input st old)
        else if text_eq st.addon.hook after_control_plane_initialized
        then (hook_created st, ok no_requeue)
        else (finished st, ok no_requeue)

    abbrev pub after_hook : Option Release → State W cond.C × StagesResult → Out cond env input
    after_hook old (st, all_executed) = finish_hook old st
    after_hook old (st, asks_again) = stopped st asks_again
    after_hook old (st, fails e) = stopped st (fails e)

    unfoldable pub run_hook : Option Release → State W cond.C → Out cond env input
    run_hook old st =
        if text_eq st.addon.hook []
        then (
          mark_false cond env Conditions.hook_server_ready Conditions.hook_server_unresponsive
              Conditions.info st,
          ok no_requeue,
        )
        else after_hook old (
            run_stages (stages_of config.addon_stages st.addon.hook)
              (mark_true cond env Conditions.hook_server_ready st))

  -- The stages of a hook start anew where the addon was ready, or has none.
  unfoldable pub reset_stages : Text → ClusterAddon cond.C → ClusterAddon cond.C
  reset_stages hook addon =
      if addon.ready || no_stages addon.stages
      then record addon { stages = pending_stages (stages_of config.addon_stages hook) }
      else addon

  -- The start of a hook.
  unfoldable pub start_hook : ClusterAddon cond.C → ClusterAddon cond.C
  start_hook addon =
      if text_eq addon.hook []
      then addon
      else record (reset_stages addon.hook addon) { ready = false }

  abbrev pub same_kubernetes : Option Release → Bool
  same_kubernetes none = false
  same_kubernetes (some r) = text_eq r.meta.kubernetes input.release.meta.kubernetes

  -- The start of an upgrade for which no hook is called.
  unfoldable pub start_upgrade : Option Release → ClusterAddon cond.C → ClusterAddon cond.C
  start_upgrade old addon =
      if not (text_eq addon.cluster_stack input.class) && same_kubernetes old
      then (if text_eq addon.version input.release.meta.cluster_addon
          then record addon { cluster_stack = input.class; ready = true }
          else let addon' = reset_stages before_cluster_upgrade addon in
            record addon' {
              ready = false;
              conditions = cond.delete addon'.conditions helm_chart_applied;
            })
      else addon

  abbrev pub prepared : Option Release → ClusterAddon cond.C → ClusterAddon cond.C
  prepared old addon = record (start_upgrade old (start_hook addon)) {
    version = input.release.meta.cluster_addon;
  }

  -- From the status of the hook on.
  unfoldable pub reconcile_stages :
      StageInput → Option Release → State W cond.C → Out cond env input
  reconcile_stages stages_input old st =
      let addon = prepared old st.addon in
      if addon.ready
      then (record st { addon = addon }, ok no_requeue)
      else if same_kubernetes old
      then run_upgrade stages_input old (record st { addon = addon })
      else run_hook stages_input old (record st { addon = addon })
