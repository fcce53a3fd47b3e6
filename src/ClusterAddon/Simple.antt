-- ===== src/ClusterAddon/Simple.antt =====
-- internal/controller/clusteraddon_controller.go: an addon of a release without clusteraddon.yaml, which is
-- one chart.
use cluster_stack_operator.Base.{Bool, true, false, not, [], if◌then◌else◌, Result, ok, err}
use cluster_stack_operator.Strings.{Text, codes, text_eq}
use cluster_stack_operator.Api.Conditions
use cluster_stack_operator.Api.Conditions.{ConditionsApi, helm_chart_applied}
use cluster_stack_operator.ClusterStackRelease.{Requeue, no_requeue, after_seconds}
use cluster_stack_operator.ClusterAddon.{set_stage_annotations}
use cluster_stack_operator.ClusterAddon.Execute.{State}
use cluster_stack_operator.ClusterAddon.Setup.{
  AddonEnv, AddonError, Input, mark_true, mark_false, template_and_apply_helm_chart,
}

abbrev pub created : Text
created = codes "created"

module _ (cond : ConditionsApi) {W : Type 0} (env : AddonEnv W) (input : Input) where
  -- The state, and what the loop returns.
  abbrev pub Out : Type 0
  Out = State W cond.C × Result AddonError Requeue

  abbrev pub failed_apply : AddonError → State W cond.C → Out
  failed_apply e st = (
    mark_false cond env helm_chart_applied Conditions.failed_to_apply_objects Conditions.error st,
    err e,
  )

  abbrev pub requeued_apply : State W cond.C → Out
  requeued_apply st = (
    mark_false cond env helm_chart_applied Conditions.failed_to_apply_objects Conditions.info st,
    ok (after_seconds 20),
  )

  abbrev pub with_version : State W cond.C → State W cond.C
  with_version st = record st {
    addon = record st.addon { version = input.release.meta.cluster_addon };
  }

  abbrev pub with_class : State W cond.C → State W cond.C
  with_class st = record st { addon = record st.addon { cluster_stack = input.class } }

  abbrev pub settle : State W cond.C → State W cond.C
  settle st = record st {
    addon = record (set_stage_annotations st.addon created) { hook = []; ready = true };
  }

  -- The end of the branch for a new class.
  abbrev pub upgraded : State W cond.C → Out
  upgraded st = (with_class (settle st), ok no_requeue)

  abbrev pub after_upgrade : State W cond.C × Result AddonError Bool → Out
  after_upgrade (st, err e) = failed_apply e st
  after_upgrade (st, ok true) = requeued_apply (with_class (with_version st))
  after_upgrade (st, ok false) = upgraded (mark_true cond env helm_chart_applied (with_version st))

  abbrev pub after_retry : State W cond.C × Result AddonError Bool → Out
  after_retry (st, err e) = failed_apply e st
  after_retry (st, ok true) = requeued_apply st
  after_retry (st, ok false) = (settle (mark_true cond env helm_chart_applied st), ok no_requeue)

  -- The flow without a configuration of stages.
  unfoldable pub reconcile_simple : State W cond.C → Out
  reconcile_simple st =
      if not (text_eq st.addon.cluster_stack input.class)
      then (if not (text_eq st.addon.version input.release.meta.cluster_addon)
          then after_upgrade (
              template_and_apply_helm_chart cond env input
                (record st { addon = record st.addon { ready = false } }))
          else upgraded st)
      else if cond.is_false st.addon.conditions helm_chart_applied
      then after_retry (template_and_apply_helm_chart cond env input st)
      else (settle st, ok no_requeue)
