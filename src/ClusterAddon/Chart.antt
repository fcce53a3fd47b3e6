-- ===== src/ClusterAddon/Chart.antt =====
-- What a pass leaves of an addon that is one chart.
use cluster_stack_operator.Base.{
  Bool, true, false, ◌≡◌, refl, ◌∙◌, ap, List, [], some, arith, Bool-cases, Option-cases, inl, inr,
  Result, ok, err,
}
use cluster_stack_operator.Strings.{text_eq}
use cluster_stack_operator.Strings.Order.{text_eq→eq, text_eq_refl}
use cluster_stack_operator.Api.{Resource}
use cluster_stack_operator.Api.Conditions.{ConditionsApi, helm_chart_applied}
use cluster_stack_operator.Kube.Template as Template
use cluster_stack_operator.Kube.Client.{apply}
use cluster_stack_operator.ClusterStackRelease.{Requeue, no_requeue, after_seconds}
use cluster_stack_operator.ClusterAddon.{set_stage_annotations}
use cluster_stack_operator.ClusterAddon.Execute.{State}
use cluster_stack_operator.ClusterAddon.Setup.{
  AddonEnv, AddonError, Input, template_and_apply_helm_chart, after_apply,
}
use cluster_stack_operator.ClusterAddon.Simple.{after_upgrade, after_retry, reconcile_simple}

module _ (cond : ConditionsApi) {W : Type 0} (env : AddonEnv W) (input : Input) where
  -- What a result says of the addon. A pass that waits has marked the condition HelmChartApplied as
  -- false, and the next pass over the addon applies the chart again.
  pub data IsOutcome (st : State W cond.C) : Result AddonError Requeue → Type 0 where
    on_error : (e : AddonError) → IsOutcome st (err e)
    on_wait :
        st.addon.cluster_stack ≡ input.class
        → cond.is_false st.addon.conditions helm_chart_applied ≡ true
        → reconcile_simple cond env input st
          ≡ after_retry cond env input (template_and_apply_helm_chart cond env input st)
        → IsOutcome st (ok (after_seconds 20))
    on_end :
        st.addon.cluster_stack ≡ input.class
        → st.addon.ready ≡ true
        → st.addon.hook ≡ []
        → IsOutcome st (ok no_requeue)

  after_apply_class :
      (st : State W cond.C) (a : W × Bool × Result Template.Error (List Resource))
      → (after_apply cond env st a).0.addon.cluster_stack ≡ st.addon.cluster_stack
  after_apply_class st (w, b, err e) = refl
  after_apply_class st (w, b, ok rs) = refl

  same_class :
      (st : State W cond.C)
      → (template_and_apply_helm_chart cond env input st).0.addon.cluster_stack
        ≡ st.addon.cluster_stack
  unfolding template_and_apply_helm_chart
  same_class st =
      elim (Option-cases ((env.stage input.cluster).build_values st.world input.values_path)) [
        | inl e ↦ rw (e, template_and_apply_helm_chart) refl
        | inr (values, e) ↦
            elim (Option-cases (
              (env.stage input.cluster).helm_template st.world input.chart_path (some values)
                input.release.meta.kubernetes)) [
                  | inl f ↦ rw (e, f, template_and_apply_helm_chart) refl
                  | inr (t, f) ↦
                      rw (e, f, template_and_apply_helm_chart)
                        (after_apply_class st
                          (apply (env.api input.cluster) t st.addon.resources st.world))
                ]
      ]

  -- A failed condition of the class of the input leads to the branch that applies again.
  again :
      (st : State W cond.C)
      → st.addon.cluster_stack ≡ input.class
      → cond.is_false st.addon.conditions helm_chart_applied ≡ true
      → reconcile_simple cond env input st
        ≡ after_retry cond env input (template_and_apply_helm_chart cond env input st)
  unfolding reconcile_simple
  again st same bad =
      ground (arith, ap (λ x. text_eq x input.class) same ∙ text_eq_refl input.class, bad)

  waits :
      (st : State W cond.C)
      → st.addon.cluster_stack ≡ input.class
      → cond.is_false st.addon.conditions helm_chart_applied ≡ true
      → IsOutcome st (ok (after_seconds 20))
  waits st same bad = on_wait same bad (again st same bad)

  upgrade-IsOutcome :
      (r : State W cond.C × Result AddonError Bool)
      → IsOutcome (after_upgrade cond env input r).0 (after_upgrade cond env input r).1
  unfolding set_stage_annotations
  upgrade-IsOutcome (st, err e) = on_error e
  upgrade-IsOutcome (st, ok true) = waits _ refl (cond.marked_false _ _ _ _)
  upgrade-IsOutcome (st, ok false) = on_end refl refl refl

  retry-IsOutcome :
      (r : State W cond.C × Result AddonError Bool)
      → r.0.addon.cluster_stack ≡ input.class
      → IsOutcome (after_retry cond env input r).0 (after_retry cond env input r).1
  unfolding set_stage_annotations
  retry-IsOutcome (st, err e) h = on_error e
  retry-IsOutcome (st, ok true) h = waits _ h (cond.marked_false _ _ _ _)
  retry-IsOutcome (st, ok false) h = on_end h refl refl

  -- A pass over an addon of one chart returns an error, or waits, or ends: in the end the addon is ready
  -- and has no hook, and in both cases it has the class of its cluster. Where it waits, the next pass
  -- applies the chart again.
  pub reconcile_simple-IsOutcome :
      (st : State W cond.C)
      → IsOutcome (reconcile_simple cond env input st).0 (reconcile_simple cond env input st).1
  unfolding reconcile_simple set_stage_annotations
  reconcile_simple-IsOutcome st = elim (Bool-cases (text_eq st.addon.cluster_stack input.class)) [
    | inr new_class ↦
        elim (Bool-cases (text_eq st.addon.version input.release.meta.cluster_addon)) [
          | inl same ↦ rw (new_class, same, reconcile_simple) (on_end refl refl refl)
          | inr other ↦
              rw (new_class, other, reconcile_simple)
                (upgrade-IsOutcome (
                  template_and_apply_helm_chart cond env input
                    (record st { addon = record st.addon { ready = false } })))
        ]
    | inl old_class ↦
        let same = text_eq→eq st.addon.cluster_stack input.class old_class in
        elim (Bool-cases (cond.is_false st.addon.conditions helm_chart_applied)) [
          | inl bad ↦
              rw (old_class, bad, reconcile_simple)
                (retry-IsOutcome (template_and_apply_helm_chart cond env input st)
                  (same_class st ∙ same))
          | inr good ↦ rw (old_class, good, reconcile_simple) (on_end same refl refl)
        ]
  ]
