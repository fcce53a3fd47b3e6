-- ===== src/ClusterAddon/Fresh.antt =====
-- A fresh hook from its start to its end.
use mathlib.Core.Path.{subst}
use cluster_stack_operator.Base.{
  Bool, true, false, ◌||◌, ◌≡◌, ◌≢◌, refl, sym, ◌∙◌, ap, List, [], ◌∷◌, Option, arith, Bool-cases,
  inl, inr, Result, ok, err, All,
}
use cluster_stack_operator.Strings.{codes, text_eq}
use cluster_stack_operator.Strings.Order.{text_eq_refl}
use cluster_stack_operator.Api.Conditions
use cluster_stack_operator.Api.Conditions.{ConditionsApi, helm_chart_applied}
use cluster_stack_operator.ClusterStackRelease.{no_requeue}
use cluster_stack_operator.Release.Open.{Release}
use cluster_stack_operator.ClusterAddon.{Stage, phase_none, phase_in, Config}
use cluster_stack_operator.ClusterAddon.Execute.{StageInput, State, contains}
use cluster_stack_operator.ClusterAddon.Completed.{Charts}
use cluster_stack_operator.ClusterAddon.Setup.{AddonEnv, AddonError, Input, mark_true}
use cluster_stack_operator.ClusterAddon.CleanUp.{stages_of, clean_up}
use cluster_stack_operator.ClusterAddon.Staged.{
  pending_stages, no_stages, run_stages, StagesResult, all_executed, asks_again, fails,
  after_clean_up, finished, finish_hook, before_cluster_upgrade, after_control_plane_initialized,
  after_hook, run_hook, reset_stages, start_hook, start_upgrade, created_with_class, annotated,
  same_kubernetes, prepared, reconcile_stages, hook_upgraded,
}
use cluster_stack_operator.ClusterAddon.Hook.{AllDone, run_stages_done}

-- The stages that a hook starts with are all known.
pending_known :
    (l : List Stage) → All (λ s. phase_in (pending_stages l) s.name s.action ≢ phase_none) l
unfolding pending_stages phase_in
pending_known [] = tt
pending_known (s ∷ l) = (
  λ h. ground (arith, h, text_eq_refl s.name, text_eq_refl s.action),
  behind s l l (pending_known l),
)
  where
    behind :
        (s : Stage) (l k : List Stage)
        → All (λ x. phase_in (pending_stages l) x.name x.action ≢ phase_none) k
        → All (λ x. phase_in (pending_stages (s ∷ l)) x.name x.action ≢ phase_none) k
    behind s l [] h = tt
    behind s l (x ∷ k) (a, h) = ((λ e. ground (arith, a, e)), behind s l k h)

module _ (cond : ConditionsApi) {W : Type 0} (env : AddonEnv W) (input : Input) (config : Config)
    (si : StageInput) where
  -- What the end of a hook leaves.
  pub record IsFinished (st : State W cond.C) : Type 0 where
    pub applied : cond.is_true st.addon.conditions helm_chart_applied ≡ true
    pub no_stages_left : st.addon.stages ≡ []
    pub no_resources_left : st.addon.resources ≡ []
    pub no_hook_left : st.addon.hook ≡ []

  finished-IsFinished : (st : State W cond.C) → IsFinished (finished cond env input config si st)
  finished-IsFinished st = record {
    applied = cond.true_same st.addon.conditions helm_chart_applied;
    no_stages_left = refl;
    no_resources_left = refl;
    no_hook_left = refl;
  }

  after_clean_up-IsFinished :
      (r : State W cond.C × Result AddonError Bool) (st' : State W cond.C)
      → after_clean_up cond env input config si (hook_upgraded cond env input config si) r
        ≡ (st', ok no_requeue)
      → IsFinished st'
  after_clean_up-IsFinished (st, err e) st' h = absurd (ground (arith, h))
  after_clean_up-IsFinished (st, ok true) st' h = absurd (ground (arith, h))
  after_clean_up-IsFinished (st, ok false) st' h = subst IsFinished (ap (λ z. z.0) h) (
      finished-IsFinished (
        created_with_class cond env input config si
          (annotated cond env input config si (codes "upgraded") st)))

  finish_hook-IsFinished :
      (old : Option Release) (st st' : State W cond.C)
      → finish_hook cond env input config si old st ≡ (st', ok no_requeue)
      → IsFinished st'
  unfolding finish_hook
  finish_hook-IsFinished old st st' h =
      elim (Bool-cases (text_eq st.addon.hook before_cluster_upgrade)) [
        | inl e ↦
            after_clean_up-IsFinished (clean_up cond env input config si st old) st'
              (rw (e, finish_hook) at h)
        | inr e ↦ elim (Bool-cases (text_eq st.addon.hook after_control_plane_initialized)) [
          | inl f ↦
              subst IsFinished (ap (λ z. z.0) (rw (e, f, finish_hook) at h))
                (finished-IsFinished (created_with_class cond env input config si st))
          | inr f ↦
              subst IsFinished (ap (λ z. z.0) (rw (e, f, finish_hook) at h))
                (finished-IsFinished st)
        ]
      ]

  after_hook-IsFinished :
      (old : Option Release) (r : State W cond.C × StagesResult) (st' : State W cond.C)
      → after_hook cond env input config si old r ≡ (st', ok no_requeue)
      → (r.1 ≡ all_executed) × IsFinished st'
  after_hook-IsFinished old (st, all_executed) st' h = (refl, finish_hook-IsFinished old st st' h)
  after_hook-IsFinished old (st, asks_again) st' h = absurd (ground (arith, h))
  after_hook-IsFinished old (st, fails e) st' h = absurd (ground (arith, h))

  module _ (old : Option Release) (st st' : State W cond.C) where
    -- The state in which the stages of a hook start.
    abbrev pub started : State W cond.C
    started =
        mark_true cond env Conditions.hook_server_ready
          (record st { addon = prepared cond env input config old st.addon })

    prepared_fresh :
        text_eq st.addon.hook [] ≡ false
        → (st.addon.ready || no_stages st.addon.stages) ≡ true
        → same_kubernetes cond env input config old ≡ false
        → ((prepared cond env input config old st.addon).ready ≡ false)
          × ((prepared cond env input config old st.addon).hook ≡ st.addon.hook)
          × ((prepared cond env input config old st.addon).stages
              ≡ pending_stages (stages_of config.addon_stages st.addon.hook))
    unfolding start_upgrade start_hook reset_stages
    prepared_fresh hooked fresh other = (
      ground (arith, hooked, fresh, other),
      ground (arith, hooked, fresh, other),
      ground (arith, hooked, fresh, other),
    )

    reconciled :
        (prepared cond env input config old st.addon).ready ≡ false
        → same_kubernetes cond env input config old ≡ false
        → text_eq (prepared cond env input config old st.addon).hook [] ≡ false
        → reconcile_stages cond env input config si old st ≡ (st', ok no_requeue)
        → after_hook cond env input config si old (
            run_stages cond env input config si
              (stages_of config.addon_stages (prepared cond env input config old st.addon).hook)
              started)
          ≡ (st', ok no_requeue)
    unfolding reconcile_stages run_hook
    reconciled not_ready other hooked h = ground (arith, not_ready, other, hooked, h)

    -- A fresh hook of an addon, where the Kubernetes version is not the old one: if the pass of the
    -- reconcile loop ends without an error and without a requeue, then the loop over the stages of the
    -- hook has left every one of them done, the condition HelmChartApplied is true, and the hook, the
    -- stages and the resources are removed from the addon. The charts of the stages are taken to be
    -- there and to template for the actions of their stages, in every state of the cluster.
    pub hook_completed :
        text_eq st.addon.hook [] ≡ false
        → (st.addon.ready || no_stages st.addon.stages) ≡ true
        → same_kubernetes cond env input config old ≡ false
        → All
            (Charts cond (env.stage input.cluster) (env.api input.cluster) si)
            (stages_of config.addon_stages st.addon.hook)
        → All
            (λ s. contains si.chart_map s.name ≡ true)
            (stages_of config.addon_stages st.addon.hook)
        → reconcile_stages cond env input config si old st ≡ (st', ok no_requeue)
        → AllDone cond env input config si
            (run_stages cond env input config si
              (stages_of config.addon_stages st.addon.hook)
              started).0
            (stages_of config.addon_stages st.addon.hook)
          × IsFinished st'
    unfolding start_upgrade text_eq start_hook run_stages stages_of
    hook_completed hooked fresh other charts found h =
        let (not_ready, same_hook, same_stages) = prepared_fresh hooked fresh other in
        let l = stages_of config.addon_stages st.addon.hook in
        let k = reconciled not_ready other (ap (λ x. text_eq x []) same_hook ∙ hooked) h in
        let run = run_stages cond env input config si l started in
        let (executed, is_finished) = after_hook-IsFinished old run st' (
          subst
            (λ x.
              after_hook cond env input config si old
                (run_stages cond env input config si (stages_of config.addon_stages x) started)
              ≡ (st', ok no_requeue))
            same_hook k) in
        (
          run_stages_done cond env input config si l started run.0 charts found
              (subst (λ x. All (λ s. phase_in x s.name s.action ≢ phase_none) l) (sym same_stages)
                (pending_known l))
              (ap (λ x. (run.0, x)) executed),
          is_finished,
        )
