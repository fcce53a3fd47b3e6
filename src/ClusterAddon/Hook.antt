-- ===== src/ClusterAddon/Hook.antt =====
-- The stages of a hook, executed one after the other.
use mathlib.Core.Path.{subst}
use cluster_stack_operator.Base.{
  ◌≤◌, Bool, true, false, ◌&&◌, ◌≡◌, ◌≢◌, refl, ◌∙◌, ap, List, [], ◌∷◌, some, arith, Bool-cases,
  inl, inr, Result, ok, err, All, and_true,
}
use cluster_stack_operator.Strings.{Text, text_eq}
use cluster_stack_operator.Strings.Order.{text_eq→eq}
use cluster_stack_operator.Api.Conditions.{ConditionsApi}
use cluster_stack_operator.ClusterAddon.{
  Stage, StagePhase, phase_none, done, phase_in, get_stage_phase, Config,
}
use cluster_stack_operator.ClusterAddon.Execute.{
  StageInput, State, StageError, execute_stage, contains,
}
use cluster_stack_operator.ClusterAddon.Rounds.{rank, execute_stage_returns, execute_stage_forward}
use cluster_stack_operator.ClusterAddon.Completed.{Charts, execute_stage_ends, execute_stage_other}
use cluster_stack_operator.ClusterAddon.Setup.{AddonEnv, Input}
use cluster_stack_operator.ClusterAddon.Staged.{run_stage, run_stages, all_executed}

module _ (cond : ConditionsApi) {W : Type 0} (env : AddonEnv W) (input : Input) (config : Config)
    (si : StageInput) where
  abbrev executed : Stage → State W cond.C → State W cond.C × Result StageError Bool
  executed stage st = run_stage cond env input config si stage st

  executed_eq :
      (stage : Stage) (st : State W cond.C)
      → execute_stage cond (env.stage input.cluster) (env.api input.cluster) si stage st
        ≡ some (executed stage st)
  unfolding run_stage
  executed_eq stage st =
      let (out, e) =
        execute_stage_returns cond (env.stage input.cluster) (env.api input.cluster) si stage st in
      ground (arith, e)

  abbrev pub phase_at : State W cond.C → Stage → StagePhase
  phase_at st s = get_stage_phase st.addon s.name s.action

  -- The stage itself, by a name and an action that are equal to its own.
  own_forward :
      (stage : Stage) (n a : Text) (st : State W cond.C)
      → stage.name ≡ n
      → stage.action ≡ a
      → rank (phase_in st.addon.stages n a) ≤ rank (phase_in (executed stage st).0.addon.stages n a)
  own_forward stage n a st e f =
      subst
        (λ n.
          rank (phase_in st.addon.stages n a)
          ≤ rank (phase_in (executed stage st).0.addon.stages n a))
        e
        (subst
          (λ a.
            rank (phase_in st.addon.stages stage.name a)
            ≤ rank (phase_in (executed stage st).0.addon.stages stage.name a))
          f
          (execute_stage_forward cond (env.stage input.cluster) (env.api input.cluster) si stage st
            (executed stage st).0 (executed stage st).1 (executed_eq stage st)))

  -- No stage goes back when a stage is executed.
  executed_forward :
      (stage s : Stage) (st : State W cond.C)
      → rank (phase_at st s) ≤ rank (phase_at (executed stage st).0 s)
  executed_forward stage s st =
      elim (Bool-cases (text_eq stage.name s.name && text_eq stage.action s.action)) [
        | inr other ↦ ground (
          arith,
          execute_stage_other cond (env.stage input.cluster) (env.api input.cluster) si stage s.name
              s.action other st (executed stage st).0 (executed stage st).1 (executed_eq stage st),
        )
        | inl same ↦
            let (e, f) =
              and_true (text_eq stage.name s.name) (text_eq stage.action s.action) same in
            own_forward stage s.name s.action st (text_eq→eq stage.name s.name e)
              (text_eq→eq stage.action s.action f)
      ]

  rank_none : (p : StagePhase) → p ≢ phase_none → 1 ≤ rank p
  rank_none p h = ground (arith, h)

  rank_done : (p : StagePhase) → 5 ≤ rank p → p ≡ done
  rank_done p h = ground (arith, h)

  none_rank : (p : StagePhase) → 1 ≤ rank p → p ≢ phase_none
  none_rank p h e = ground (arith, h, e)

  -- A stage of the hook that is known, and done.
  abbrev pub Known : State W cond.C → List Stage → Type 0
  Known st = All (λ s. phase_at st s ≢ phase_none)

  abbrev pub AllDone : State W cond.C → List Stage → Type 0
  AllDone st = All (λ s. phase_at st s ≡ done)

  executed-Known :
      (stage : Stage) (st : State W cond.C) (l : List Stage)
      → Known st l
      → Known (executed stage st).0 l
  executed-Known stage st [] h = tt
  executed-Known stage st (s ∷ l) (k, h) = (
    none_rank (phase_at (executed stage st).0 s)
        (ground (arith, rank_none (phase_at st s) k, executed_forward stage s st)),
    executed-Known stage st l h,
  )

  -- The loop goes forward only, too.
  run_forward :
      (l : List Stage) (s : Stage) (st : State W cond.C)
      → rank (phase_at st s) ≤ rank (phase_at (run_stages cond env input config si l st).0 s)
  unfolding run_stages
  run_forward [] s st = omega arith
  run_forward (stage ∷ l) s st =
      ground (arith, executed_forward stage s st, run_forward l s (executed stage st).0)

  -- The loop over the stages of a hook: if the charts of the stages are there and template for the actions
  -- of their stages, in every state of the cluster, and the status knows the stages, then every stage is
  -- done where the loop gets to its end.
  pub run_stages_done :
      (l : List Stage) (st st' : State W cond.C)
      → All (Charts cond (env.stage input.cluster) (env.api input.cluster) si) l
      → All (λ s. contains si.chart_map s.name ≡ true) l
      → Known st l
      → run_stages cond env input config si l st ≡ (st', all_executed)
      → AllDone st' l
  unfolding run_stages
  run_stages_done [] st st' charts found known h = tt
  run_stages_done (stage ∷ l) st st' (chart, charts) (here, found) (k, known) h =
      go
        (run_stages_done l (executed stage st).0 st' charts found (executed-Known stage st l known))
        (executed stage st).1 refl
    where
      go :
          (run_stages cond env input config si l (executed stage st).0 ≡ (st', all_executed)
            → AllDone st' l)
          → (x : Result StageError Bool) → (executed stage st).1 ≡ x
          → AllDone st' (stage ∷ l)
      go again (err e) f = absurd (ground (arith, f, h))
      go again (ok true) f = absurd (ground (arith, f, h))
      go again (ok false) f =
          let rest = rw (f, run_stages) at h in
          let own =
            execute_stage_ends cond (env.stage input.cluster) (env.api input.cluster) si stage chart
              st (executed stage st).0 here k
              (executed_eq stage st ∙ ap (λ x. some ((executed stage st).0, x)) f) in
          let kept = run_forward l stage (executed stage st).0 in
          (
            rank_done (phase_at st' stage)
                (ground (arith, own, kept, ap (λ z. rank (phase_at z.0 stage)) rest)),
            again rest,
          )
