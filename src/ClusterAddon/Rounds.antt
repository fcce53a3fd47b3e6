-- ===== src/ClusterAddon/Rounds.antt =====
-- `executeStage` ends, goes forward only, and finishes a stage under its condition.
use mathlib.Core.Path.{subst}
use cluster_stack_operator.Base.{
  ℕ, zero, suc, ◌≤◌, Bool, false, ◌≡◌, ◌≢◌, refl, sym, ◌∙◌, ap, some, arith, Bool-cases, inl, inr,
  Result, ok, some_inj,
}
use cluster_stack_operator.Api.Conditions.{
  ConditionsApi, helm_chart_found, helm_chart_missing, info,
}
use cluster_stack_operator.Kube.Client.{KubeApi}
use cluster_stack_operator.ClusterAddon.{
  Stage, StagePhase, phase_none, pending, waiting_for_pre_condition, applying_or_deleting,
  waiting_for_post_condition, done, get_stage_phase, set_phase_in, phase_in,
}
use cluster_stack_operator.ClusterAddon.Phases.{phase_set}
use cluster_stack_operator.ClusterAddon.Execute.{
  StageEnv, StageInput, State, StageError, Next, check, returns, case_of, checks, execute_stage,
  contains, mark_false,
}
use cluster_stack_operator.ClusterAddon.Outcomes.{
  IsEarly, is_pending, is_waiting, Holds, to_applying, to_waiting, to_post, to_done, stays,
  case-Outcome,
}

-- How often the switch is entered from a phase on, at most.
abbrev pub rounds : StagePhase → ℕ
rounds phase_none = 1
rounds pending = 3
rounds waiting_for_pre_condition = 3
rounds applying_or_deleting = 2
rounds waiting_for_post_condition = 1
rounds done = 1

-- The order in which a stage passes through its phases.
abbrev pub rank : StagePhase → ℕ
rank phase_none = 0
rank pending = 1
rank waiting_for_pre_condition = 2
rank applying_or_deleting = 3
rank waiting_for_post_condition = 4
rank done = 5

pub early_rounds : (p : StagePhase) → IsEarly p → (rounds p ≡ 3) × (rank p ≤ 2) × (p ≢ phase_none)
early_rounds pending is_pending = (refl, omega arith, λ h. cc)
early_rounds waiting_for_pre_condition is_waiting = (refl, omega arith, λ h. cc)
early_rounds phase_none h = elim h [ ]
early_rounds applying_or_deleting h = elim h [ ]
early_rounds waiting_for_post_condition h = elim h [ ]
early_rounds done h = elim h [ ]

module _ (cond : ConditionsApi) {W : Type 0} (env : StageEnv W) (api : KubeApi W)
    (input : StageInput) (stage : Stage) where
  abbrev pub phase : State W cond.C → StagePhase
  phase st = get_stage_phase st.addon stage.name stage.action

  abbrev pub after : State W cond.C → State W cond.C × Next
  after st = case_of cond env api input (phase st) stage st

  pub phase_after :
      (st st' : State W cond.C) (q : StagePhase)
      → phase st ≢ phase_none
      → st'.addon.stages ≡ set_phase_in st.addon.stages stage.name stage.action q
      → phase st' ≡ q
  phase_after st st' q h e =
      ap (λ l. phase_in l stage.name stage.action) e
      ∙ phase_set stage.name stage.action q st.addon.stages h

  pub checks_stop :
      (n : ℕ) (st : State W cond.C) (x : Result StageError Bool)
      → (after st).1 ≡ returns x
      → checks cond env api input (suc n) stage st ≡ some ((after st).0, x)
  unfolding checks
  checks_stop n st x e = rw (e, checks) refl

  pub checks_go :
      (n : ℕ) (st : State W cond.C)
      → (after st).1 ≡ check
      → checks cond env api input (suc n) stage st ≡ checks cond env api input n stage (after st).0
  unfolding checks
  checks_go n st e = rw (e, checks) refl

  Returned : ℕ → State W cond.C → Type 0
  Returned n st =
      (out : State W cond.C × Result StageError Bool) × (checks cond env api input n stage st
        ≡ some out)

  checks_return : (n : ℕ) (st : State W cond.C) → rounds (phase st) ≤ n → Returned n st
  unfolding Returned
  checks_return zero st h = absurd (ground arith)
  checks_return (suc n) st h = elim (case-Outcome cond env api input stage st (phase st)) [
    | stays x e s ↦ (_, checks_stop n st x e)
    | to_waiting w e s ↦ (_, checks_stop n st _ e)
    | to_done p e s c ↦ (_, checks_stop n st _ e)
    | to_applying w e s c ↦
        let (r, _, f) = early_rounds (phase st) w in
        let q = phase_after st (after st).0 applying_or_deleting f s in
        let (out, k) = checks_return n (after st).0 (rw q (ground (arith, r, h))) in
        (out, checks_go n st e ∙ k)
    | to_post p e s ↦
        let q = phase_after st (after st).0 waiting_for_post_condition (λ z. cc (z, p)) s in
        let (out, k) = checks_return n (after st).0 (rw q (ground (arith, p, h))) in
        (out, checks_go n st e ∙ k)
  ]

  -- Where the switch returns, the state and the result are the ones of the return.
  pub stopped :
      (n : ℕ) (st st' : State W cond.C) (x y : Result StageError Bool)
      → (after st).1 ≡ returns x
      → checks cond env api input (suc n) stage st ≡ some (st', y)
      → (st' ≡ (after st).0) × (y ≡ x)
  stopped n st st' x y e h =
      let k = some_inj (sym h ∙ checks_stop n st x e) in (ap (λ z. z.0) k, ap (λ z. z.1) k)

  phase_ap : (a b : State W cond.C) → a ≡ b → phase a ≡ phase b
  phase_ap a b e = ap phase e

  checks_forward :
      (n : ℕ) (st st' : State W cond.C) (x : Result StageError Bool)
      → checks cond env api input n stage st ≡ some (st', x)
      → rank (phase st) ≤ rank (phase st')
  checks_forward zero st st' x h = unfold checks in cc
  checks_forward (suc n) st st' x h = elim (case-Outcome cond env api input stage st (phase st)) [
    | stays y e s ↦
        let q : phase st' ≡ phase st =
          ap phase (stopped n st st' y x e h).0 ∙ ap (λ l. phase_in l stage.name stage.action) s in
        ground (arith, q)
    | to_waiting w e s ↦
        let (r, k, f) = early_rounds (phase st) w in
        let q : phase st' ≡ waiting_for_pre_condition =
          ap phase (stopped n st st' _ x e h).0
          ∙ phase_after st (after st).0 waiting_for_pre_condition f s in
        rw q k
    | to_done p e s c ↦
        let q : phase st' ≡ done =
          ap phase (stopped n st st' _ x e h).0
          ∙ phase_after st (after st).0 done (λ z. cc (z, p)) s in
        rw (q, p) (omega arith)
    | to_applying w e s c ↦
        let (r, k, f) = early_rounds (phase st) w in
        let q = phase_after st (after st).0 applying_or_deleting f s in
        let i = checks_forward n (after st).0 st' x (sym (checks_go n st e) ∙ h) in
        ground (arith, i, q, k)
    | to_post p e s ↦
        let q = phase_after st (after st).0 waiting_for_post_condition (λ z. cc (z, p)) s in
        let i = checks_forward n (after st).0 st' x (sym (checks_go n st e) ∙ h) in
        ground (arith, i, q, p)
  ]

  checks_done :
      (n : ℕ) (st st' : State W cond.C) (x : Result StageError Bool)
      → checks cond env api input n stage st ≡ some (st', x)
      → phase st ≢ done
      → phase st' ≡ done
      → Holds env st'.world stage.wait_for_post_condition × (x ≡ ok false)
  checks_done zero st st' x h u d = unfold checks in cc
  checks_done (suc n) st st' x h u d = elim (case-Outcome cond env api input stage st (phase st)) [
    | stays y e s ↦
        let q : phase st' ≡ phase st =
          ap phase (stopped n st st' y x e h).0 ∙ ap (λ l. phase_in l stage.name stage.action) s in
        absurd (u (sym q ∙ d))
    | to_waiting w e s ↦
        let (r, k, f) = early_rounds (phase st) w in
        let q : phase st' ≡ waiting_for_pre_condition =
          ap phase (stopped n st st' _ x e h).0
          ∙ phase_after st (after st).0 waiting_for_pre_condition f s in
        absurd (cc (q, d))
    | to_done p e s c ↦
        let (a, b) = stopped n st st' _ x e h in
        (subst (λ z. Holds env z.world stage.wait_for_post_condition) (sym a) c, b)
    | to_applying w e s c ↦
        let (r, k, f) = early_rounds (phase st) w in
        let q = phase_after st (after st).0 applying_or_deleting f s in
        checks_done n (after st).0 st' x (sym (checks_go n st e) ∙ h) (λ z. cc (z, q)) d
    | to_post p e s ↦
        let q = phase_after st (after st).0 waiting_for_post_condition (λ z. cc (z, p)) s in
        checks_done n (after st).0 st' x (sym (checks_go n st e) ∙ h) (λ z. cc (z, q)) d
  ]

  rounds_most : (p : StagePhase) → rounds p ≤ 3
  rounds_most phase_none = omega arith
  rounds_most pending = omega arith
  rounds_most waiting_for_pre_condition = omega arith
  rounds_most applying_or_deleting = omega arith
  rounds_most waiting_for_post_condition = omega arith
  rounds_most done = omega arith

  module _ (st : State W cond.C) where
    -- `executeStage` always returns: three rounds of its switch are enough.
    pub execute_stage_returns :
        (out : State W cond.C × Result StageError Bool) × (execute_stage cond env api input stage st
          ≡ some out)
    unfolding execute_stage Returned
    execute_stage_returns = elim (Bool-cases (contains input.chart_map stage.name)) [
      | inr e ↦ (
        (mark_false cond env api input helm_chart_found helm_chart_missing info st, ok false),
        rw (e, execute_stage) refl,
      )
      | inl e ↦
          let (out, k) = checks_return 3 st (rounds_most (phase st)) in
          (out, rw (e, execute_stage) k)
    ]

    module _ (st' : State W cond.C) (x : Result StageError Bool)
        (h : execute_stage cond env api input stage st ≡ some (st', x)) where
      -- `executeStage` never takes its stage back to an earlier phase.
      pub execute_stage_forward :
          rank (get_stage_phase st.addon stage.name stage.action)
          ≤ rank (get_stage_phase st'.addon stage.name stage.action)
      unfolding execute_stage
      execute_stage_forward = elim (Bool-cases (contains input.chart_map stage.name)) [
        | inl e ↦ checks_forward 3 st st' x (rw (e, execute_stage) at h)
        | inr e ↦
            let q : phase st' ≡ phase st =
              ap (λ z. phase z.0) (sym (some_inj (rw (e, execute_stage) at h))) in
            ground (arith, q)
      ]

      -- If `executeStage` takes its stage to the phase done, then the stage has no post condition or it
      -- holds in the state that the call leaves, and the call returns no error and asks for no further
      -- round.
      pub execute_stage_done :
          get_stage_phase st.addon stage.name stage.action ≢ done
          → get_stage_phase st'.addon stage.name stage.action ≡ done
          → Holds env st'.world stage.wait_for_post_condition × (x ≡ ok false)
      unfolding execute_stage
      execute_stage_done u d = elim (Bool-cases (contains input.chart_map stage.name)) [
        | inl e ↦ checks_done 3 st st' x (rw (e, execute_stage) at h) u d
        | inr e ↦
            let q : phase st' ≡ phase st =
              ap (λ z. phase z.0) (sym (some_inj (rw (e, execute_stage) at h))) in
            absurd (u (sym q ∙ d))
      ]
