-- ===== src/ClusterAddon/Completed.antt =====
-- A hook whose stages were all executed has done all of them, if their charts are there and template.
use cluster_stack_operator.Base.{
  ◌⊎◌, ℕ, zero, suc, Bool, true, false, ◌&&◌, ◌≡◌, ◌≢◌, refl, sym, ◌∙◌, ap, List, none, some, arith,
  Bool-cases, inl, inr, Result, ok, err, some_inj,
}
use cluster_stack_operator.Strings.{Text, text_eq}
use cluster_stack_operator.Api.{Resource}
use cluster_stack_operator.Api.Conditions.{ConditionsApi}
use cluster_stack_operator.Kube.Template.{Document, Error}
use cluster_stack_operator.Kube.Client.{KubeApi, apply_new_cluster_stack, delete_new_cluster_stack}
use cluster_stack_operator.ClusterAddon.{
  Stage, StagePhase, phase_none, pending, waiting_for_pre_condition, applying_or_deleting,
  waiting_for_post_condition, done, set_phase_in, phase_in, apply_action,
}
use cluster_stack_operator.ClusterAddon.Phases.{phase_set_other}
use cluster_stack_operator.ClusterAddon.Execute.{
  StageEnv, StageInput, State, StageError, Next, returns, case_of, checks, execute_stage, contains,
  templates, join_path, pre_condition, post_condition, apply_stage, delete_stage, applied, deleted,
}
use cluster_stack_operator.ClusterAddon.Outcomes.{
  to_applying, to_waiting, to_post, to_done, stays, case-Outcome,
}
use cluster_stack_operator.ClusterAddon.Rounds.{phase, after, phase_after, checks_go, stopped}

done-cases : (p : StagePhase) → (p ≡ done) ⊎ (p ≢ done)
done-cases done = inl refl
done-cases phase_none = inr (λ h. cc h)
done-cases pending = inr (λ h. cc h)
done-cases waiting_for_pre_condition = inr (λ h. cc h)
done-cases applying_or_deleting = inr (λ h. cc h)
done-cases waiting_for_post_condition = inr (λ h. cc h)

module _ (cond : ConditionsApi) {W : Type 0} (env : StageEnv W) (api : KubeApi W)
    (input : StageInput) where
  -- The charts of a stage template for the action of the stage, in every state of the cluster.
  pub record Charts (stage : Stage) : Type 0 where
    pub applied_charts :
        text_eq stage.action apply_action ≡ true
        → (w : W)
        → (t : List Document × List Document) × (templates cond env api input w stage.name ≡ ok t)
    pub deleted_charts :
        text_eq stage.action apply_action ≡ false
        → (w : W)
        → (t : List Document) × (env.helm_template w
              (join_path input.new_dir stage.name)
              none
              input.kubernetes_version
            ≡ some t)

  module _ (stage : Stage) (charts : Charts stage) (st : State W cond.C) where
    abbrev Ends : State W cond.C × Next → Type 0
    Ends r = r.1 ≡ returns (ok false)

    applied-Ends :
        (a : W × Bool × Result Error (List Resource)) (st' : State W cond.C)
        → ¬ Ends (applied cond env api input stage a st')
    unfolding applied
    applied-Ends (w, b, err e) st' h = cc h
    applied-Ends (w, true, ok rs) st' h = cc h
    applied-Ends (w, false, ok rs) st' h = cc h

    deleted-Ends :
        (a : W × Bool × Result Error (List Resource))
        → ¬ Ends (deleted cond env api input stage a st)
    unfolding deleted
    deleted-Ends (w, b, err e) h = cc h
    deleted-Ends (w, true, ok rs) h = cc h
    deleted-Ends (w, false, ok rs) h = cc h

    pre-Ends : ¬ Ends (pre_condition cond env api input stage st)
    unfolding pre_condition
    pre-Ends h = ground (arith, h)

    apply-Ends :
        text_eq stage.action apply_action ≡ true → ¬ Ends (apply_stage cond env api input stage st)
    unfolding apply_stage
    apply-Ends k h =
        let (t, e) = charts.applied_charts k st.world in
        applied-Ends (apply_new_cluster_stack api t.0 t.1 st.world) _ (rw (e, apply_stage) at h)

    delete-Ends :
        text_eq stage.action apply_action ≡ false
        → ¬ Ends (delete_stage cond env api input stage st)
    unfolding delete_stage
    delete-Ends k h =
        let (t, e) = charts.deleted_charts k st.world in
        deleted-Ends (delete_new_cluster_stack api t st.world) (rw (e, delete_stage) at h)

    post-Ends :
        Ends (post_condition cond env api input stage st)
        → (post_condition cond env api input stage st).0.addon.stages
          ≡ set_phase_in st.addon.stages stage.name stage.action done
    unfolding post_condition
    post-Ends h = ground (arith, h)

    -- Only the last phases return without asking again.
    case-Ends :
        (p : StagePhase)
        → Ends (case_of cond env api input p stage st)
        → p ≢ phase_none
        → p ≢ done
        → (case_of cond env api input p stage st).0.addon.stages
          ≡ set_phase_in st.addon.stages stage.name stage.action done
    unfolding case_of
    case-Ends pending h k l = absurd (pre-Ends h)
    case-Ends waiting_for_pre_condition h k l = absurd (pre-Ends h)
    case-Ends waiting_for_post_condition h k l = post-Ends h
    case-Ends phase_none h k l = absurd (k refl)
    case-Ends done h k l = absurd (l refl)
    case-Ends applying_or_deleting h k l = elim (Bool-cases (text_eq stage.action apply_action)) [
      | inl e ↦ absurd (apply-Ends e (rw (e, case_of) at h))
      | inr e ↦ absurd (delete-Ends e (rw (e, case_of) at h))
    ]

  module _ (stage : Stage) (charts : Charts stage) where
    abbrev phase_of : State W cond.C → StagePhase
    phase_of st = phase cond env api input stage st

    abbrev next : State W cond.C → State W cond.C
    next st = (after cond env api input stage st).0

    checks_ends :
        (n : ℕ) (st st' : State W cond.C)
        → checks cond env api input n stage st ≡ some (st', ok false)
        → phase_of st ≢ phase_none
        → phase_of st' ≡ done
    checks_ends zero st st' h f = unfold checks in cc
    checks_ends (suc n) st st' h f = elim (case-Outcome cond env api input stage st (phase_of st)) [
      | stays y e s ↦
          let (a, b) = stopped cond env api input stage n st st' y (ok false) e h in
          let q : phase_of st' ≡ phase_of st =
            ap phase_of a ∙ ap (λ l. phase_in l stage.name stage.action) s in
          elim (done-cases (phase_of st)) [
            | inl d ↦ q ∙ d
            | inr d ↦
                ap phase_of a
                ∙ phase_after cond env api input stage st (next st) done f
                    (case-Ends stage charts st (phase_of st) (rw b e) f d)
          ]
      | to_waiting w e s ↦
          let (a, b) = stopped cond env api input stage n st st' (ok true) (ok false) e h in
          absurd (cc b)
      | to_done p e s c ↦
          let (a, b) = stopped cond env api input stage n st st' (ok false) (ok false) e h in
          ap phase_of a ∙ phase_after cond env api input stage st (next st) done f s
      | to_applying w e s c ↦
          let q = phase_after cond env api input stage st (next st) applying_or_deleting f s in
          checks_ends n (next st) st' (sym (checks_go cond env api input stage n st e) ∙ h)
            (λ z. cc (z, q))
      | to_post p e s ↦
          let q =
            phase_after cond env api input stage st (next st) waiting_for_post_condition f s in
          checks_ends n (next st) st' (sym (checks_go cond env api input stage n st e) ∙ h)
            (λ z. cc (z, q))
    ]

    -- A stage that `executeStage` leaves without an error and without asking again is done.
    pub execute_stage_ends :
        (st st' : State W cond.C)
        → contains input.chart_map stage.name ≡ true
        → phase_of st ≢ phase_none
        → execute_stage cond env api input stage st ≡ some (st', ok false)
        → phase_of st' ≡ done
    unfolding execute_stage
    execute_stage_ends st st' found f h = checks_ends 3 st st' (rw (found, execute_stage) at h) f

  module _ (stage : Stage) (name action : Text)
      (other : (text_eq stage.name name && text_eq stage.action action) ≡ false) where
    set_other :
        (a b : State W cond.C) (p : StagePhase)
        → b.addon.stages ≡ set_phase_in a.addon.stages stage.name stage.action p
        → phase_in b.addon.stages name action ≡ phase_in a.addon.stages name action
    set_other a b p e =
        ap (λ x. phase_in x name action) e
        ∙ phase_set_other stage.name stage.action p name action a.addon.stages other

    stopped_other :
        (n : ℕ) (st st' : State W cond.C) (x y : Result StageError Bool)
        → (after cond env api input stage st).1 ≡ returns y
        → checks cond env api input (suc n) stage st ≡ some (st', x)
        → phase_in (after cond env api input stage st).0.addon.stages name action
          ≡ phase_in st.addon.stages name action
        → phase_in st'.addon.stages name action ≡ phase_in st.addon.stages name action
    stopped_other n st st' x y e h k =
        ap (λ z. phase_in z.addon.stages name action)
          (stopped cond env api input stage n st st' y x e h).0
        ∙ k

    checks_other :
        (n : ℕ) (st st' : State W cond.C) (x : Result StageError Bool)
        → checks cond env api input n stage st ≡ some (st', x)
        → phase_in st'.addon.stages name action ≡ phase_in st.addon.stages name action
    checks_other zero st st' x h = unfold checks in cc
    checks_other (suc n) st st' x h =
        let st₁ = (after cond env api input stage st).0 in
        elim (case-Outcome cond env api input stage st (phase cond env api input stage st)) [
          | stays y e s ↦ stopped_other n st st' x y e h (ap (λ l. phase_in l name action) s)
          | to_waiting w e s ↦
              stopped_other n st st' x (ok true) e h (set_other st st₁ waiting_for_pre_condition s)
          | to_done p e s c ↦ stopped_other n st st' x (ok false) e h (set_other st st₁ done s)
          | to_applying w e s c ↦
              checks_other n st₁ st' x (sym (checks_go cond env api input stage n st e) ∙ h)
              ∙ set_other st st₁ applying_or_deleting s
          | to_post p e s ↦
              checks_other n st₁ st' x (sym (checks_go cond env api input stage n st e) ∙ h)
              ∙ set_other st st₁ waiting_for_post_condition s
        ]

    -- `executeStage` leaves the phase of every other stage.
    pub execute_stage_other :
        (st st' : State W cond.C) (x : Result StageError Bool)
        → execute_stage cond env api input stage st ≡ some (st', x)
        → phase_in st'.addon.stages name action ≡ phase_in st.addon.stages name action
    unfolding execute_stage
    execute_stage_other st st' x h = elim (Bool-cases (contains input.chart_map stage.name)) [
      | inl e ↦ checks_other 3 st st' x (rw (e, execute_stage) at h)
      | inr e ↦
          ap (λ z. phase_in z.0.addon.stages name action)
            (sym (some_inj (rw (e, execute_stage) at h)))
    ]
