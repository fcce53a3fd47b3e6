-- ===== src/ClusterAddon/Outcomes.antt =====
-- The cases of `executeStage` as steps between phases.
use cluster_stack_operator.Base.{
  ap, Bool, true, false, ◌≡◌, ◌⊎◌, refl, List, none, Bool-cases, Option-cases, Result-cases, inl,
  inr, Result, ok, err,
}
use cluster_stack_operator.Strings.{text_eq}
use cluster_stack_operator.Api.{Resource}
use cluster_stack_operator.Api.Conditions.{ConditionsApi}
use cluster_stack_operator.Kube.Template.{Error}
use cluster_stack_operator.Kube.Client.{KubeApi, apply_new_cluster_stack, delete_new_cluster_stack}
use cluster_stack_operator.ClusterAddon.{
  StageStatus, Stage, StagePhase, phase_none, pending, waiting_for_pre_condition,
  applying_or_deleting, waiting_for_post_condition, done, WaitForCondition, set_phase_in,
  apply_action,
}
use cluster_stack_operator.ClusterAddon.Execute.{
  StageEnv, StageInput, State, StageError, Next, check, returns, CelAnswer, matched, not_matched,
  cel_failed, no_condition, pre_condition, post_condition, applied, apply_stage, deleted,
  delete_stage, case_of, templates, join_path,
}

-- The phases in which a stage waits for its pre condition.
pub data IsEarly : StagePhase → Type 0 where
  is_pending : IsEarly pending
  is_waiting : IsEarly waiting_for_pre_condition

-- A condition is missing, or holds.
abbrev pub Holds : {W : Type 0} → StageEnv W → W → WaitForCondition → Type 0
Holds env w c = (no_condition c ≡ true) ⊎ (env.evaluate w c ≡ matched)

module _ {C W : Type 0} (env : StageEnv W) (stage : Stage) (st : State W C) where
  abbrev pub to_phase : StagePhase → List StageStatus
  to_phase p = set_phase_in st.addon.stages stage.name stage.action p

  -- What the case of a phase does: it goes one phase on, with the condition for that, or it returns and
  -- leaves the phase, or waits for the pre condition.
  pub data Outcome (p : StagePhase) (r : State W C × Next) : Type 0 where
    to_applying :
        IsEarly p
        → r.1 ≡ check
        → r.0.addon.stages ≡ to_phase applying_or_deleting
        → Holds env st.world stage.wait_for_pre_condition
        → Outcome p r
    to_waiting :
        IsEarly p
        → r.1 ≡ returns (ok true)
        → r.0.addon.stages ≡ to_phase waiting_for_pre_condition
        → Outcome p r
    to_post :
        p ≡ applying_or_deleting
        → r.1 ≡ check
        → r.0.addon.stages ≡ to_phase waiting_for_post_condition
        → Outcome p r
    to_done :
        p ≡ waiting_for_post_condition
        → r.1 ≡ returns (ok false)
        → r.0.addon.stages ≡ to_phase done
        → Holds env r.0.world stage.wait_for_post_condition
        → Outcome p r
    stays :
        (x : Result StageError Bool)
        → r.1 ≡ returns x
        → r.0.addon.stages ≡ st.addon.stages
        → Outcome p r

module _ (cond : ConditionsApi) {W : Type 0} (env : StageEnv W) (api : KubeApi W)
    (input : StageInput) (stage : Stage) (st : State W cond.C) where
  pub pre-Outcome :
      (p : StagePhase)
      → IsEarly p
      → Outcome env stage st p (pre_condition cond env api input stage st)
  unfolding pre_condition
  pre-Outcome p h = elim (Bool-cases (no_condition stage.wait_for_pre_condition)) [
    | inl e ↦ rw (e, pre_condition) (to_applying h refl refl (inl e))
    | inr e ↦ go (env.evaluate st.world stage.wait_for_pre_condition) refl e
  ]
    where
      go :
          (a : CelAnswer)
          → env.evaluate st.world stage.wait_for_pre_condition ≡ a
          → no_condition stage.wait_for_pre_condition ≡ false
          → Outcome env stage st p (pre_condition cond env api input stage st)
      go matched a e = rw (e, pre_condition, a) (to_applying h refl refl (inr a))
      go not_matched a e = rw (e, pre_condition, a) (to_waiting h refl refl)
      go cel_failed a e = rw (e, pre_condition, a) (stays _ refl refl)

  pub post-Outcome :
      Outcome env stage st waiting_for_post_condition (post_condition cond env api input stage st)
  unfolding post_condition
  post-Outcome = elim (Bool-cases (no_condition stage.wait_for_post_condition)) [
    | inl e ↦ rw (e, post_condition) (to_done refl refl refl (inl e))
    | inr e ↦ go (env.evaluate st.world stage.wait_for_post_condition) refl e
  ]
    where
      go :
          (a : CelAnswer)
          → env.evaluate st.world stage.wait_for_post_condition ≡ a
          → no_condition stage.wait_for_post_condition ≡ false
          → Outcome env stage st waiting_for_post_condition
              (post_condition cond env api input stage st)
      go matched a e = rw (e, post_condition, a) (to_done refl refl refl (inr a))
      go not_matched a e = rw (e, post_condition, a) (stays _ refl refl)
      go cel_failed a e = rw (e, post_condition, a) (stays _ refl refl)

  -- The two answers leave the phase where they return.
  applied-Outcome :
      (st' : State W cond.C) (a : W × Bool × Result Error (List Resource))
      → st'.addon.stages ≡ st.addon.stages
      → Outcome env stage st applying_or_deleting (applied cond env api input stage a st')
  unfolding applied
  applied-Outcome st' (w, b, err e) h = stays _ refl h
  applied-Outcome st' (w, true, ok rs) h = stays _ refl h
  applied-Outcome st' (w, false, ok rs) h =
      to_post refl refl
        (ap (λ l. set_phase_in l stage.name stage.action waiting_for_post_condition) h)

  deleted-Outcome :
      (a : W × Bool × Result Error (List Resource))
      → Outcome env stage st applying_or_deleting (deleted cond env api input stage a st)
  unfolding deleted
  deleted-Outcome (w, b, err e) = stays _ refl refl
  deleted-Outcome (w, true, ok rs) = stays _ refl refl
  deleted-Outcome (w, false, ok rs) = to_post refl refl refl

  apply-Outcome :
      Outcome env stage st applying_or_deleting (apply_stage cond env api input stage st)
  unfolding apply_stage
  apply-Outcome = elim (Result-cases (templates cond env api input st.world stage.name)) [
    | inl (r, e) ↦ rw (e, apply_stage) (stays _ refl refl)
    | inr ((old, new), e) ↦
        rw (e, apply_stage) (applied-Outcome _ (apply_new_cluster_stack api old new st.world) refl)
  ]

  delete-Outcome :
      Outcome env stage st applying_or_deleting (delete_stage cond env api input stage st)
  unfolding delete_stage
  delete-Outcome =
      elim (Option-cases (
        env.helm_template st.world (join_path input.new_dir stage.name) none
          input.kubernetes_version)) [
            | inl e ↦ rw (e, delete_stage) (stays _ refl refl)
            | inr (t, e) ↦
                rw (e, delete_stage) (deleted-Outcome (delete_new_cluster_stack api t st.world))
          ]

  -- Each case of the switch takes one of the steps.
  pub case-Outcome :
      (p : StagePhase) → Outcome env stage st p (case_of cond env api input p stage st)
  unfolding case_of
  case-Outcome pending = pre-Outcome pending is_pending
  case-Outcome waiting_for_pre_condition = pre-Outcome waiting_for_pre_condition is_waiting
  case-Outcome applying_or_deleting = elim (Bool-cases (text_eq stage.action apply_action)) [
    | inl e ↦ rw (e, case_of) apply-Outcome
    | inr e ↦ rw (e, case_of) delete-Outcome
  ]
  case-Outcome waiting_for_post_condition = post-Outcome
  case-Outcome phase_none = stays _ refl refl
  case-Outcome done = stays _ refl refl
