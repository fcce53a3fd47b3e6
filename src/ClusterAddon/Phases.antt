-- ===== src/ClusterAddon/Phases.antt =====
-- The phases of the stages of an addon.
use cluster_stack_operator.Base.{
  false, ◌&&◌, ◌≡◌, ◌≢◌, refl, List, [], ◌∷◌, arith, Bool-cases, inl, inr,
}
use cluster_stack_operator.Strings.{Text, text_eq}
use cluster_stack_operator.Strings.Order.{text_eq→eq}
use cluster_stack_operator.ClusterAddon.{
  StageStatus, StagePhase, phase_none, is_stage, phase_in, set_phase_in,
}

module _ (name action : Text) (phase : StagePhase) where
  -- The phase that is set for a stage of the list is the one that is read.
  pub phase_set :
      (l : List StageStatus)
      → phase_in l name action ≢ phase_none
      → phase_in (set_phase_in l name action phase) name action ≡ phase
  unfolding phase_in set_phase_in
  phase_set [] h = absurd (h refl)
  phase_set (s ∷ l) h = elim (Bool-cases (is_stage name action s)) [
    | inl e ↦ rw (e, set_phase_in, phase_in) (ground (arith, e))
    | inr e ↦ rw (e, set_phase_in, phase_in, e) (phase_set l (λ k. h (rw (phase_in, e) k)))
  ]

  -- The phase of every other stage is left.
  pub phase_set_other :
      (name' action' : Text) (l : List StageStatus)
      → (text_eq name name' && text_eq action action') ≡ false
      → phase_in (set_phase_in l name action phase) name' action' ≡ phase_in l name' action'
  unfolding phase_in set_phase_in
  phase_set_other name' action' [] h = refl
  phase_set_other name' action' (s ∷ l) h = ground (
    arith,
    h,
    phase_set_other name' action' l h,
    text_eq→eq s.name name,
    text_eq→eq s.action action,
  )
