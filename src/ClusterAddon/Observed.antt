-- ===== src/ClusterAddon/Observed.antt =====
-- A stage whose post condition is evaluated by CEL.
use cluster_stack_operator.Base.{Bool, true, ◌≡◌, ◌≢◌, ◌⊎◌, inl, inr, List, [], some, Result, All}
use cluster_stack_operator.Strings.{Text}
use cluster_stack_operator.Api.Conditions.{ConditionsApi}
use cluster_stack_operator.Kube.Client.{KubeApi}
use cluster_stack_operator.ClusterAddon.{Stage, done, get_stage_phase}
use cluster_stack_operator.ClusterAddon.Execute.{
  StageEnv, StageInput, State, StageError, execute_stage, no_condition,
}
use cluster_stack_operator.ClusterAddon.Rounds.{execute_stage_done}
use cluster_stack_operator.ClusterAddon.Cel.{
  CelEnv, boolean, kind_of, compiled, collect, evaluate_cel, evaluate_cel_matched,
}

-- The calls of `executeStage`, with CEL for the conditions.
abbrev pub with_cel : {W P V : Type 0} → CelEnv W P V → StageEnv W → StageEnv W
with_cel cel env = record env { evaluate = evaluate_cel cel }

module _ (cond : ConditionsApi) {W P V : Type 0} (cel : CelEnv W P V) (env : StageEnv W)
    (api : KubeApi W) (input : StageInput) (stage : Stage) (st st' : State W cond.C)
    (x : Result StageError Bool) where
  -- If `executeStage` returns and takes its stage from another phase to done, then the stage has no post
  -- condition, or, in the state that the call leaves, every object of the condition is in the workload
  -- cluster and the program of its expression compiles and is true of them.
  pub stage_done_observed :
      execute_stage cond (with_cel cel env) api input stage st ≡ some (st', x)
      → get_stage_phase st.addon stage.name stage.action ≢ done
      → get_stage_phase st'.addon stage.name stage.action ≡ done
      → (no_condition stage.wait_for_post_condition ≡ true)
        ⊎ (All
              (λ o. (v : V) × (cel.get st'.world (kind_of o) o.namespace o.name ≡ some v))
              stage.wait_for_post_condition.objects
            × ((p : P) × (m : List (Text × V)) × (compiled cel stage.wait_for_post_condition.objects
                    stage.wait_for_post_condition.conditions
                  ≡ some p)
                × (collect cel st'.world stage.wait_for_post_condition.objects [] ≡ some m)
                × (cel.eval p m ≡ some (boolean true))))
  stage_done_observed h u d =
      elim (execute_stage_done cond (with_cel cel env) api input stage st st' x h u d).0 [
        | inl none_given ↦ inl none_given
        | inr holds ↦ inr (evaluate_cel_matched cel st'.world stage.wait_for_post_condition holds)
      ]
