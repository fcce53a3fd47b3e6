-- ===== src/Api/Conditions.antt =====
-- The conditions of an object. `conditions` of cluster-api is not code of the repository: its functions
-- are a parameter, with the documented behaviour that the code relies on.
use cluster_stack_operator.Base.{Bool, true, false, ◌≡◌, ◌≢◌}
use cluster_stack_operator.Strings.{Text}

-- The types of conditions of conditions_const.go, and `ready`, the summary of cluster-api.
pub data ConditionType : Type 0 where
  ready cluster_ready evaluated_cel helm_chart_found helm_chart_templated : ConditionType
  cluster_addon_config_validated helm_chart_applied hook_server_ready helm_chart_deleted :
      ConditionType
  provider_cluster_stack_releases_synced cluster_stack_releases_synced : ConditionType
  cluster_stack_release_available cluster_stack_release_assets_ready : ConditionType
  provider_cluster_stack_release_ready assets_client_api_available releases_synced : ConditionType

pub ConditionType-discrete : Discrete ConditionType
ConditionType-discrete = hlevel

-- The reasons of conditions_const.go.
pub data Reason : Type 0 where
  no_reason control_plane_not_ready failed_to_evaluate_pre_condition : Reason
  failed_to_evaluate_post_condition helm_chart_missing : Reason
  template_old_cluster_stack_overwrite_failed template_old_cluster_stack_failed : Reason
  template_new_cluster_stack_overwrite_failed template_new_cluster_stack_failed : Reason
  parsing_cluster_addon_config_failed failed_to_apply_objects objects_applying_ongoing : Reason
  hook_server_unresponsive failed_to_delete_objects provider_template_not_found : Reason
  failed_to_create_or_update release_assets_not_downloaded_yet issue_with_release_assets : Reason
  process_ongoing failed_create_assets_client failed_to_sync : Reason

pub data Severity : Type 0 where
  error warning info : Severity

-- The functions of the package, on the conditions of an object. Messages are left out.
pub record ConditionsApi : Type 1 where
  pub C : Type 0
  pub empty : C
  pub is_true : C → ConditionType → Bool
  pub is_false : C → ConditionType → Bool
  pub get_reason : C → ConditionType → Text
  pub mark_true : C → ConditionType → C
  pub mark_false : C → ConditionType → Reason → Severity → C
  pub delete : C → ConditionType → C
  pub set_summary : C → C
  pub true_same : (c : C) (t : ConditionType) → is_true (mark_true c t) t ≡ true
  pub true_other : (c : C) (t u : ConditionType) → t ≢ u → is_true (mark_true c t) u ≡ is_true c u
  pub false_same :
      (c : C) (t : ConditionType) (r : Reason) (s : Severity)
      → is_true (mark_false c t r s) t ≡ false
  pub false_other :
      (c : C) (t u : ConditionType) (r : Reason) (s : Severity)
      → t ≢ u
      → is_true (mark_false c t r s) u ≡ is_true c u
  pub marked_true : (c : C) (t : ConditionType) → is_false (mark_true c t) t ≡ false
  pub marked_false :
      (c : C) (t : ConditionType) (r : Reason) (s : Severity)
      → is_false (mark_false c t r s) t ≡ true
  pub marked_true_other :
      (c : C) (t u : ConditionType) → t ≢ u → is_false (mark_true c t) u ≡ is_false c u
  pub marked_false_other :
      (c : C) (t u : ConditionType) (r : Reason) (s : Severity)
      → t ≢ u
      → is_false (mark_false c t r s) u ≡ is_false c u
  pub deleted_same : (c : C) (t : ConditionType) → is_true (delete c t) t ≡ false
  pub deleted_not_false : (c : C) (t : ConditionType) → is_false (delete c t) t ≡ false
  pub deleted_other : (c : C) (t u : ConditionType) → t ≢ u → is_true (delete c t) u ≡ is_true c u
  pub summary_keeps :
      (c : C) (t : ConditionType) → t ≢ ready → is_true (set_summary c) t ≡ is_true c t
  pub summary_keeps_false :
      (c : C) (t : ConditionType) → t ≢ ready → is_false (set_summary c) t ≡ is_false c t
