-- ===== src/Tests/Conditions.antt =====
-- Conditions as a function, which keep the laws.
use cluster_stack_operator.Base.{
  ℕ, ◌==◌, ==_iff, if◌then◌else◌, Bool-cases, inl, inr, sym, ◌∙◌, Bool, true, false, ◌≡◌, ◌≢◌, refl,
  ap, [], Option, none, some,
}
use cluster_stack_operator.Api.Conditions.{
  ConditionsApi, ConditionType, ready, cluster_ready, evaluated_cel, helm_chart_found,
  helm_chart_templated, cluster_addon_config_validated, helm_chart_applied, hook_server_ready,
  helm_chart_deleted, provider_cluster_stack_releases_synced, cluster_stack_releases_synced,
  cluster_stack_release_available, cluster_stack_release_assets_ready,
  provider_cluster_stack_release_ready, assets_client_api_available, releases_synced,
}

abbrev pub number : ConditionType → ℕ
number ready = 0
number cluster_ready = 1
number evaluated_cel = 2
number helm_chart_found = 3
number helm_chart_templated = 4
number cluster_addon_config_validated = 5
number helm_chart_applied = 6
number hook_server_ready = 7
number helm_chart_deleted = 8
number provider_cluster_stack_releases_synced = 9
number cluster_stack_releases_synced = 10
number cluster_stack_release_available = 11
number cluster_stack_release_assets_ready = 12
number provider_cluster_stack_release_ready = 13
number assets_client_api_available = 14
number releases_synced = 15

abbrev pub numbered : ℕ → ConditionType
numbered n =
    if n == 0
    then ready
    else if n == 1
    then cluster_ready
    else if n == 2
    then evaluated_cel
    else if n == 3
    then helm_chart_found
    else if n == 4
    then helm_chart_templated
    else if n == 5
    then cluster_addon_config_validated
    else if n == 6
    then helm_chart_applied
    else if n == 7
    then hook_server_ready
    else if n == 8
    then helm_chart_deleted
    else if n == 9
    then provider_cluster_stack_releases_synced
    else if n == 10
    then cluster_stack_releases_synced
    else if n == 11
    then cluster_stack_release_available
    else if n == 12
    then cluster_stack_release_assets_ready
    else if n == 13
    then provider_cluster_stack_release_ready
    else if n == 14
    then assets_client_api_available
    else releases_synced

number_back : (t : ConditionType) → numbered (number t) ≡ t
number_back ready = refl
number_back cluster_ready = refl
number_back evaluated_cel = refl
number_back helm_chart_found = refl
number_back helm_chart_templated = refl
number_back cluster_addon_config_validated = refl
number_back helm_chart_applied = refl
number_back hook_server_ready = refl
number_back helm_chart_deleted = refl
number_back provider_cluster_stack_releases_synced = refl
number_back cluster_stack_releases_synced = refl
number_back cluster_stack_release_available = refl
number_back cluster_stack_release_assets_ready = refl
number_back provider_cluster_stack_release_ready = refl
number_back assets_client_api_available = refl
number_back releases_synced = refl

abbrev pub Table : Type 0
Table = ConditionType → Option Bool

abbrev pub update : Table → ConditionType → Option Bool → Table
update c t e u = if number t == number u then e else c u

abbrev pub is_some_true : Option Bool → Bool
is_some_true (some true) = true
is_some_true _ = false

abbrev pub is_some_false : Option Bool → Bool
is_some_false (some false) = true
is_some_false _ = false

pub update_same : (c : Table) (t : ConditionType) (e : Option Bool) → update c t e t ≡ e
update_same c t e = rw ((==_iff (number t) (number t)).1 refl) refl

pub update_other :
    (c : Table) (t u : ConditionType) (e : Option Bool) → t ≢ u → update c t e u ≡ c u
update_other c t u e n = elim (Bool-cases (number t == number u)) [
  | inl k ↦
      absurd
        (n (sym (number_back t) ∙ ap numbered ((==_iff (number t) (number u)).0 k) ∙ number_back u))
  | inr k ↦ rw k refl
]

abbrev pub table : ConditionsApi
table = record {
  C = Table;
  empty = λ t. none;
  is_true = λ c t. is_some_true (c t);
  is_false = λ c t. is_some_false (c t);
  get_reason = λ c t. [];
  mark_true = λ c t. update c t (some true);
  mark_false = λ c t r s. update c t (some false);
  delete = λ c t. update c t none;
  set_summary = λ c. c;
  true_same = λ c t. ap is_some_true (update_same c t (some true));
  true_other = λ c t u n. ap is_some_true (update_other c t u (some true) n);
  false_same = λ c t r s. ap is_some_true (update_same c t (some false));
  false_other = λ c t u r s n. ap is_some_true (update_other c t u (some false) n);
  marked_true = λ c t. ap is_some_false (update_same c t (some true));
  marked_false = λ c t r s. ap is_some_false (update_same c t (some false));
  marked_true_other = λ c t u n. ap is_some_false (update_other c t u (some true) n);
  marked_false_other = λ c t u r s n. ap is_some_false (update_other c t u (some false) n);
  deleted_same = λ c t. ap is_some_true (update_same c t none);
  deleted_not_false = λ c t. ap is_some_false (update_same c t none);
  deleted_other = λ c t u n. ap is_some_true (update_other c t u none n);
  summary_keeps = λ c t n. refl;
  summary_keeps_false = λ c t n. refl;
}
