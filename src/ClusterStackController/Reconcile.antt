-- ===== src/ClusterStackController/Reconcile.antt =====
-- `Reconcile` of the ClusterStack controller, behind the call that gets the object and up to the patch.
use cluster_stack_operator.Base.{
  not, List, [], ◌∷◌, ◌++◌, Option, none, some, if◌then◌else◌, Result, ok, err,
}
use cluster_stack_operator.Strings.{Text, codes}
use cluster_stack_operator.ClusterStack.{less}
use cluster_stack_operator.Sort.{Sorter}
use cluster_stack_operator.Api.{ClusterStackRelease, ClusterStackReleaseSummary}
use cluster_stack_operator.Api.Conditions
use cluster_stack_operator.Api.Conditions.{ConditionsApi}
use cluster_stack_operator.ClusterStackRelease.{Requeue, no_requeue, after_seconds}
use cluster_stack_operator.ClusterStackController.Diff.{make_diff}
use cluster_stack_operator.ClusterStackController.Select.{
  get_latest_ready_cluster_stack_release, get_latest_release, get_cluster_stack_releases_in_spec,
  used_cluster_classes, get_usable_versions, existing_releases, option_map,
}
use cluster_stack_operator.ClusterStackController.Loops.{
  StackEnv, StackError, list_failed, clusters_failed, name_failed, spec_failed,
  release_delete_failed, usable_failed, Cs, mark_true, mark_false, generate_owner_reference,
  delete_all, Created, create_all,
}

module _ (cond : ConditionsApi) {W S : Type 0} (env : StackEnv W cond.C S) where
  -- The world, the object, and what the loop returns.
  pub record StackOut : Type 0 where
    pub world : W
    pub stack : Cs cond
    pub result : Result StackError Requeue

  abbrev pub returns : W → Cs cond → Result StackError Requeue → StackOut
  returns w stack r = record { world = w; stack = stack; result = r }

  -- The branch for AutoSubscribe returns, or goes on with the latest release.
  pub data Subscribed : Type 0 where
    stops : Cs cond → Requeue → Subscribed
    goes_on : Cs cond → Option Text → Subscribed

  -- A failure to list is marked, and then overwritten.
  abbrev pub after_list : Sorter less → Cs cond → Option (List Text) → Subscribed
  after_list s stack none =
      goes_on
        (mark_true cond Conditions.releases_synced (
          mark_false cond Conditions.releases_synced Conditions.failed_to_sync Conditions.warning
            stack))
        none
  after_list s stack (some releases) =
      goes_on (mark_true cond Conditions.releases_synced stack)
        (get_latest_release s releases stack.spec)

  unfoldable pub subscribe : Sorter less → W → Cs cond → Subscribed
  subscribe s w stack =
      if not stack.spec.auto_subscribe
      then goes_on stack none
      else if env.new_assets_client w
      then stops
          (mark_false cond Conditions.assets_client_api_available
            Conditions.failed_create_assets_client Conditions.error stack)
          (if cond.is_false stack.status.conditions Conditions.assets_client_api_available
            then after_seconds 5
            else no_requeue)
      else after_list s (mark_true cond Conditions.assets_client_api_available stack)
          (env.list_remote w)

  -- The marks and the status behind the loops.
  unfoldable pub mark_synced :
      Cs cond → List ClusterStackReleaseSummary → Option (Text × Text) → Cs cond
  mark_synced stack l latest_ready =
      let synced = mark_true cond Conditions.cluster_stack_releases_synced stack in
      let provided =
        if stack.spec.no_provider
        then synced
        else mark_true cond Conditions.provider_cluster_stack_releases_synced synced in
      let summarized = record provided { status = record provided.status { summary = l } } in
      elim latest_ready [
        | none ↦ summarized
        | some r ↦ mark_true cond Conditions.cluster_stack_release_available (record summarized {
          status = record summarized.status { latest_release = r.0 ++ codes " | " ++ r.1 };
        })
      ]

  -- `strings.Join(usableVersions, ", ")`.
  abbrev pub join_comma : List Text → Text
  join_comma [] = []
  join_comma (v ∷ []) = v
  join_comma (v ∷ u ∷ vs) = v ++ codes ", " ++ join_comma (u ∷ vs)

  unfoldable pub conclude :
      List (ClusterStackRelease cond.C)
      → Option (Text × Text)
      → Cs cond
      → Created cond env
      → StackOut
  conclude existing latest_ready stack (w, err e) = returns w e.0 (err e.1)
  conclude existing latest_ready stack (w, ok l) =
      let marked = mark_synced stack l latest_ready in
      elim (get_usable_versions existing) [
        | err e ↦ returns w marked (err (usable_failed e))
        | ok versions ↦
            returns w
              (record marked {
                status = record marked.status { usable_versions = join_comma versions };
              })
              (ok no_requeue)
      ]

  -- The two loops over the lists of `makeDiff`.
  unfoldable pub sync :
      W
      → Cs cond
      → List (ClusterStackRelease cond.C)
      → Option (Text × Text)
      → List (ClusterStackRelease cond.C) × List (ClusterStackRelease cond.C)
      → StackOut
  sync w stack existing latest_ready (to_create, to_delete) =
      let d = delete_all cond env w to_delete in
      elim d.1 [
        | some name ↦ returns d.0 stack (err (release_delete_failed name))
        | none ↦
            conclude existing latest_ready stack
              (create_all cond env (generate_owner_reference stack) d.0 stack to_create)
      ]

  -- From the branch for AutoSubscribe on.
  unfoldable pub reconcile_diff :
      W
      → Cs cond
      → List (ClusterStackRelease cond.C)
      → Option (Text × Text)
      → Option Text
      → StackOut
  reconcile_diff w stack existing latest_ready latest = elim (env.list_clusters w) [
    | none ↦ returns w stack (err clusters_failed)
    | some clusters ↦ elim (get_cluster_stack_releases_in_spec stack.spec) [
      | err e ↦ returns w stack (err (spec_failed e))
      | ok in_spec ↦ sync w stack existing latest_ready (
          make_diff cond.empty existing latest (option_map (λ r. r.0) latest_ready) in_spec
            (used_cluster_classes clusters))
    ]
  ]

  unfoldable pub reconcile_subscribed :
      W → List (ClusterStackRelease cond.C) → Option (Text × Text) → Subscribed → StackOut
  reconcile_subscribed w existing latest_ready (stops stack q) = returns w stack (ok q)
  reconcile_subscribed w existing latest_ready (goes_on stack latest) =
      reconcile_diff w stack existing latest_ready latest

  -- `Reconcile` without the deferred function.
  unfoldable pub reconcile_body : Sorter less → W → Cs cond → StackOut
  reconcile_body s w stack =
      if stack.deleting then returns w stack (ok no_requeue) else elim (env.list_releases w) [
        | none ↦ returns w stack (err list_failed)
        | some listed ↦
            let existing = existing_releases env.parse_group listed stack in
            elim (get_latest_ready_cluster_stack_release s existing) [
              | err e ↦ returns w stack (err (name_failed e))
              | ok latest_ready ↦ reconcile_subscribed w existing latest_ready (subscribe s w stack)
            ]
      ]

  -- The deferred function, up to the patch.
  unfoldable pub reconcile : Sorter less → W → Cs cond → StackOut
  reconcile s w stack =
      let o = reconcile_body s w stack in
      record o {
        stack = record o.stack {
          status = record o.stack.status {
            conditions = cond.set_summary o.stack.status.conditions;
          };
        };
      }
