-- ===== src/ClusterStackController/Loops.antt =====
-- The calls of the ClusterStack controller, and the loops of `Reconcile` over the lists of `makeDiff`.
use cluster_stack_operator.Base.{
  Bool, true, false, List, [], ◌∷◌, Option, none, some, if◌then◌else◌, Result, ok, err,
}
use cluster_stack_operator.Strings.{Text}
use cluster_stack_operator.Version
use cluster_stack_operator.ClusterStack as Stack
use cluster_stack_operator.Api.{
  ClusterStackRelease, ClusterStackReleaseSummary, ClusterStack, Cluster, OwnerReference,
  ObjectReference,
}
use cluster_stack_operator.Api.Conditions
use cluster_stack_operator.Api.Conditions.{ConditionsApi, ConditionType, Reason, Severity}
use cluster_stack_operator.ClusterStackRelease.Summary.{summary}
use cluster_stack_operator.ClusterStackController.Diff.{named}
use cluster_stack_operator.ClusterStackController.Provider.{
  ProviderEnv, ProviderError, provider_not_found, no_reference, create_or_update_provider,
}

-- The answers of a read by name, and of a deletion.
pub data Got : Type 0 where
  exists absent get_failed : Got

pub data Deleted : Type 0 where
  deleted already_gone delete_failed : Deleted

-- What the reconcile loop calls; `none` and `true` are errors where nothing else is said. The
-- namespace is that of the cluster stack.
pub record StackEnv (W C S : Type 0) : Type 0 where
  pub provider : ProviderEnv W S
  pub list_releases : W → Option (List (ClusterStackRelease C))
  pub list_clusters : W → Option (List Cluster)
  pub get_release : W → Text → Got
  pub create_release : W → ClusterStackRelease C → W × Bool
  pub delete_release : W → Text → W × Deleted
  -- `AssetsClientFactory.NewClient` and `ListRelease`.
  pub new_assets_client : W → Bool
  pub list_remote : W → Option (List Text)
  -- `schema.ParseGroupVersion`.
  pub parse_group : Text → Option Text

pub data StackError : Type 0 where
  list_failed clusters_failed : StackError
  name_failed spec_failed summary_failed : Stack.Error → StackError
  release_delete_failed release_create_failed : Text → StackError
  provider_error : Text → ProviderError → StackError
  usable_failed : Version.Error → StackError

-- `generateOwnerReference`.
unfoldable pub generate_owner_reference : {C : Type 0} → ClusterStack C → OwnerReference
generate_owner_reference stack = record {
  api_version = stack.api_version;
  kind = stack.kind;
  name = stack.name;
  uid = stack.uid;
}

module _ (cond : ConditionsApi) where
  abbrev pub Cs : Type 0
  Cs = ClusterStack cond.C

  abbrev pub mark_true : ConditionType → Cs → Cs
  mark_true t stack = record stack {
    status = record stack.status { conditions = cond.mark_true stack.status.conditions t };
  }

  abbrev pub mark_false : ConditionType → Reason → Severity → Cs → Cs
  mark_false t r s stack = record stack {
    status = record stack.status { conditions = cond.mark_false stack.status.conditions t r s };
  }

  module _ {W S : Type 0} (env : StackEnv W cond.C S) where
    -- The loop over `toDelete`: an object that is gone is no error.
    unfoldable pub delete_all : W → List (ClusterStackRelease cond.C) → W × Option Text
    delete_all w [] = (w, none)
    delete_all w (csr ∷ l) =
        let d = env.delete_release w csr.name in
        elim d.1 [
          | delete_failed ↦ (d.0, some csr.name)
          | deleted ↦ delete_all d.0 l
          | already_gone ↦ delete_all d.0 l
        ]

    abbrev pub new_release :
        Text → Text → OwnerReference → Option ObjectReference → ClusterStackRelease cond.C
    new_release name namespace owner provider = record (named cond.empty name) {
      namespace = namespace;
      owner_references = owner ∷ [];
      provider_ref = provider;
    }

    abbrev pub after_get : W → ClusterStackRelease cond.C → Got → W × Bool
    after_get w csr exists = (w, false)
    after_get w csr get_failed = (w, true)
    after_get w csr absent = env.create_release w csr

    -- `getOrCreateClusterStackRelease`; `true` is an error.
    unfoldable pub get_or_create_cluster_stack_release :
        W → Text → Text → OwnerReference → Option ObjectReference → W × Bool
    get_or_create_cluster_stack_release w name namespace owner provider =
        after_get w (new_release name namespace owner provider) (env.get_release w name)

    abbrev pub provided :
        W × Result ProviderError ObjectReference → W × Result ProviderError (Option ObjectReference)
    provided (w, ok ref) = (w, ok (some ref))
    provided (w, err e) = (w, err e)

    -- The provider's object of a release, unless the cluster stack has no provider.
    unfoldable pub provider_step : W → Text → Cs → W × Result ProviderError (Option ObjectReference)
    provider_step w name stack =
        if stack.spec.no_provider
        then (w, ok none)
        else provided (create_or_update_provider env.provider w name stack)

    -- A panic marks nothing.
    abbrev pub mark_provider : ProviderError → Cs → Cs
    mark_provider provider_not_found =
        mark_false Conditions.provider_cluster_stack_releases_synced
          Conditions.provider_template_not_found Conditions.error
    mark_provider no_reference = λ stack. stack
    mark_provider _ =
        mark_false Conditions.provider_cluster_stack_releases_synced
          Conditions.failed_to_create_or_update Conditions.warning

    -- The body of the loop over `toCreate`, behind the summary.
    unfoldable pub create_one : OwnerReference → W → Cs → Text → W × Option (Cs × StackError)
    create_one owner w stack name =
        let p = provider_step w name stack in
        elim p.1 [
          | err e ↦ (p.0, some (mark_provider e stack, provider_error name e))
          | ok ref ↦
              let c = get_or_create_cluster_stack_release p.0 name stack.namespace owner ref in
              if c.1
              then (
                c.0,
                some (
                  mark_false Conditions.cluster_stack_releases_synced
                      Conditions.failed_to_create_or_update Conditions.warning stack,
                  release_create_failed name,
                ),
              )
              else (c.0, none)
        ]

    -- The world after the loop over `toCreate`, and the summary, or the object and the error.
    abbrev pub Created : Type 0
    Created = W × Result (Cs × StackError) (List ClusterStackReleaseSummary)

    abbrev pub add_summary : ClusterStackReleaseSummary → Created → Created
    add_summary s (w, ok l) = (w, ok (s ∷ l))
    add_summary s (w, err e) = (w, err e)

    unfoldable pub create_all :
        OwnerReference → W → Cs → List (ClusterStackRelease cond.C) → Created
    create_all owner w stack [] = (w, ok [])
    create_all owner w stack (csr ∷ l) = elim (summary cond csr) [
      | err e ↦ (w, err (stack, summary_failed e))
      | ok s ↦
          let c = create_one owner w stack csr.name in
          elim c.1 [ some e ↦ (c.0, err e) | none ↦ add_summary s (create_all owner c.0 stack l) ]
    ]
