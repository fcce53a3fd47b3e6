-- ===== src/ClusterStackRelease.antt =====
-- internal/controller/clusterstackrelease_controller.go: one call of the reconcile loop, behind the call
-- that gets the object.
pub mod Summary
pub mod Ready
pub mod Provider
use cluster_stack_operator.Base.{
  ℕ, Bool, true, false, not, ◌&&◌, List, [], ◌∷◌, ◌++◌, Option, none, some, if◌then◌else◌, Result,
  ok, err,
}
use cluster_stack_operator.Strings.{Text, codes, text_eq, split, join, dash}
use cluster_stack_operator.Version
use cluster_stack_operator.ClusterStack as Stack
use cluster_stack_operator.Api
use cluster_stack_operator.Api.{
  ClusterStackRelease, ClusterStackReleaseSummary, ClusterStackReleasePhase, phase_none,
  downloading_assets, provider_specific_work, applying_objects, Cluster, Resource, member,
}
use cluster_stack_operator.Api.Conditions
use cluster_stack_operator.Api.Conditions.{ConditionsApi, ConditionType, Reason, Severity}
use cluster_stack_operator.Kube.Template.{Document}
use cluster_stack_operator.Kube.Template as Template
use cluster_stack_operator.Kube.Client
use cluster_stack_operator.Kube.Client.{KubeApi}
use cluster_stack_operator.Release.Open.{Files, Release}
use cluster_stack_operator.Release.Open as Open
use cluster_stack_operator.ClusterStackController.Select.{used_cluster_classes}

abbrev pub finalizer : Text
finalizer = codes "clusterstackrelease.clusterstack.x-k8s.io"

-- What the reconcile loop calls; `none` and `true` are errors where nothing else is said.
pub record ReleaseEnv (W : Type 0) : Type 0 where
  pub files : W → Files
  pub release_directory : Text
  -- `AssetsClientFactory.NewClient`, `DownloadReleaseAssets` and `os.RemoveAll`.
  pub new_assets_client : W → Bool
  pub download : W → Text → Text → W × Bool
  pub remove_all : W → Text → W × Bool
  -- The calls of `updateProviderClusterStackRelease`, and the field ready of the provider's object.
  pub update_provider : W → W × Option Bool
  pub list_clusters : W → Option (List Cluster)
  -- `helmTemplate` of a chart, a name and a namespace.
  pub helm_template : W → Text → Text → Text → Option (List Document)

pub data ReconcileError : Type 0 where
  release_failed : Open.Error → ReconcileError
  download_failed provider_failed list_failed template_failed apply_failed delete_failed
        patch_failed :
      ReconcileError

-- `reconcile.Result`: no requeue, at once, or after some seconds.
pub data Requeue : Type 0 where
  no_requeue at_once : Requeue
  after_seconds : ℕ → Requeue

abbrev pub remove_finalizer : List Text → List Text
remove_finalizer [] = []
remove_finalizer (f ∷ l) =
    let rest = remove_finalizer l in if text_eq f finalizer then rest else f ∷ rest

abbrev pub add_finalizer : List Text → List Text
add_finalizer l = if member l finalizer then l else l ++ finalizer ∷ []

-- `splittedName[0:4]`, joined; a name that `release.New` read has at least five parts.
abbrev pub first_four : List Text → List Text
first_four (a ∷ b ∷ c ∷ d ∷ _) = a ∷ b ∷ c ∷ d ∷ []
first_four l = l

module _ (cond : ConditionsApi) where
  abbrev pub Csr : Type 0
  Csr = ClusterStackRelease cond.C

  abbrev pub mark_true : ConditionType → Csr → Csr
  mark_true t csr = record csr {
    status = record csr.status { conditions = cond.mark_true csr.status.conditions t };
  }

  abbrev pub mark_false : ConditionType → Reason → Severity → Csr → Csr
  mark_false t r s csr = record csr {
    status = record csr.status { conditions = cond.mark_false csr.status.conditions t r s };
  }

  module _ {W : Type 0} (env : ReleaseEnv W) (api : KubeApi W) where
    -- The world, the object, and what the loop returns.
    pub record Out : Type 0 where
      pub world : W
      pub csr : Csr
      pub result : Result ReconcileError Requeue

    abbrev pub returns : W → Csr → Result ReconcileError Requeue → Out
    returns w csr r = record { world = w; csr = csr; result = r }

    -- `templateClusterClassHelmChart`.
    unfoldable pub template_chart : W → Release → Csr → Option (List Document)
    template_chart w r csr =
        elim (Open.helm_chart_name_path (env.files w) r
          (Open.cluster_class_chart_name (env.files w) r)) [
            | err _ ↦ none
            | ok path ↦
                env.helm_template w path (join (first_four (split csr.name dash)) dash)
                  csr.namespace
          ]

    -- `downloadReleaseAssets`, and the return that follows it.
    unfoldable pub download_assets : W → Csr → Text → Out
    download_assets w csr path =
        let d = env.download w csr.name path in
        if d.1
        then returns (env.remove_all d.0 path).0 csr (err download_failed)
        else returns d.0 csr (ok at_once)

    -- The branch for a release that is not on disk.
    unfoldable pub download_release : W → Csr → Text → Out
    download_release w csr path =
        let waiting =
          mark_false Conditions.cluster_stack_release_assets_ready
            Conditions.release_assets_not_downloaded_yet Conditions.info csr in
        if env.new_assets_client w
        then returns w
            (mark_false Conditions.assets_client_api_available
              Conditions.failed_create_assets_client Conditions.error waiting)
            (ok (
              if cond.is_false waiting.status.conditions Conditions.assets_client_api_available
              then after_seconds 5
              else no_requeue))
        else download_assets w (mark_true Conditions.assets_client_api_available waiting) path

    abbrev pub after_delete : Csr → W × Bool × Result Template.Error (List Resource) → Out
    after_delete csr (w, _, err _) = returns w csr (err delete_failed)
    after_delete csr (w, true, ok _) = returns w csr (ok (after_seconds 20))
    after_delete csr (w, false, ok _) =
        returns w (record csr { finalizers = remove_finalizer csr.finalizers }) (ok no_requeue)

    abbrev pub delete_unused : W → Release → Csr → Out
    delete_unused w r csr = elim (template_chart w r csr) [
      | none ↦ returns w csr (err template_failed)
      | some t ↦ after_delete csr (Client.delete api t csr.status.resources w)
    ]

    -- `reconcileDelete`.
    unfoldable pub reconcile_delete : W → Release → Csr → Out
    reconcile_delete w r csr = elim (env.list_clusters w) [
      | none ↦ returns w csr (err list_failed)
      | some clusters ↦
          if member (used_cluster_classes clusters) csr.name
          then returns w csr (ok (after_seconds 60))
          else delete_unused w r csr
    ]

    -- What follows the answer of `Apply`.
    unfoldable pub after_apply : Csr → W × Bool × Result Template.Error (List Resource) → Out
    after_apply csr (w, _, err _) =
        returns w
          (mark_false Conditions.helm_chart_applied Conditions.failed_to_apply_objects
            Conditions.error csr)
          (err apply_failed)
    after_apply csr (w, true, ok rs) =
        returns w
          (mark_false Conditions.helm_chart_applied Conditions.objects_applying_ongoing
            Conditions.warning (record csr { status = record csr.status { resources = rs } }))
          (ok (after_seconds 20))
    after_apply csr (w, false, ok rs) =
        let applied =
          mark_true Conditions.helm_chart_applied
            (record csr { status = record csr.status { resources = rs } }) in
        returns w (record applied { status = record applied.status { ready = true } })
          (ok no_requeue)

    -- The end of the loop, from the condition of the provider on.
    unfoldable pub apply_release : W → Release → Csr → Out
    apply_release w r csr =
        let csr' = mark_true Conditions.provider_cluster_stack_release_ready csr in
        if cond.is_true csr'.status.conditions Conditions.helm_chart_applied
        then returns w csr' (ok no_requeue)
        else elim (template_chart w r csr') [
          | none ↦ returns w csr' (err template_failed)
          | some t ↦ after_apply csr' (Client.apply api t csr'.status.resources w)
        ]

    abbrev pub after_provider : Release → Csr → W × Option Bool → Out
    after_provider r csr (w, none) = returns w csr (err provider_failed)
    after_provider r csr (w, some false) =
        returns w
          (mark_false Conditions.provider_cluster_stack_release_ready Conditions.process_ongoing
            Conditions.info csr)
          (ok no_requeue)
    after_provider r csr (w, some true) = apply_release w r csr

    -- A release that is not deleted.
    unfoldable pub reconcile_normal : W → Release → Csr → Out
    reconcile_normal w r csr =
        let csr' = record csr {
          status = record csr.status { kubernetes_version = r.meta.kubernetes };
        } in
        elim csr'.provider_ref [
          | none ↦ apply_release w r csr'
          | some _ ↦ after_provider r csr' (env.update_provider w)
        ]

    -- A release that is on disk.
    unfoldable pub reconcile_present : W → Release → Csr → Out
    reconcile_present w r csr = elim (Open.check_helm_charts (env.files w) r) [
      | some _ ↦
          returns w
            (mark_false Conditions.cluster_stack_release_assets_ready
              Conditions.issue_with_release_assets Conditions.error csr)
            (ok no_requeue)
      | none ↦
          let csr' = mark_true Conditions.cluster_stack_release_assets_ready csr in
          if csr'.deleting then reconcile_delete w r csr' else reconcile_normal w r csr'
    ]

    -- `Reconcile`, from the finalizer on, without the deferred function.
    unfoldable pub reconcile_body : W → Csr → Out
    reconcile_body w csr =
        let csr' = record csr { finalizers = add_finalizer csr.finalizers } in
        elim (Open.new (env.files w) csr'.name env.release_directory) [
          | err e ↦
              returns w
                (mark_false Conditions.cluster_stack_release_assets_ready
                  Conditions.issue_with_release_assets Conditions.error csr')
                (err (release_failed e))
          | ok opened ↦
              if opened.1
              then download_release w csr' opened.0.local_download_path
              else reconcile_present w opened.0 csr'
        ]

    -- The deferred function, up to the patch.
    unfoldable pub finish : Out → Out
    finish o =
        let csr = record o.csr {
          status = record o.csr.status { conditions = cond.set_summary o.csr.status.conditions };
        } in
        if csr.deleting
          && cond.is_false csr.status.conditions Conditions.cluster_stack_release_assets_ready
        then record o { csr = record csr { finalizers = remove_finalizer csr.finalizers } }
        else record o { csr = csr }

    -- `Reconcile`: the object that is patched.
    unfoldable pub reconcile : W → Csr → Out
    reconcile w csr = finish (reconcile_body w csr)
