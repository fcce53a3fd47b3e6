-- ===== src/ClusterStackRelease/Ready.antt =====
-- When a release becomes ready.
use cluster_stack_operator.Base.{
  if◌then◌else◌, Bool, true, false, ◌&&◌, ◌≡◌, ◌⊎◌, refl, ◌∙◌, List, Option, none, some, All,
  Bool-cases, Option-cases, Result-cases, inl, inr, Result, ok, err,
}
use cluster_stack_operator.Strings.{Text}
use cluster_stack_operator.Api.{member, Resource}
use cluster_stack_operator.Api.Conditions
use cluster_stack_operator.Api.Conditions.{ConditionsApi}
use cluster_stack_operator.Kube.Template.{Document}
use cluster_stack_operator.Kube.Template as Template
use cluster_stack_operator.Kube.Client
use cluster_stack_operator.Kube.Client.{KubeApi}
use cluster_stack_operator.Kube.Settled.{Synced}
use cluster_stack_operator.Kube.Applied.{apply_settled}
use cluster_stack_operator.Release.Open.{Release}
use cluster_stack_operator.Release.Open as Open
use cluster_stack_operator.ClusterStackRelease.{
  used_cluster_classes, ReleaseEnv, no_requeue, Csr, Out, template_chart, download_assets,
  download_release, after_delete, delete_unused, reconcile_delete, after_apply, apply_release,
  after_provider, reconcile_normal, reconcile_present, reconcile_body, finish, reconcile, mark_true,
  add_finalizer,
}

module _ (cond : ConditionsApi) {W : Type 0} (env : ReleaseEnv W) (api : KubeApi W) where
  -- The objects of a release are applied: its resources are synced, the condition says so, and no
  -- further round is asked for.
  pub record IsApplied (o : Out cond env api) : Type 0 where
    pub all_synced : All Synced o.csr.status.resources
    pub condition_true : cond.is_true o.csr.status.conditions Conditions.helm_chart_applied ≡ true
    pub settled : o.result ≡ ok no_requeue

  Good : Out cond env api → Type 0
  Good o = (o.csr.status.ready ≡ false) ⊎ IsApplied o

  after_apply-Good :
      (csr : Csr cond) (t : List Document) (old : List Resource) (w : W)
      (a : W × Bool × Result Template.Error (List Resource))
      → csr.status.ready ≡ false
      → Client.apply api t old w ≡ a
      → Good (after_apply cond env api csr a)
  unfolding Good after_apply
  after_apply-Good csr t old w (w', b, err e) h k = inl h
  after_apply-Good csr t old w (w', true, ok rs) h k = inl h
  after_apply-Good csr t old w (w', false, ok rs) h k =
      let (objs, p, n, s) = apply_settled api t old rs w w' k in
      inr (record {
        all_synced = s;
        condition_true = cond.true_same csr.status.conditions Conditions.helm_chart_applied;
        settled = refl;
      })

  apply_release-Good :
      (w : W) (r : Release) (csr : Csr cond)
      → csr.status.ready ≡ false
      → Good (apply_release cond env api w r csr)
  unfolding Good apply_release
  apply_release-Good w r csr h =
      let csr' = mark_true cond Conditions.provider_cluster_stack_release_ready csr in
      elim (Bool-cases (cond.is_true csr'.status.conditions Conditions.helm_chart_applied)) [
        | inl e ↦ rw (e, apply_release) (inl h)
        | inr e ↦ elim (Option-cases (template_chart cond env api w r csr')) [
          | inl k ↦ rw (e, apply_release, k) (inl h)
          | inr (t, k) ↦
              rw (e, apply_release, k) (after_apply-Good csr' t csr'.status.resources w _ h refl)
        ]
      ]

  after_provider-Good :
      (r : Release) (csr : Csr cond) (a : W × Option Bool)
      → csr.status.ready ≡ false
      → Good (after_provider cond env api r csr a)
  unfolding Good
  after_provider-Good r csr (w, none) h = inl h
  after_provider-Good r csr (w, some false) h = inl h
  after_provider-Good r csr (w, some true) h = apply_release-Good w r csr h

  normal-Good :
      (w : W) (r : Release) (csr : Csr cond)
      → csr.status.ready ≡ false
      → Good (reconcile_normal cond env api w r csr)
  unfolding reconcile_normal
  normal-Good w r csr h =
      let csr' = record csr {
        status = record csr.status { kubernetes_version = r.meta.kubernetes };
      } in
      elim (Option-cases csr.provider_ref) [
        | inl e ↦ rw (e, reconcile_normal) (apply_release-Good w r csr' h)
        | inr (p, e) ↦
            rw (e, reconcile_normal) (after_provider-Good r csr' (env.update_provider w) h)
      ]

  after_delete-Good :
      (csr : Csr cond) (a : W × Bool × Result Template.Error (List Resource))
      → csr.status.ready ≡ false
      → Good (after_delete cond env api csr a)
  unfolding Good
  after_delete-Good csr (w, b, err e) h = inl h
  after_delete-Good csr (w, true, ok rs) h = inl h
  after_delete-Good csr (w, false, ok rs) h = inl h

  delete-Good :
      (w : W) (r : Release) (csr : Csr cond)
      → csr.status.ready ≡ false
      → Good (reconcile_delete cond env api w r csr)
  unfolding Good reconcile_delete
  delete-Good w r csr h = elim (Option-cases (env.list_clusters w)) [
    | inl e ↦ rw (e, reconcile_delete) (inl h)
    | inr (l, e) ↦ elim (Bool-cases (member (used_cluster_classes l) csr.name)) [
      | inl u ↦ rw (e, reconcile_delete, u) (inl h)
      | inr u ↦ elim (Option-cases (template_chart cond env api w r csr)) [
        | inl k ↦ rw (e, reconcile_delete, u, delete_unused, k) (inl h)
        | inr (t, k) ↦
            rw (e, reconcile_delete, u, delete_unused, k)
              (after_delete-Good csr (Client.delete api t csr.status.resources w) h)
      ]
    ]
  ]

  if_Good : (b : Bool) (x y : Out cond env api) → Good x → Good y → Good (if b then x else y)
  if_Good true x y h k = h
  if_Good false x y h k = k

  present-Good :
      (w : W) (r : Release) (csr : Csr cond)
      → csr.status.ready ≡ false
      → Good (reconcile_present cond env api w r csr)
  unfolding Good reconcile_present reconcile_delete Client.delete template_chart
      Open.helm_chart_name_path member
      cluster_stack_operator.ClusterStackController.Select.used_cluster_classes
  present-Good w r csr h = elim (Option-cases (Open.check_helm_charts (env.files w) r)) [
    | inr (x, e) ↦ rw (e, reconcile_present) (inl h)
    | inl e ↦
        let csr' = mark_true cond Conditions.cluster_stack_release_assets_ready csr in
        rw (e, reconcile_present)
          (if_Good csr.deleting (reconcile_delete cond env api w r csr')
            (reconcile_normal cond env api w r csr') (delete-Good w r csr' h)
            (normal-Good w r csr' h))
  ]

  download-Good :
      (w : W) (csr : Csr cond) (path : Text)
      → csr.status.ready ≡ false
      → Good (download_release cond env api w csr path)
  unfolding Good download_release download_assets
  download-Good w csr path h = elim (Bool-cases (env.new_assets_client w)) [
    | inl e ↦ rw (e, download_release) (inl h)
    | inr e ↦ elim (Bool-cases (env.download w csr.name path).1) [
      | inl d ↦ rw (e, download_release, download_assets, d) (inl h)
      | inr d ↦ rw (e, download_release, download_assets, d) (inl h)
    ]
  ]

  body-Good :
      (w : W) (csr : Csr cond) → csr.status.ready ≡ false → Good (reconcile_body cond env api w csr)
  unfolding Good reconcile_body
  body-Good w csr h =
      let csr' = record csr { finalizers = add_finalizer csr.finalizers } in
      elim (Result-cases (Open.new (env.files w) csr.name env.release_directory)) [
        | inl (x, e) ↦ rw (e, reconcile_body) (inl h)
        | inr ((r, b), e) ↦
            rw (e, reconcile_body)
              (if_Good b (download_release cond env api w csr' r.local_download_path)
                (reconcile_present cond env api w r csr')
                (download-Good w csr' r.local_download_path h) (present-Good w r csr' h))
      ]

  finish-IsApplied : (o : Out cond env api) → IsApplied o → IsApplied (finish cond env api o)
  unfolding finish
  finish-IsApplied o a =
      let c = cond.set_summary o.csr.status.conditions in
      let k : cond.is_true c Conditions.helm_chart_applied ≡ true =
        cond.summary_keeps o.csr.status.conditions Conditions.helm_chart_applied (λ z. cc)
        ∙ a.condition_true in
      elim (Bool-cases
        (o.csr.deleting && cond.is_false c Conditions.cluster_stack_release_assets_ready)) [
          | inl e ↦
              rw (e, finish)
                (record { all_synced = a.all_synced; condition_true = k; settled = a.settled })
          | inr e ↦
              rw (e, finish)
                (record { all_synced = a.all_synced; condition_true = k; settled = a.settled })
        ]

  finish_ready :
      (o : Out cond env api) → (finish cond env api o).csr.status.ready ≡ o.csr.status.ready
  unfolding finish
  finish_ready o =
      elim (Bool-cases (
        o.csr.deleting
        && cond.is_false (cond.set_summary o.csr.status.conditions)
            Conditions.cluster_stack_release_assets_ready)) [
              | inl e ↦ rw (e, finish) refl
              | inr e ↦ rw (e, finish) refl
            ]

  -- If a call of `Reconcile` makes a release ready that was not, then the resources in its status are
  -- all synced, the condition that the Helm chart is applied is true, and the call returns no error and
  -- asks for no further round.
  pub reconcile_ready-IsApplied :
      (w : W) (csr : Csr cond)
      → csr.status.ready ≡ false
      → (reconcile cond env api w csr).csr.status.ready ≡ true
      → IsApplied (reconcile cond env api w csr)
  unfolding reconcile Good
  reconcile_ready-IsApplied w csr h k = elim (body-Good w csr h) [
    | inl e ↦ absurd (cc (finish_ready (reconcile_body cond env api w csr), e, k))
    | inr a ↦ finish-IsApplied (reconcile_body cond env api w csr) a
  ]
