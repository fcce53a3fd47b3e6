-- ===== src/Extension/Once.antt =====
-- The hook server patches an addon at most once for each name, namespace and class of a cluster.
use cluster_stack_operator.Base.{
  ◌⊎◌, ok_inj, sym, ◌≡◌, ◌∙◌, refl, arith, true, false, List, [], ◌∷◌, none, some, Option-cases,
  Result-cases, inl, inr, Result, ok, err, some_inj,
}
use cluster_stack_operator.Strings.{Text, text_eq}
use cluster_stack_operator.Strings.Order.{text_eq→eq, text_eq_refl}
use cluster_stack_operator.Api.{Cluster, Topology}
use cluster_stack_operator.Api.Conditions.{ConditionsApi}
use cluster_stack_operator.Kube.Template.{set_key, delete_key}
use cluster_stack_operator.ClusterAddon.{ClusterAddon, lookup}
use cluster_stack_operator.Extension.{
  before_cluster_upgrade_hook, HandlerEnv, Handled, Call, panics, returns, addon_name,
  get_hook_record_key, has_already_patched_cluster_addon, conclude, upgrade_addon, patch_hook,
  do_before_cluster_upgrade, do_after_control_plane_initialized, serve, fresh, Response, Status,
  success, failure,
}

lookup-delete_other :
    (m : List (Text × Text)) (k k' : Text)
    → text_eq k' k ≡ false
    → lookup (delete_key m k') k ≡ lookup m k
lookup-delete_other [] k k' h = refl
lookup-delete_other ((q, v) ∷ m) k k' h =
    ground (arith, lookup-delete_other m k k' h, text_eq→eq q k, text_eq→eq q k', text_eq_refl k)

-- The key is recorded with the hook.
abbrev IsRecorded : Text → List (Text × Text) → Type 0
IsRecorded k m = has_already_patched_cluster_addon m k before_cluster_upgrade_hook ≡ true

set_key-IsRecorded :
    (m : List (Text × Text)) (k : Text) → IsRecorded k (set_key m k before_cluster_upgrade_hook)
unfolding has_already_patched_cluster_addon
set_key-IsRecorded m k = ground (arith, text_eq_refl k, text_eq_refl before_cluster_upgrade_hook)

set_key-IsRecorded_stays :
    (m : List (Text × Text)) (k k' : Text)
    → IsRecorded k m
    → IsRecorded k (set_key m k' before_cluster_upgrade_hook)
unfolding has_already_patched_cluster_addon
set_key-IsRecorded_stays m k k' h =
    ground (arith, text_eq_refl before_cluster_upgrade_hook, lookup-delete_other m k k')

module _ (cond : ConditionsApi) {W : Type 0} (env : HandlerEnv W cond.C) where
  module _ (w : W) (m : List (Text × Text)) (key : Text) (addon : ClusterAddon cond.C)
      (response : Response) (h : Handled W)
      (returned : upgrade_addon cond env w m key addon response ≡ returns h) where
    -- A recorded key: nothing is patched.
    upgrade-IsRecorded : IsRecorded key m → h.world ≡ w
    unfolding upgrade_addon conclude
    upgrade-IsRecorded r = ground (arith, r)

    -- The record only grows.
    upgrade_keeps : (k : Text) → IsRecorded k m → IsRecorded k h.hook_record
    unfolding upgrade_addon conclude patch_hook
    upgrade_keeps k r = ground (arith, set_key-IsRecorded_stays m k key r)

    -- An addon with another hook is recorded afterwards.
    upgrade_records :
        text_eq addon.hook before_cluster_upgrade_hook ≡ false → IsRecorded key h.hook_record
    unfolding upgrade_addon conclude patch_hook
    upgrade_records other = ground (arith, set_key-IsRecorded m key)

    upgrade_succeeds : h.response.status ≡ success
    unfolding upgrade_addon conclude patch_hook
    upgrade_succeeds = ground arith

  -- A call that returns found no addon, or found one and goes on with it.
  data Served (w : W) (m : List (Text × Text)) (cluster : Cluster) (response : Response)
      (h : Handled W) : Type 0 where
    not_found :
        (e : Text)
        → env.get w cluster.namespace (addon_name cluster.name) ≡ err e
        → h.world ≡ w
        → h.hook_record ≡ m
        → h.response.status ≡ failure
        → Served w m cluster response h
    found :
        (addon : ClusterAddon cond.C) (t : Topology)
        → env.get w cluster.namespace (addon_name cluster.name) ≡ ok addon
        → cluster.topology ≡ some t
        → upgrade_addon cond env w m
            (get_hook_record_key cluster.name cluster.namespace t.class)
            addon
            response
          ≡ returns h
        → Served w m cluster response h

  module _ (w : W) (m : List (Text × Text)) (cluster : Cluster) (response : Response)
      (h : Handled W)
      (returned : do_before_cluster_upgrade cond env w m cluster response ≡ returns h) where
    call-Served : Served w m cluster response h
    unfolding do_before_cluster_upgrade
    call-Served = elim (Result-cases (env.get w cluster.namespace (addon_name cluster.name))) [
      | inl (e, missing) ↦
          not_found e missing (ground (arith, missing)) (ground (arith, missing))
            (ground (arith, missing))
      | inr (addon, here) ↦ elim (Option-cases cluster.topology) [
        | inl absent ↦ absurd (ground (arith, here, absent))
        | inr (t, present) ↦ found addon t here present (ground (arith, here, present))
      ]
    ]

    call_keeps : (k : Text) → IsRecorded k m → IsRecorded k h.hook_record
    call_keeps k r = elim call-Served [
      | not_found e missing same_world same_record failed ↦ ground (arith, r, same_record)
      | found addon t here present goes_on ↦
          upgrade_keeps w m (get_hook_record_key cluster.name cluster.namespace t.class) addon
            response h goes_on k r
    ]

    module _ (t : Topology) (topology : cluster.topology ≡ some t) where
      abbrev key : Text
      key = get_hook_record_key cluster.name cluster.namespace t.class

      call-IsRecorded : IsRecorded key m → h.world ≡ w
      call-IsRecorded r = elim call-Served [
        | not_found e missing same_world same_record failed ↦ same_world
        | found addon t' here present goes_on ↦
            upgrade-IsRecorded w m key addon response h
              (rw (some_inj (sym topology ∙ present)) goes_on) r
      ]

      call_records :
          (addon : ClusterAddon cond.C)
          → env.get w cluster.namespace (addon_name cluster.name) ≡ ok addon
          → text_eq addon.hook before_cluster_upgrade_hook ≡ false
          → IsRecorded key h.hook_record
      call_records addon got other = elim call-Served [
        | not_found e missing same_world same_record failed ↦ absurd (cc (got, missing))
        | found addon' t' here present goes_on ↦
            upgrade_records w m key addon response h
              (rw (some_inj (sym topology ∙ present), ok_inj (sym got ∙ here)) goes_on) other
      ]

  serve_keeps :
      (cs : List Cluster) (w w' : W) (m m' : List (Text × Text)) (k : Text)
      → serve cond env cs (w, m) ≡ some (w', m')
      → IsRecorded k m
      → IsRecorded k m'
  unfolding serve
  serve_keeps [] w w' m m' k e r = ground (arith, e, r)
  serve_keeps (c ∷ cs) w w' m m' k e r =
      go (λ h. serve_keeps cs h.world w' h.hook_record m' k)
        (do_before_cluster_upgrade cond env w m c (fresh cond env)) refl e
    where
      go :
          ((h : Handled W)
            → serve cond env cs (h.world, h.hook_record) ≡ some (w', m')
            → IsRecorded k h.hook_record
            → IsRecorded k m')
          → (o : Call W) → do_before_cluster_upgrade cond env w m c (fresh cond env) ≡ o
          → elim o [ panics ↦ none | returns h ↦ serve cond env cs (h.world, h.hook_record) ]
            ≡ some (w', m')
          → IsRecorded k m'
      go again panics f e' = absurd (cc e')
      go again (returns h) f e' = again h e' (call_keeps w m c (fresh cond env) h f k r)

  module _ (w w' : W) (m m' : List (Text × Text)) (cluster cluster' : Cluster) (t t' : Topology)
      (response response' : Response) (addon : ClusterAddon cond.C) (h h' : Handled W)
      (cs : List Cluster) where
    -- After a call of `DoBeforeClusterUpgrade` that returns, for a cluster whose addon has another hook,
    -- whatever the API server answered to a patch, and whatever further calls of this hook were served
    -- then, no call of it that returns and is for a cluster of the same name, namespace and class writes
    -- to the API server, although it may find another hook again.
    pub patched_once :
        cluster.topology ≡ some t
        → cluster'.topology ≡ some t'
        → cluster'.name ≡ cluster.name
        → cluster'.namespace ≡ cluster.namespace
        → t'.class ≡ t.class
        → env.get w cluster.namespace (addon_name cluster.name) ≡ ok addon
        → text_eq addon.hook before_cluster_upgrade_hook ≡ false
        → do_before_cluster_upgrade cond env w m cluster response ≡ returns h
        → serve cond env cs (h.world, h.hook_record) ≡ some (w', m')
        → do_before_cluster_upgrade cond env w' m' cluster' response' ≡ returns h'
        → h'.world ≡ w'
    patched_once topology topology' same_name same_namespace same_class got other first between
          later =
        call-IsRecorded w' m' cluster' response' h' later t' topology' (
          rw (same_name, same_namespace, same_class)
            (serve_keeps cs h.world w' h.hook_record m'
              (get_hook_record_key cluster.name cluster.namespace t.class) between
              (call_records w m cluster response h first t topology addon got other)))

  -- The status that the answer of `Get` gives.
  abbrev pub status_of : Result Text (ClusterAddon cond.C) → Status
  status_of (err _) = failure
  status_of (ok _) = success

  -- Both hooks that read an addon answer a failure exactly if they do not find it: a patch that fails is
  -- answered with success.
  pub hook_status :
      (w : W) (m : List (Text × Text)) (cluster : Cluster) (response : Response) (h : Handled W)
      → (do_before_cluster_upgrade cond env w m cluster response ≡ returns h)
        ⊎ (do_after_control_plane_initialized cond env w m cluster response ≡ returns h)
      → h.response.status ≡ status_of (env.get w cluster.namespace (addon_name cluster.name))
  unfolding do_before_cluster_upgrade do_after_control_plane_initialized patch_hook
  hook_status w m cluster response h (inl e) = elim (call-Served w m cluster response h e) [
    | not_found x missing same_world same_record failed ↦ ground (arith, missing, failed)
    | found addon t here present goes_on ↦ ground (
      arith,
      here,
      upgrade_succeeds w m (get_hook_record_key cluster.name cluster.namespace t.class) addon
          response h goes_on,
    )
  ]
  hook_status w m cluster response h (inr e) = ground (arith, e)
