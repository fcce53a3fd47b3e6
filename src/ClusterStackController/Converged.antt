-- ===== src/ClusterStackController/Converged.antt =====
-- What a pass of the reconcile loop of a cluster stack leaves on the API server.
use mathlib.Core.Path.{subst}
use cluster_stack_operator.Base.{
  ap, sym, ◌∙◌, ◌≡◌, ◌≢◌, refl, arith, Bool, true, false, not, ◌&&◌, ◌||◌, List, Option, some, ok,
  err, Option-cases, inl, inr,
}
use cluster_stack_operator.Strings.{Text}
use cluster_stack_operator.ClusterStack.{less}
use cluster_stack_operator.Sort.{Sorter}
use cluster_stack_operator.Api.{ClusterStackRelease, Cluster, member}
use cluster_stack_operator.Api.Conditions.{ConditionsApi}
use cluster_stack_operator.ClusterStackRelease.{Requeue}
use cluster_stack_operator.ClusterStackController.Diff.{is_name, make_diff, has_name}
use cluster_stack_operator.ClusterStackController.Wanted.{make_diff_creates, make_diff_deletes}
use cluster_stack_operator.ClusterStackController.Select.{
  get_latest_ready_cluster_stack_release, get_cluster_stack_releases_in_spec, used_cluster_classes,
  existing_releases, option_map,
}
use cluster_stack_operator.ClusterStackController.Loops.{
  StackEnv, Cs, delete_all, create_all, generate_owner_reference, Created,
}
use cluster_stack_operator.ClusterStackController.Reconcile.{
  sync, conclude, subscribe, goes_on, reconcile_diff, reconcile_body, reconcile,
  reconcile_subscribed,
}
use cluster_stack_operator.ClusterStackController.Names.{
  ReleaseStore, Presence, live, ensured, made, Deletes, create_all_presence, delete_all_presence,
}

-- The contract: the names that a cluster stack wants, of the ones that exist and belong to it.
abbrev pub wanted :
    {C : Type 0}
    → List (ClusterStackRelease C)
    → Option Text
    → Option Text
    → List Text
    → List Text
    → Text
    → Bool
wanted existing latest latest_ready in_spec in_use n =
    is_name latest n
    || member in_spec n
    || (has_name n existing && (is_name latest_ready n || member in_use n))

-- The contract of a pass for a release, by whether it is wanted, and whether it exists and belongs to the
-- cluster stack: a wanted one is there, an unwanted one is deleted, and all others are left.
abbrev pub Follows : Bool → Bool → Presence → Presence → Type 0
Follows true existing p p' = p' ≡ ensured p
Follows false true p p' = p' ≢ live
Follows false false p p' = p' ≡ p

module _ (cond : ConditionsApi) {W S : Type 0} (env : StackEnv W cond.C S) where
  pub subscribe_spec :
      (s : Sorter less) (w : W) (stack stack' : Cs cond) (latest : Option Text)
      → subscribe cond env s w stack ≡ goes_on stack' latest
      → stack'.spec ≡ stack.spec
  unfolding subscribe
  subscribe_spec s w stack stack' latest h = ground arith

  pub subscribe_namespace :
      (s : Sorter less) (w : W) (stack stack' : Cs cond) (latest : Option Text)
      → subscribe cond env s w stack ≡ goes_on stack' latest
      → stack'.namespace ≡ stack.namespace
  unfolding subscribe
  subscribe_namespace s w stack stack' latest h = ground arith

module _ (cond : ConditionsApi) {W S : Type 0} (env : StackEnv W cond.C S)
    (store : ReleaseStore env) (n : Text) where
  -- Without an error the world is that of the loop, and the loop made a summary.
  conclude_ok :
      (existing : List (ClusterStackRelease cond.C)) (latest_ready : Option (Text × Text))
      (stack : Cs cond) (c : Created cond env) (q : Requeue)
      → (conclude cond env existing latest_ready stack c).result ≡ ok q
      → ((sums : _) × (c.1 ≡ ok sums))
        × ((conclude cond env existing latest_ready stack c).world ≡ c.0)
  unfolding conclude
  conclude_ok existing latest_ready stack (w, err e) q h = absurd (cc h)
  conclude_ok existing latest_ready stack (w, ok l) q h = ((l, refl), ground arith)

  sync_presence :
      (w : W) (stack : Cs cond) (existing : List (ClusterStackRelease cond.C))
      (latest_ready : Option (Text × Text))
      (d : List (ClusterStackRelease cond.C) × List (ClusterStackRelease cond.C)) (q : Requeue)
      → (sync cond env w stack existing latest_ready d).result ≡ ok q
      → (p : Presence) × Deletes cond env store n (has_name n d.1) (store.presence w n) p
        × (store.presence (sync cond env w stack existing latest_ready d).world n
            ≡ made (has_name n d.0) p)
  unfolding sync
  sync_presence w stack existing latest_ready (to_create, to_delete) q h =
      elim (Option-cases (delete_all cond env w to_delete).1) [
        | inr (name, bad) ↦ absurd (ground (arith, bad))
        | inl good ↦
            let owner = generate_owner_reference stack in
            let w' = (delete_all cond env w to_delete).0 in
            let c = create_all cond env owner w' stack to_create in
            let ((sums, all_made), same) =
              conclude_ok existing latest_ready stack c q (ground (arith, good)) in
            (
              store.presence w' n,
              delete_all_presence cond env store n w to_delete good,
              ground (
                arith,
                good,
                ap (λ x. store.presence x n) same,
                create_all_presence cond env store n owner w' stack to_create sums all_made,
              ),
            )
      ]

  follows :
      (wants exists_here creates deletes : Bool) (p p' : Presence)
      → creates ≡ wants
      → deletes ≡ (exists_here && not wants)
      → Deletes cond env store n deletes p p'
      → Follows wants exists_here p (made creates p')
  follows true true creates deletes p p' e f h = rw e (ap ensured (rw f at h))
  follows true false creates deletes p p' e f h = rw e (ap ensured (rw f at h))
  follows false true creates deletes p p' e f h = rw e (rw f at h)
  follows false false creates deletes p p' e f h = rw e (rw f at h)

  module _ (s : Sorter less) (w : W) (stack stack' : Cs cond)
      (listed : List (ClusterStackRelease cond.C)) (latest_ready : Option (Text × Text))
      (latest : Option Text) (clusters : List Cluster) (in_spec : List Text) (q : Requeue) where
    -- On an API server whose reads find only objects that are there, that creates no object over another
    -- one, where an object that is deleted is gone or waits for its finalizer, and where no call changes
    -- other releases: after a pass over a cluster stack that is not deleted, that does not stop at the
    -- assets client and that returns no error, every release that the cluster stack wants is there, as it
    -- was before or new; every existing one of this cluster stack that it does not want is gone or waits
    -- for its finalizer; and every other release is as before.
    pub reconcile-wanted :
        stack.deleting ≡ false
        → env.list_releases w ≡ some listed
        → get_latest_ready_cluster_stack_release s (existing_releases env.parse_group listed stack)
          ≡ ok latest_ready
        → subscribe cond env s w stack ≡ goes_on stack' latest
        → env.list_clusters w ≡ some clusters
        → get_cluster_stack_releases_in_spec stack.spec ≡ ok in_spec
        → (reconcile cond env s w stack).result ≡ ok q
        → Follows
            (wanted
              (existing_releases env.parse_group listed stack)
              latest
              (option_map (λ r. r.0) latest_ready)
              in_spec
              (used_cluster_classes clusters)
              n)
            (has_name n (existing_releases env.parse_group listed stack))
            (store.presence w n)
            (store.presence (reconcile cond env s w stack).world n)
    unfolding reconcile reconcile_body reconcile_subscribed reconcile_diff
    reconcile-wanted alive lists ready subscribed list_clusters spec returned =
        let existing = existing_releases env.parse_group listed stack in
        let lr = option_map (λ r. r.0) latest_ready in
        let in_use = used_cluster_classes clusters in
        let d = make_diff cond.empty existing latest lr in_spec in_use in
        let o = sync cond env w stack' existing latest_ready d in
        let same =
          ap (λ x. get_cluster_stack_releases_in_spec x)
            (subscribe_spec cond env s w stack stack' latest subscribed) in
        let synced : o.result ≡ ok q =
          ground (arith, alive, lists, ready, subscribed, list_clusters, spec, same, returned) in
        let world : (reconcile cond env s w stack).world ≡ o.world =
          ground (arith, alive, lists, ready, subscribed, list_clusters, spec, same) in
        let (p, gone_through, after) = sync_presence w stack' existing latest_ready d q synced in
        subst
          (λ x.
            Follows (wanted existing latest lr in_spec in_use n) (has_name n existing)
              (store.presence w n) x)
          (sym (ap (λ x. store.presence x n) world ∙ after))
          (follows (wanted existing latest lr in_spec in_use n) (has_name n existing)
            (has_name n d.0) (has_name n d.1) (store.presence w n) p
            (ground (arith, make_diff_creates cond.empty existing latest lr in_spec in_use n))
            (ground (arith, make_diff_deletes cond.empty existing latest lr in_spec in_use n))
            gone_through)
