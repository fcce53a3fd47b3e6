-- ===== src/ClusterStackController/LatestReady.antt =====
-- The latest ready release: it is the newest one, and its name is in the notation of cluster classes.
use mathlib.Core.Path.{subst}
use cluster_stack_operator.Base.{
  ap, Option-cases, true, false, ◌≡◌, sym, ◌∙◌, List, [], ◌∷◌, some, arith, All, All-append,
  All-split, ◌⊎◌, Bool-cases, inl, inr, some_inj, ok, ok_inj, Result-cases,
}
use cluster_stack_operator.Strings.{Text}
use cluster_stack_operator.ClusterStack as Stack
use cluster_stack_operator.ClusterStack.{less}
use cluster_stack_operator.ClusterStack.Order.{OfChannel, latest-sort, latest-sort-All}
use cluster_stack_operator.Sort.{Sorter}
use cluster_stack_operator.Api.{ClusterStackRelease}
use cluster_stack_operator.ClusterStackController.Select.{
  Ready, add_ready, collect_ready, latest_of, get_latest_ready_cluster_stack_release,
}

-- A ready release whose name reads as a cluster stack.
pub record IsReady {C : Type 0} (csr : ClusterStackRelease C) (cs : Stack.ClusterStack)
    : Type 0 where
  pub is_ready : csr.status.ready ≡ true
  pub reads : Stack.new_from_cluster_stack_release_properties csr.name ≡ ok cs

-- A property of every cluster stack that a ready release of the list reads as.
abbrev pub EachReady :
    {C : Type 0} → (Stack.ClusterStack → Type 0) → List (ClusterStackRelease C) → Type 0
EachReady P = All (λ csr. (cs : Stack.ClusterStack) → IsReady csr cs → P cs)

module _ {C : Type 0} (csr : ClusterStackRelease C) (l : List (ClusterStackRelease C))
    (r : Ready) where
  collect_skip : csr.status.ready ≡ false → collect_ready (csr ∷ l) r ≡ collect_ready l r
  unfolding collect_ready
  collect_skip e = rw (e, collect_ready)

  collect_take :
      (cs : Stack.ClusterStack)
      → IsReady csr cs
      → collect_ready (csr ∷ l) r ≡ collect_ready l (add_ready csr cs r)
  unfolding collect_ready
  collect_take cs h = rw (h.is_ready, h.reads, collect_ready)

  -- If the loop succeeds, then each release is skipped or taken.
  collect_cases :
      (r' : Ready)
      → collect_ready (csr ∷ l) r ≡ ok r'
      → ((csr.status.ready ≡ false) × (collect_ready l r ≡ ok r'))
        ⊎ ((cs : Stack.ClusterStack) × IsReady csr cs
            × (collect_ready l (add_ready csr cs r) ≡ ok r'))
  unfolding collect_ready
  collect_cases r' e = elim (Bool-cases csr.status.ready) [
    | inr idle ↦ inl (idle, sym (collect_skip idle) ∙ e)
    | inl ready ↦ elim (Result-cases (Stack.new_from_cluster_stack_release_properties csr.name)) [
      | inl (x, bad) ↦ absurd (ground arith)
      | inr (cs, good) ↦
          let h : IsReady csr cs = record { is_ready = ready; reads = good } in
          inr (cs, h, sym (collect_take cs h) ∙ e)
    ]
  ]

module _ {C : Type 0} (P : Stack.ClusterStack → Type 0) where
  collect_ready-All :
      (l : List (ClusterStackRelease C)) (r r' : Ready)
      → EachReady P l
      → All P r.objects
      → collect_ready l r ≡ ok r'
      → All P r'.objects
  unfolding collect_ready
  collect_ready-All [] r r' h a e = subst (λ (x : Ready). All P x.objects) (ok_inj e) a
  collect_ready-All (csr ∷ l) r r' (h, hs) a e = elim (collect_cases csr l r r' e) [
    | inl (_, e') ↦ collect_ready-All l r r' hs a e'
    | inr (cs, ready, e') ↦
        collect_ready-All l (add_ready csr cs r) r' hs
          (All-append P r.objects (cs ∷ []) a (h cs ready, tt)) e'
  ]

  collect_ready_back :
      (l : List (ClusterStackRelease C)) (r r' : Ready)
      → collect_ready l r ≡ ok r'
      → All P r'.objects
      → All P r.objects × EachReady P l
  unfolding collect_ready
  collect_ready_back [] r r' e a = (subst (λ (x : Ready). All P x.objects) (sym (ok_inj e)) a, tt)
  collect_ready_back (csr ∷ l) r r' e a = elim (collect_cases csr l r r' e) [
    | inl (idle, e') ↦
        let (b, bs) = collect_ready_back l r r' e' a in
        (b, (λ cs h. absurd (cc (idle, h.is_ready)), bs))
    | inr (cs, ready, e') ↦
        let (b, bs) = collect_ready_back l (add_ready csr cs r) r' e' a in
        let (b', q) = All-split P r.objects cs b in
        (b', (λ cs' h. subst P (ok_inj (sym ready.reads ∙ h.reads)) q, bs))
  ]

module _ (s : Sorter less) {C : Type 0} (releases : List (ClusterStackRelease C)) where
  abbrev start : Ready
  start = record { objects = []; kubernetes_versions = [] }

  module _ (c : Text) (P : Stack.ClusterStack → Type 0) where
    newest_collected :
        (n k : Text) (r : Ready)
        → EachReady (OfChannel c) releases
        → EachReady P releases
        → collect_ready releases start ≡ ok r
        → latest_of (Stack.latest (s.sort r.objects)) r.kubernetes_versions ≡ some (n, k)
        → (m : Stack.ClusterStack) × (n ≡ Stack.string_with_dot m)
          × P m
          × EachReady (λ cs. less m cs ≡ false) releases
    newest_collected n k r hc hp e h = elim (Option-cases (Stack.latest (s.sort r.objects))) [
      | inl q ↦ absurd (ground (arith, q))
      | inr (m, q) ↦
          let h' : latest_of (some m) r.kubernetes_versions ≡ some (n, k) = rw q at h in
          (
            m,
            sym (ap (λ x. x.0) (some_inj h')),
            latest-sort-All s P r.objects m (collect_ready-All P releases start r hp tt e) q,
            (collect_ready_back (λ cs. less m cs ≡ false) releases start r e
                (latest-sort s c r.objects m
                  (collect_ready-All (OfChannel c) releases start r hc tt e) q)).1,
          )
    ]

    -- The latest ready release, where the ready releases are of one channel: it is named by a cluster
    -- stack in dot notation, which has each property that the cluster stacks of all the ready releases
    -- have, and none of these is newer.
    pub latest_ready_newest :
        (n k : Text)
        → EachReady (OfChannel c) releases
        → EachReady P releases
        → get_latest_ready_cluster_stack_release s releases ≡ ok (some (n, k))
        → (m : Stack.ClusterStack) × (n ≡ Stack.string_with_dot m)
          × P m
          × EachReady (λ cs. less m cs ≡ false) releases
    unfolding get_latest_ready_cluster_stack_release
    latest_ready_newest n k hc hp h = elim (Result-cases (collect_ready releases start)) [
      | inl (x, e) ↦ absurd (ground (arith, e))
      | inr (r, e) ↦ newest_collected n k r hc hp e (ok_inj (rw e at h))
    ]
