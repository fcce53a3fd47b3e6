-- ===== src/ClusterStackController/Readable.antt =====
-- The names of the releases that a cluster stack is to have read as cluster stacks.
use mathlib.Core.Path.{subst}
use cluster_stack_operator.Base.{
  ◌≡◌, refl, Bool, List, [], ◌∷◌, ◌++◌, Option, none, some, ok, Bool-cases, inl, inr, All,
  All-append, some_inj,
}
use cluster_stack_operator.Strings.{Text}
use cluster_stack_operator.ClusterStack as Stack
use cluster_stack_operator.ClusterStack.{less}
use cluster_stack_operator.ClusterStack.Names.{IsNamed}
use cluster_stack_operator.ClusterStack.Order.{latest-sort-All}
use cluster_stack_operator.ClusterStack.Parsed.{new_from_release-IsNamed}
use cluster_stack_operator.ClusterStack.RoundTrip.{new_from_release-string, normal_stack}
use cluster_stack_operator.Sort.{Sorter}
use cluster_stack_operator.Api.{ClusterStackRelease, ClusterStackSpec, member}
use cluster_stack_operator.ClusterStackController.Diff.{
  make_diff, decide, add_latest, add_spec, should_create,
}
use cluster_stack_operator.ClusterStackController.Select.{get_latest_release, option_map, matching}
use cluster_stack_operator.ClusterStackController.Remote.{matching-All}

-- A name that reads as a cluster stack.
abbrev pub Reads : Text → Type 0
Reads n = (cs : Stack.ClusterStack) × (Stack.new_from_cluster_stack_release_properties n ≡ ok cs)

abbrev pub EachReads : {C : Type 0} → List (ClusterStackRelease C) → Type 0
EachReads = All (λ csr. Reads csr.name)

-- The latest release of the remote repository has a name that reads.
pub get_latest_release-Reads :
    (s : Sorter less) (releases : List Text) (spec : ClusterStackSpec) (n : Text)
    → get_latest_release s releases spec ≡ some n
    → Reads n
unfolding get_latest_release
get_latest_release-Reads s releases spec n h =
    go (Stack.latest (s.sort (matching releases spec))) refl h
  where
    go :
        (o : Option Stack.ClusterStack)
        → Stack.latest (s.sort (matching releases spec)) ≡ o
        → option_map Stack.string o ≡ some n
        → Reads n
    go none e k = absurd (cc k)
    go (some m) e k =
        let m_named =
          latest-sort-All s IsNamed (matching releases spec) m
            (matching-All spec IsNamed (λ release cs r. new_from_release-IsNamed release cs r.reads)
              releases)
            e in
        (
          normal_stack m,
          subst (λ x. Stack.new_from_cluster_stack_release_properties x ≡ ok (normal_stack m))
              (some_inj k) (new_from_release-string m m_named),
        )

module _ {C : Type 0} where
  decide-EachReads :
      (keep : Text → Bool) (l : List (ClusterStackRelease C))
      → EachReads l
      → EachReads (decide keep l).to_create
  unfolding decide
  decide-EachReads keep [] h = tt
  decide-EachReads keep (cs ∷ l) (r, h) = elim (Bool-cases (keep cs.name)) [
    | inl e ↦ rw (e, decide) (r, decide-EachReads keep l h)
    | inr e ↦ rw (e, decide) (decide-EachReads keep l h)
  ]

  module _ (empty : C) (m : List Text) where
    add_latest-EachReads :
        (o : Option Text) → ((n : Text) → o ≡ some n → Reads n) → EachReads (add_latest empty m o)
    unfolding add_latest
    add_latest-EachReads none f = tt
    add_latest-EachReads (some n) f = elim (Bool-cases (member m n)) [
      | inl e ↦ rw e tt
      | inr e ↦ rw e (f n refl, tt)
    ]

    add_spec-EachReads : (l : List Text) → All Reads l → EachReads (add_spec empty m l)
    unfolding add_spec
    add_spec-EachReads [] h = tt
    add_spec-EachReads (n ∷ l) (r, h) = elim (Bool-cases (member m n)) [
      | inl e ↦ rw (e, add_spec) (add_spec-EachReads l h)
      | inr e ↦ rw (e, add_spec) (r, add_spec-EachReads l h)
    ]

  pub make_diff-EachReads :
      (empty : C) (l : List (ClusterStackRelease C)) (latest latest_ready : Option Text)
      (in_spec in_use : List Text)
      → EachReads l
      → ((n : Text) → latest ≡ some n → Reads n)
      → All Reads in_spec
      → EachReads (make_diff empty l latest latest_ready in_spec in_use).0
  unfolding make_diff
  make_diff-EachReads empty l latest latest_ready in_spec in_use h f g =
      let k = decide (should_create latest latest_ready in_spec in_use) l in
      All-append (λ csr. Reads csr.name) k.to_create
        (add_latest empty k.map_to_create latest ++ add_spec empty k.map_to_create in_spec)
        (decide-EachReads (should_create latest latest_ready in_spec in_use) l h)
        (All-append (λ csr. Reads csr.name) (add_latest empty k.map_to_create latest)
          (add_spec empty k.map_to_create in_spec)
          (add_latest-EachReads empty k.map_to_create latest f)
          (add_spec-EachReads empty k.map_to_create in_spec g))
