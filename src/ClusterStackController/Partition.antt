-- ===== src/ClusterStackController/Partition.antt =====
-- `makeDiff` splits the existing releases, and what it adds.
use mathlib.Core.List.Permᴰ
use mathlib.Core.List.{Permᴰ}
use cluster_stack_operator.Base.{
  All, All-append, ◌+◌, ◌≤◌, Bool, true, false, ◌≡◌, refl, List, [], ◌∷◌, ◌++◌, Option, none, some,
  arith, Bool-cases, inl, inr,
}
use cluster_stack_operator.Strings.{Text}
use cluster_stack_operator.Strings.Order.{text_eq→eq, text_eq_refl}
use cluster_stack_operator.Api.{ClusterStackRelease, member}
use cluster_stack_operator.ClusterStackController.Diff.{
  named, should_create, decide, add_latest, add_spec, make_diff, has_name, count_name,
}
use cluster_stack_operator.ClusterStackController.Wanted.{decide_map}

module _ {C : Type 0} (keep : Text → Bool) where
  decide_rearranges :
      (l : List (ClusterStackRelease C))
      → Permᴰ ((decide keep l).to_create ++ (decide keep l).to_delete) l
  unfolding decide
  decide_rearranges [] = Permᴰ.nil
  decide_rearranges (cs ∷ r) = elim (Bool-cases (keep cs.name)) [
    | inl e ↦ rw e (Permᴰ.cons refl (decide_rearranges r))
    | inr e ↦ rw e (
        Permᴰ.trans (Permᴰ.middle cs (decide keep r).to_create (decide keep r).to_delete)
          (Permᴰ.cons refl (decide_rearranges r)))
  ]

module _ {C : Type 0} (empty : C) (m : List Text) where
  add_latest-named :
      (latest : Option Text) → All (λ r. r ≡ named empty r.name) (add_latest empty m latest)
  unfolding add_latest
  add_latest-named none = tt
  add_latest-named (some n) = elim (Bool-cases (member m n)) [
    | inl e ↦ rw e tt
    | inr e ↦ rw e (refl, tt)
  ]

  add_spec-named :
      (in_spec : List Text) → All (λ r. r ≡ named empty r.name) (add_spec empty m in_spec)
  unfolding add_spec
  add_spec-named [] = tt
  add_spec-named (n ∷ ns) = elim (Bool-cases (member m n)) [
    | inl e ↦ rw e (add_spec-named ns)
    | inr e ↦ rw e (refl, add_spec-named ns)
  ]

  -- A name of the spec that is not in the map is added.
  add_spec_count :
      (n : Text) (in_spec : List Text)
      → member m n ≡ false
      → member in_spec n ≡ true
      → 1 ≤ count_name n (add_spec empty m in_spec)
  unfolding add_spec count_name member
  add_spec_count n [] h k = cc
  add_spec_count n (j ∷ ns) h k =
      ground (arith, add_spec_count n ns, text_eq→eq j n, text_eq_refl n)

count_name-append :
    {C : Type 0} (n : Text) (xs ys : List (ClusterStackRelease C))
    → count_name n (xs ++ ys) ≡ count_name n xs + count_name n ys
unfolding count_name
count_name-append n [] ys = omega arith
count_name-append n (x ∷ xs) ys = ground (arith, count_name-append n xs ys)

module _ {C : Type 0} (empty : C) (releases : List (ClusterStackRelease C)) where
  module _ (latest latest_ready : Option Text) (in_spec in_use : List Text) where
    -- `toCreate` is a part of the existing releases followed by new objects that have only a name;
    -- that part and `toDelete` together are the existing releases, each once.
    pub make_diff_partition :
        (kept : List (ClusterStackRelease C)) × (added : List (ClusterStackRelease C)) × ((make_diff
            empty releases latest latest_ready in_spec in_use).0
          ≡ kept ++ added)
        × Permᴰ (kept ++ (make_diff empty releases latest latest_ready in_spec in_use).1) releases
        × All (λ r. r ≡ named empty r.name) added
    unfolding make_diff
    make_diff_partition =
        let k = decide (should_create latest latest_ready in_spec in_use) releases in
        (
          k.to_create,
          add_latest empty k.map_to_create latest ++ add_spec empty k.map_to_create in_spec,
          refl,
          decide_rearranges (should_create latest latest_ready in_spec in_use) releases,
          All-append (λ r. r ≡ named empty r.name) (add_latest empty k.map_to_create latest)
              (add_spec empty k.map_to_create in_spec)
              (add_latest-named empty k.map_to_create latest)
              (add_spec-named empty k.map_to_create in_spec),
        )

-- A release that is the latest one of the remote repository and listed in the spec, and does not exist
-- yet, is in `toCreate` at least twice.
pub make_diff_duplicates :
    {C : Type 0} (empty : C) (releases : List (ClusterStackRelease C)) (n : Text)
    (latest_ready : Option Text) (in_spec in_use : List Text)
    → has_name n releases ≡ false
    → member in_spec n ≡ true
    → 2 ≤ count_name n (make_diff empty releases (some n) latest_ready in_spec in_use).0
unfolding make_diff add_latest
make_diff_duplicates empty releases n latest_ready in_spec in_use h s =
    let keep = should_create (some n) latest_ready in_spec in_use in
    let k = decide keep releases in
    let fresh : member k.map_to_create n ≡ false = ground (arith, decide_map n keep releases) in
    rw fresh (
      unfold count_name in
      ground (
        arith,
        count_name-append n k.to_create (named empty n ∷ add_spec empty k.map_to_create in_spec),
        add_spec_count empty k.map_to_create n in_spec fresh s,
        text_eq_refl n,
      ))
