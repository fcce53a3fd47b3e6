-- ===== src/ClusterStackController/Wanted.antt =====
-- Which names `makeDiff` creates or keeps, and which it deletes.
use cluster_stack_operator.Base.{
  Bool, ◌||◌, ◌&&◌, not, ◌≡◌, refl, List, [], ◌∷◌, ◌++◌, Option, none, some, arith,
}
use cluster_stack_operator.Strings.{Text}
use cluster_stack_operator.Strings.Order.{text_eq→eq, text_eq_refl}
use cluster_stack_operator.Api.{ClusterStackRelease, member}
use cluster_stack_operator.ClusterStackController.Diff.{
  is_name, should_create, decide, add_latest, add_spec, make_diff, has_name,
}

module _ {C : Type 0} (n : Text) where
  has_name-append :
      (xs ys : List (ClusterStackRelease C))
      → has_name n (xs ++ ys) ≡ (has_name n xs || has_name n ys)
  has_name-append [] ys = refl
  has_name-append (x ∷ xs) ys = ground (arith, has_name-append xs ys)

  module _ (keep : Text → Bool) where
    decide_creates :
        (l : List (ClusterStackRelease C))
        → has_name n (decide keep l).to_create ≡ (has_name n l && keep n)
    unfolding decide
    decide_creates [] = refl
    decide_creates (cs ∷ r) = ground (arith, decide_creates r, text_eq→eq cs.name n)

    decide_deletes :
        (l : List (ClusterStackRelease C))
        → has_name n (decide keep l).to_delete ≡ (has_name n l && not (keep n))
    unfolding decide
    decide_deletes [] = refl
    decide_deletes (cs ∷ r) = ground (arith, decide_deletes r, text_eq→eq cs.name n)

    pub decide_map :
        (l : List (ClusterStackRelease C))
        → member (decide keep l).map_to_create n ≡ (has_name n l && keep n)
    unfolding decide member
    decide_map [] = refl
    decide_map (cs ∷ r) = ground (arith, decide_map r, text_eq→eq cs.name n)

  module _ (empty : C) (m : List Text) where
    add_latest_names :
        (latest : Option Text)
        → has_name n (add_latest empty m latest) ≡ (is_name latest n && not (member m n))
    unfolding add_latest
    add_latest_names none = refl
    add_latest_names (some k) = ground (arith, text_eq→eq k n, text_eq→eq n k, text_eq_refl n)

    add_spec_names :
        (in_spec : List Text)
        → has_name n (add_spec empty m in_spec) ≡ (member in_spec n && not (member m n))
    unfolding add_spec member
    add_spec_names [] = refl
    add_spec_names (k ∷ ks) = ground (arith, add_spec_names ks, text_eq→eq k n)

module _ {C : Type 0} (empty : C) (releases : List (ClusterStackRelease C)) where
  module _ (latest latest_ready : Option Text) (in_spec in_use : List Text) (n : Text) where
    -- A name is created or kept exactly if it is the latest one of the remote repository, is listed in
    -- the spec, or belongs to an existing release that is the latest ready one or in use.
    pub make_diff_creates :
        has_name n (make_diff empty releases latest latest_ready in_spec in_use).0 ≡ (
          is_name latest n
          || member in_spec n
          || (has_name n releases && (is_name latest_ready n || member in_use n)))
    unfolding make_diff should_create
    make_diff_creates =
        let keep = should_create latest latest_ready in_spec in_use in
        let k = decide keep releases in
        ground (
          arith,
          has_name-append n k.to_create
              (add_latest empty k.map_to_create latest ++ add_spec empty k.map_to_create in_spec),
          has_name-append n (add_latest empty k.map_to_create latest)
              (add_spec empty k.map_to_create in_spec),
          decide_creates n keep releases,
          decide_map n keep releases,
          add_latest_names n empty k.map_to_create latest,
          add_spec_names n empty k.map_to_create in_spec,
        )

    -- A name is deleted exactly if it belongs to an existing release and is not the latest one of the
    -- remote repository, not the latest ready one, not listed in the spec and not in use.
    pub make_diff_deletes :
        has_name n (make_diff empty releases latest latest_ready in_spec in_use).1 ≡ (
          has_name n releases
          && not (is_name latest n)
          && not (is_name latest_ready n)
          && not (member in_spec n)
          && not (member in_use n))
    unfolding make_diff should_create
    make_diff_deletes =
        ground (arith, decide_deletes n (should_create latest latest_ready in_spec in_use) releases)
