-- ===== src/ClusterStackController/Diff.antt =====
-- `makeDiff`: which releases to create or keep, and which to delete.
use cluster_stack_operator.Base.{
  suc, ℕ, Bool, false, ◌||◌, List, [], ◌∷◌, ◌++◌, Option, none, some, if◌then◌else◌,
}
use cluster_stack_operator.Strings.{Text, text_eq}
use cluster_stack_operator.Api.{ClusterStackRelease, member}

-- `p != nil && name == *p`.
abbrev pub is_name : Option Text → Text → Bool
is_name none name = false
is_name (some n) name = text_eq name n

-- `&csov1alpha1.ClusterStackRelease{}` with a name; `empty` is the zero value of the conditions.
abbrev pub named : {C : Type 0} → C → Text → ClusterStackRelease C
named empty n = record {
  name = n;
  namespace = [];
  owner_references = [];
  finalizers = [];
  deleting = false;
  provider_ref = none;
  status = record { resources = []; kubernetes_version = []; ready = false; conditions = empty };
}

-- The variable `shouldCreate` at the end of the loop's body.
unfoldable pub should_create : Option Text → Option Text → List Text → List Text → Text → Bool
should_create latest latest_ready in_spec in_use name =
    is_name latest name || is_name latest_ready name || member in_spec name || member in_use name

-- The three lists that the loop over the existing releases fills.
pub record Kept (C : Type 0) : Type 0 where
  pub to_create : List (ClusterStackRelease C)
  pub to_delete : List (ClusterStackRelease C)
  pub map_to_create : List Text

module _ {C : Type 0} (keep : Text → Bool) where
  -- The loop over the existing releases.
  unfoldable pub decide : List (ClusterStackRelease C) → Kept C
  decide [] = record { to_create = []; to_delete = []; map_to_create = [] }
  decide (cs ∷ r) =
      let k = decide r in
      if keep cs.name
      then record k { to_create = cs ∷ k.to_create; map_to_create = cs.name ∷ k.map_to_create }
      else record k { to_delete = cs ∷ k.to_delete }

module _ {C : Type 0} (empty : C) (map_to_create : List Text) where
  -- The latest release of the remote repository, if it is not in the list yet.
  unfoldable pub add_latest : Option Text → List (ClusterStackRelease C)
  add_latest none = []
  add_latest (some n) = if member map_to_create n then [] else named empty n ∷ []

  -- The releases of the spec that are not in the list yet, in the order of the range over the map.
  unfoldable pub add_spec : List Text → List (ClusterStackRelease C)
  add_spec [] = []
  add_spec (n ∷ in_spec) =
      let rest = add_spec in_spec in if member map_to_create n then rest else named empty n ∷ rest

module _ {C : Type 0} (empty : C) where
  -- `makeDiff`; the result is the pair `toCreate`, `toDelete`.
  unfoldable pub make_diff :
      List (ClusterStackRelease C)
      → Option Text
      → Option Text
      → List Text
      → List Text
      → List (ClusterStackRelease C) × List (ClusterStackRelease C)
  make_diff releases latest latest_ready in_spec in_use =
      let k = decide (should_create latest latest_ready in_spec in_use) releases in
      (
        k.to_create
            ++ (add_latest empty k.map_to_create latest ++ add_spec empty k.map_to_create in_spec),
        k.to_delete,
      )

-- How many releases of a list have a name.
unfoldable pub count_name : {C : Type 0} → Text → List (ClusterStackRelease C) → ℕ
count_name n [] = 0
count_name n (cs ∷ r) = let rest = count_name n r in if text_eq cs.name n then suc rest else rest

abbrev pub has_name : {C : Type 0} → Text → List (ClusterStackRelease C) → Bool
has_name n [] = false
has_name n (cs ∷ r) = text_eq cs.name n || has_name n r
