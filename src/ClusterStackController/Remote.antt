-- ===== src/ClusterStackController/Remote.antt =====
-- The latest release of the remote repository.
use mathlib.Core.Path.{subst}
use cluster_stack_operator.Base.{
  sym, ◌∙◌, true, false, ◌≡◌, refl, List, [], ◌∷◌, Option, none, some, arith, All, Option-cases,
  inl, inr, some_inj, ok,
}
use cluster_stack_operator.Strings.{Text}
use cluster_stack_operator.Strings.Order.{text_eq→eq, text_eq_refl}
use cluster_stack_operator.ClusterStack as Stack
use cluster_stack_operator.ClusterStack.{less}
use cluster_stack_operator.ClusterStack.Order.{OfChannel, latest-sort, latest-sort-All}
use cluster_stack_operator.Sort.{Sorter}
use cluster_stack_operator.Api.{ClusterStackSpec, member}
use cluster_stack_operator.ClusterStackController.Select.{
  matches, matches_spec, matching, option_map, get_latest_release,
}

-- A release of the repository that reads as a cluster stack of the spec.
pub record IsRelease (spec : ClusterStackSpec) (release : Text) (cs : Stack.ClusterStack)
    : Type 0 where
  pub reads : Stack.new_from_cluster_stack_release_properties release ≡ ok cs
  pub matches : matches spec cs ≡ true

matches_spec_inv :
    (release : Text) (spec : ClusterStackSpec) (cs : Stack.ClusterStack)
    → matches_spec release spec ≡ some cs
    → IsRelease spec release cs
unfolding matches_spec
matches_spec_inv release spec cs h = record { reads = ground arith; matches = ground arith }

matches_spec_of :
    (release : Text) (spec : ClusterStackSpec) (cs : Stack.ClusterStack)
    → IsRelease spec release cs
    → matches_spec release spec ≡ some cs
unfolding matches_spec
matches_spec_of release spec cs r = ground (arith, r.reads, r.matches)

module _ (spec : ClusterStackSpec) where
  -- A list of cluster stacks that each come from a release of the list.
  pub matching-All :
      (P : Stack.ClusterStack → Type 0)
      → ((release : Text) (cs : Stack.ClusterStack) → IsRelease spec release cs → P cs)
      → (l : List Text) → All P (matching l spec)
  unfolding matching
  matching-All P f [] = tt
  matching-All P f (release ∷ l) = elim (Option-cases (matches_spec release spec)) [
    | inl e ↦ rw (e, matching) (matching-All P f l)
    | inr (cs, e) ↦
        rw (e, matching) (f release cs (matches_spec_inv release spec cs e), matching-All P f l)
  ]

  -- What holds of all the cluster stacks holds of each that a release reads as.
  matching_back :
      (P : Stack.ClusterStack → Type 0) (l : List Text)
      → All P (matching l spec)
      → All (λ release. (cs : Stack.ClusterStack) → IsRelease spec release cs → P cs) l
  unfolding matching
  matching_back P [] h = tt
  matching_back P (release ∷ l) h = elim (Option-cases (matches_spec release spec)) [
    | inl e ↦ (
      λ cs r. absurd (cc (e, matches_spec_of release spec cs r)),
      matching_back P l (rw (e, matching) at h),
    )
    | inr (cs, e) ↦
        let (p, ps) = both P cs l (rw (e, matching) at h) in
        (
          λ cs' r. subst P (some_inj (sym e ∙ matches_spec_of release spec cs' r)) p,
          matching_back P l ps,
        )
  ]
    where
      both :
          (P : Stack.ClusterStack → Type 0) (cs : Stack.ClusterStack) (l : List Text)
          → All P (cs ∷ matching l spec)
          → P cs × All P (matching l spec)
      both P cs l h = h

  matches_channel :
      (cs : Stack.ClusterStack) → matches spec cs ≡ true → cs.version.channel ≡ spec.channel
  unfolding matches
  matches_channel cs h = text_eq→eq cs.version.channel spec.channel (ground arith)

module _ (spec : ClusterStackSpec) (releases : List Text) where
  -- A cluster stack of the spec that a release of the repository reads as.
  pub record IsListed (m : Stack.ClusterStack) : Type 0 where
    pub release : Text
    pub listed : member releases release ≡ true
    pub is_release : IsRelease spec release m

  matching-IsListed :
      (l : List Text)
      → ((release : Text) → member l release ≡ true → member releases release ≡ true)
      → All IsListed (matching l spec)
  unfolding matching member
  matching-IsListed [] f = tt
  matching-IsListed (release ∷ l) f =
      let rest = matching-IsListed l (λ r h. f r (ground (arith, h))) in
      elim (Option-cases (matches_spec release spec)) [
        | inl e ↦ rw (e, matching) rest
        | inr (cs, e) ↦
            rw (e, matching)
              (
                record {
                  release = release;
                  listed = f release (ground (arith, text_eq_refl release));
                  is_release = matches_spec_inv release spec cs e;
                },
                rest,
              )
      ]

module _ (s : Sorter less) (spec : ClusterStackSpec) (releases : List Text) where
  -- The release that is found is the name of a cluster stack of the spec that a release of the list reads
  -- as, and none of the releases of the list that read as cluster stacks of the spec is newer.
  pub get_latest_release_newest :
      (n : Text)
      → get_latest_release s releases spec ≡ some n
      → (m : Stack.ClusterStack) × (n ≡ Stack.string m)
        × IsListed spec releases m
        × All
            (λ release. (cs : Stack.ClusterStack) → IsRelease spec release cs → less m cs ≡ false)
            releases
  unfolding get_latest_release
  get_latest_release_newest n h = go (Stack.latest (s.sort (matching releases spec))) refl h
    where
      go :
          (o : Option Stack.ClusterStack)
          → Stack.latest (s.sort (matching releases spec)) ≡ o
          → option_map Stack.string o ≡ some n
          → (m : Stack.ClusterStack) × (n ≡ Stack.string m)
            × IsListed spec releases m
            × All
                (λ release.
                  (cs : Stack.ClusterStack) → IsRelease spec release cs → less m cs ≡ false)
                releases
      go none e k = absurd (ground arith)
      go (some m) e k = (
        m,
        sym (some_inj k),
        latest-sort-All s (IsListed spec releases) (matching releases spec) m
            (matching-IsListed spec releases releases (λ r k. k)) e,
        matching_back spec (λ cs. less m cs ≡ false) releases
            (latest-sort s spec.channel (matching releases spec) m
              (matching-All spec (OfChannel spec.channel)
                (λ release cs r. matches_channel spec cs r.matches) releases)
              e),
      )
