-- ===== src/ClusterStackController/Protected.antt =====
-- Which releases the latest ready one keeps from being deleted: its name is in dot notation, and the
-- names of releases are in dash notation.
use cluster_stack_operator.Base.{
  Bool, ◌&&◌, ◌||◌, All, refl, ◌≡◌, false, true, [], ◌∷◌, ok, err, arith, List, Option, some, none,
  Bool-cases, inl, inr, ◌∙◌,
}
use cluster_stack_operator.Strings.{Text, text_eq, split, dash, dot}
use cluster_stack_operator.Strings.Order.{text_eq→eq, text_eq_refl}
use cluster_stack_operator.Strconv.{itoa}
use cluster_stack_operator.Version
use cluster_stack_operator.Version.{Version, channel_stable}
use cluster_stack_operator.Version.Reading.{Spells}
use cluster_stack_operator.Version.Parse.{split-dash_dotted}
use cluster_stack_operator.Version.RoundTrip.{normal, string_with_dot-Spells}
use cluster_stack_operator.ClusterStack as Stack
use cluster_stack_operator.ClusterStack.{less, from_release_parts}
use cluster_stack_operator.ClusterStack.Names.{IsNamed, split_prefix}
use cluster_stack_operator.ClusterStack.Order.{OfChannel}
use cluster_stack_operator.ClusterStack.Parsed.{new_from_release-IsNamed}
use cluster_stack_operator.Sort.{Sorter}
use cluster_stack_operator.Api.{ClusterStackRelease}
use cluster_stack_operator.ClusterStackController.Diff.{make_diff, has_name}
use cluster_stack_operator.ClusterStackController.Wanted.{make_diff_deletes}
use cluster_stack_operator.ClusterStackController.Select.{get_latest_ready_cluster_stack_release}
use cluster_stack_operator.ClusterStackController.LatestReady.{
  IsReady, EachReady, latest_ready_newest,
}

-- Six parts are no name of a release.
from_release_parts_dotted :
    (p n k1 k2 s : Text) (v : Version)
    → Spells dot s v
    → text_eq v.channel channel_stable ≡ false
    → from_release_parts (p ∷ n ∷ k1 ∷ k2 ∷ split s dash) ≡ err Stack.invalid_format
unfolding from_release_parts
from_release_parts_dotted p n k1 k2 s v (Spells.bare d hd e r) h =
    absurd (cc (r.channel_read, h, text_eq_refl channel_stable))
from_release_parts_dotted p n k1 k2 s v (Spells.full d w q hd hw hq e r) h =
    rw (e, split-dash_dotted d w q hd hw hq)

module _ (cs : Stack.ClusterStack) (w : IsNamed cs) where
  normal_channel :
      text_eq cs.version.channel channel_stable ≡ false
      → text_eq (normal cs.version).channel channel_stable ≡ false
  unfolding normal
  normal_channel h = ground (arith, h)

  -- The dot notation of a cluster stack of a custom channel is no name of a release.
  pub dotted_unread :
      text_eq cs.version.channel channel_stable ≡ false
      → Stack.new_from_cluster_stack_release_properties (Stack.string_with_dot cs)
        ≡ err Stack.invalid_format
  unfolding Stack.new_from_cluster_stack_release_properties Stack.string_with_dot
  dotted_unread h = rw (split_prefix cs w (Version.string_with_dot cs.version)) (
      from_release_parts_dotted cs.provider cs.name (itoa cs.kubernetes_version.major)
        (itoa cs.kubernetes_version.minor) (Version.string_with_dot cs.version) (normal cs.version)
        (string_with_dot-Spells cs.version w.version_parsed) (normal_channel h))

  dotted_other :
      (n : Text) (other : Stack.ClusterStack)
      → text_eq cs.version.channel channel_stable ≡ false
      → Stack.new_from_cluster_stack_release_properties n ≡ ok other
      → text_eq n (Stack.string_with_dot cs) ≡ false
  dotted_other n other h r = elim (Bool-cases (text_eq n (Stack.string_with_dot cs))) [
    | inl e ↦ absurd (cc (text_eq→eq n (Stack.string_with_dot cs) e, r, dotted_unread h))
    | inr e ↦ e
  ]

  dotted_same :
      text_eq cs.version.channel channel_stable ≡ true → Stack.string_with_dot cs ≡ Stack.string cs
  unfolding Stack.string_with_dot Stack.string Version.string_with_dot Version.string
  dotted_same h = rw h refl

module _ {C : Type 0} where
  -- A ready release of the list has the name.
  abbrev pub names_ready : Text → List (ClusterStackRelease C) → Bool
  names_ready n [] = false
  names_ready n (csr ∷ l) = csr.status.ready && text_eq csr.name n || names_ready n l

  -- Every ready release of the list that reads as a cluster stack has the name that this one prints.
  abbrev pub Printed : List (ClusterStackRelease C) → Type 0
  Printed = All (λ csr. (cs : Stack.ClusterStack) → IsReady csr cs → csr.name ≡ Stack.string cs)

  Printed-named :
      (l : List (ClusterStackRelease C))
      → Printed l
      → EachReady (λ cs. names_ready (Stack.string cs) l ≡ true) l
  Printed-named [] h = tt
  Printed-named (csr ∷ l) (h, hs) = (
    λ cs r. ground (arith, r.is_ready, h cs r, text_eq_refl (Stack.string cs)),
    behind l (Printed-named l hs),
  )
    where
      behind :
          (k : List (ClusterStackRelease C))
          → EachReady (λ cs. names_ready (Stack.string cs) l ≡ true) k
          → EachReady (λ cs. names_ready (Stack.string cs) (csr ∷ l) ≡ true) k
      behind [] q = tt
      behind (x ∷ k) (a, q) = (λ cs r. ground (arith, a cs r), behind k q)

module _ (s : Sorter less) {C : Type 0} (empty : C) (releases : List (ClusterStackRelease C)) where
  ready-IsNamed : (l : List (ClusterStackRelease C)) → EachReady IsNamed l
  ready-IsNamed [] = tt
  ready-IsNamed (csr ∷ l) = (λ cs h. new_from_release-IsNamed csr.name cs h.reads, ready-IsNamed l)

  both :
      (P Q : Stack.ClusterStack → Type 0) (l : List (ClusterStackRelease C))
      → EachReady P l
      → EachReady Q l
      → EachReady (λ cs. P cs × Q cs) l
  both P Q [] h k = tt
  both P Q (csr ∷ l) (h, hs) (k, ks) = (λ cs r. (h cs r, k cs r), both P Q l hs ks)

  module _ (c n k : Text) (latest : Option Text) (in_spec in_use : List Text) where
    IsNamed-latest :
        EachReady (OfChannel c) releases
        → get_latest_ready_cluster_stack_release s releases ≡ ok (some (n, k))
        → (m : Stack.ClusterStack) × (n ≡ Stack.string_with_dot m) × (OfChannel c m × IsNamed m)
    IsNamed-latest hc h =
        let P : Stack.ClusterStack → Type 0 = λ cs. OfChannel c cs × IsNamed cs in
        let (m, e, p, _) =
          latest_ready_newest s releases c P n k hc
            (both (OfChannel c) IsNamed releases hc (ready-IsNamed releases)) h in
        (m, e, p)

    -- Where the ready releases are of one custom channel, the latest ready release is not kept for
    -- being that: of the existing releases whose names read as names of releases, `makeDiff` deletes the
    -- same ones with it as without it.
    pub custom_latest_ready_unprotected :
        (name : Text) (cs : Stack.ClusterStack)
        → text_eq c channel_stable ≡ false
        → EachReady (OfChannel c) releases
        → get_latest_ready_cluster_stack_release s releases ≡ ok (some (n, k))
        → Stack.new_from_cluster_stack_release_properties name ≡ ok cs
        → has_name name (make_diff empty releases latest (some n) in_spec in_use).1
          ≡ has_name name (make_diff empty releases latest none in_spec in_use).1
    custom_latest_ready_unprotected name cs custom hc h r =
        let (m, e, p) = IsNamed-latest hc h in
        let (of_c, w) = p in
        let other : text_eq name n ≡ false = rw e (dotted_other m w name cs (rw of_c custom) r) in
        rw
          (
            make_diff_deletes empty releases latest (some n) in_spec in_use name,
            make_diff_deletes empty releases latest none in_spec in_use name,
            other,
          )
          refl

    -- Where the ready releases are of the stable channel and each has the name that its cluster stack
    -- prints, the latest ready release is a ready one of the existing releases, and `makeDiff` does not
    -- delete it.
    pub stable_latest_ready_kept :
        text_eq c channel_stable ≡ true
        → EachReady (OfChannel c) releases
        → Printed releases
        → get_latest_ready_cluster_stack_release s releases ≡ ok (some (n, k))
        → (names_ready n releases ≡ true)
          × (has_name n (make_diff empty releases latest (some n) in_spec in_use).1 ≡ false)
    stable_latest_ready_kept stable hc printed h =
        let P : Stack.ClusterStack → Type 0 =
          λ cs. OfChannel c cs × (IsNamed cs × (names_ready (Stack.string cs) releases ≡ true)) in
        let (m, e, p, _) =
          latest_ready_newest s releases c P n k hc
            (both (OfChannel c) (λ cs. IsNamed cs × (names_ready (Stack.string cs) releases ≡ true))
              releases hc
              (both IsNamed (λ cs. names_ready (Stack.string cs) releases ≡ true) releases
                (ready-IsNamed releases) (Printed-named releases printed)))
            h in
        let (of_c, (w, named)) = p in
        let same : n ≡ Stack.string m = e ∙ dotted_same m w (rw of_c stable) in
        (
          rw same named,
          ground (
            arith,
            make_diff_deletes empty releases latest (some n) in_spec in_use n,
            text_eq_refl n,
          ),
        )
