-- ===== src/Release/Opened.antt =====
-- What is known of a release that was opened.
use mathlib.Core.Path.{subst}
use cluster_stack_operator.Base.{
  true, false, ◌≡◌, refl, sym, ◌∙◌, ap, none, arith, Option-cases, Result-cases, inl, inr, ok,
  ok_inj,
}
use cluster_stack_operator.Strings.{Text, codes}
use cluster_stack_operator.Version
use cluster_stack_operator.Version.RoundTrip.{normal, parse-string-new}
use cluster_stack_operator.ClusterStack as Stack
use cluster_stack_operator.ClusterStack.Names.{IsNamed}
use cluster_stack_operator.ClusterStack.Parsed.{new_from_release-IsNamed}
use cluster_stack_operator.Release.Open.{
  Metadata, Release, Files, Stat, present, absent, unknown, MetadataFile, unreadable, malformed,
  contents, normalised, normalise, ensure_metadata, validated, validate, new_from, new, join_path,
}

-- A text that `ParseVersionString` reads.
abbrev pub ReadsVersion : Text → Type 0
ReadsVersion s = (v : Version.Version) × (Version.parse_version_string s ≡ ok v)

normalised-ReadsVersion : (s t : Text) → normalised s ≡ ok t → ReadsVersion t
unfolding normalised
normalised-ReadsVersion s t h = elim (Result-cases (Version.new s)) [
  | inl (e, k) ↦ absurd (ground (arith, h, k))
  | inr (v, k) ↦
      let q : Version.string v ≡ t = ok_inj (rw (k, normalised) at h) in
      (normal v, ap Version.parse_version_string (sym q) ∙ parse-string-new s v k)
]

-- The three versions of metadata are in the notation with dashes.
pub record IsNormal (m : Metadata) : Type 0 where
  pub cluster_stack_read : ReadsVersion m.cluster_stack
  pub cluster_addon_read : ReadsVersion m.cluster_addon
  pub node_image_read : ReadsVersion m.node_image

normalise-IsNormal : (m m' : Metadata) → normalise m ≡ ok m' → IsNormal m'
unfolding normalise
normalise-IsNormal m m' h = elim (Result-cases (normalised m.cluster_stack)) [
  | inl (e, k) ↦ absurd (ground (arith, h, k))
  | inr (a, k) ↦ elim (Result-cases (normalised m.cluster_addon)) [
    | inl (e, q) ↦ absurd (ground (arith, h, k, q))
    | inr (b, q) ↦ elim (Result-cases (normalised m.node_image)) [
      | inl (e, r) ↦ absurd (ground (arith, h, k, q, r))
      | inr (c, r) ↦
          let z = ok_inj (rw (k, normalise, q, r) at h) in
          record {
            cluster_stack_read =
                normalised-ReadsVersion m.cluster_stack m'.cluster_stack
                  (k ∙ ap (λ x. ok x.cluster_stack) z);
            cluster_addon_read =
                normalised-ReadsVersion m.cluster_addon m'.cluster_addon
                  (q ∙ ap (λ x. ok x.cluster_addon) z);
            node_image_read =
                normalised-ReadsVersion m.node_image m'.node_image
                  (r ∙ ap (λ x. ok x.node_image) z);
          }
    ]
  ]
]

-- A release that is complete on disk.
pub record IsOpened (tag : Text) (r : Release) : Type 0 where
  pub tag_kept : r.tag ≡ tag
  pub tag_read : Stack.new_from_cluster_stack_release_properties tag ≡ ok r.cluster_stack
  pub named : IsNamed r.cluster_stack
  pub meta_normal : IsNormal r.meta
  pub valid : validate r ≡ none

module _ (files : Files) where
  ensure_metadata-IsNormal :
      (path : Text) (m : Metadata) → ensure_metadata files path ≡ ok m → IsNormal m
  unfolding ensure_metadata
  ensure_metadata-IsNormal path m h = go (files.metadata path) refl h
    where
      go :
          (f : MetadataFile)
          → files.metadata path ≡ f
          → ensure_metadata files path ≡ ok m
          → IsNormal m
      go unreadable e k = absurd (ground (arith, e))
      go malformed e k = absurd (ground (arith, e))
      go (contents n) e k = normalise-IsNormal n m (rw (e, ensure_metadata) at k)

  validated_ok :
      (r r' : Release) → validated files r ≡ ok (r', false) → (r ≡ r') × (validate r ≡ none)
  validated_ok r r' h = elim (Option-cases (validate r)) [
    | inr (e, k) ↦ absurd (ground (arith, h, k))
    | inl k ↦ (ground (arith, h, k), k)
  ]

  new_from-IsOpened :
      (tag path : Text) (cs : Stack.ClusterStack) (r : Release)
      → Stack.new_from_cluster_stack_release_properties tag ≡ ok cs
      → new_from files tag cs path ≡ ok (r, false)
      → IsOpened tag r
  unfolding new_from
  new_from-IsOpened tag path cs r t h = go (files.stat path) refl h
    where
      go :
          (s : Stat)
          → files.stat path ≡ s
          → new_from files tag cs path ≡ ok (r, false)
          → IsOpened tag r
      go absent e k = absurd (ground (arith, e))
      go unknown e k = absurd (ground (arith, e))
      go present e k = elim (Result-cases (ensure_metadata files path)) [
        | inl (x, q) ↦ absurd (ground (arith, e, q))
        | inr (m, q) ↦
            let (a, b) =
              validated_ok
                (record { tag = tag; cluster_stack = cs; meta = m; local_download_path = path }) r
                (rw (e, new_from, q) at k) in
            subst (IsOpened tag) a (record {
              tag_kept = refl;
              tag_read = t;
              named = new_from_release-IsNamed tag cs t;
              meta_normal = ensure_metadata-IsNormal path m q;
              valid = b;
            })
      ]

  -- A release that `New` returns as one that need not be downloaded has its tag, which reads as its
  -- cluster stack; it is valid; and the versions of its metadata are read by `ParseVersionString`, so
  -- that the error which the name of the addon's chart drops does not occur.
  pub new-IsOpened :
      (tag download_path : Text) (r : Release)
      → new files tag download_path ≡ ok (r, false)
      → IsOpened tag r
  unfolding new
  new-IsOpened tag download_path r h =
      elim (Result-cases (Stack.new_from_cluster_stack_release_properties tag)) [
        | inl (e, k) ↦ absurd (ground (arith, h, k))
        | inr (cs, k) ↦ new_from-IsOpened tag _ cs r k (rw (k, new) at h)
      ]

  download_absent :
      (tag path : Text) (cs : Stack.ClusterStack) (r : Release)
      → new_from files tag cs path ≡ ok (r, true)
      → files.stat path ≡ absent
  unfolding new_from
  download_absent tag path cs r h = go (files.stat path) refl h
    where
      go :
          (s : Stat)
          → files.stat path ≡ s
          → new_from files tag cs path ≡ ok (r, true)
          → files.stat path ≡ absent
      go absent e k = e
      go unknown e k = absurd (ground (arith, e))
      go present e k = elim (Result-cases (ensure_metadata files path)) [
        | inl (x, q) ↦ absurd (ground (arith, e, q))
        | inr (m, q) ↦
            let z : validated files
                  (record { tag = tag; cluster_stack = cs; meta = m; local_download_path = path })
                ≡ ok (r, true) =
              rw (e, new_from, q) at k in
            elim (Option-cases (
              validate
                (record { tag = tag; cluster_stack = cs; meta = m; local_download_path = path }))) [
                  | inl v ↦ absurd (ground (arith, z, v))
                  | inr (x, v) ↦ absurd (ground (arith, z, v))
                ]
      ]

  -- `New` asks for a download only where the directory of the release is not there.
  pub new_download :
      (tag download_path : Text) (r : Release)
      → new files tag download_path ≡ ok (r, true)
      → files.stat (join_path (join_path download_path (codes "cluster-stacks")) tag) ≡ absent
  unfolding new
  new_download tag download_path r h =
      elim (Result-cases (Stack.new_from_cluster_stack_release_properties tag)) [
        | inl (e, k) ↦ absurd (ground (arith, h, k))
        | inr (cs, k) ↦ download_absent tag _ cs r (rw (k, new) at h)
      ]
