-- ===== src/Assets/Complete.antt =====
-- A download without an error has saved every asset of the release.
use mathlib.Core.Path.{subst}
use cluster_stack_operator.Base.{
  ℕ, Bool, true, false, ◌==◌, ◌≡◌, refl, sym, ◌∙◌, ap, arith, List, [], ◌∷◌, Option, none, some,
  Bool-cases, Option-cases, inl, inr, All, ==_iff,
}
use cluster_stack_operator.Strings.{Text, text_eq}
use cluster_stack_operator.ClusterAddon.Untar.{clean, join_clean}
use cluster_stack_operator.Assets.{
  status_ok, Asset, Download, content, redirect, Remote, Disk, AssetsError, Saved, closed, copied,
  redirect_failed, copy_failed, close_failed, fetched, handle_redirect, saved, then_close,
  save_asset, save_assets, download_release_assets,
}

-- The contents of the files, as the calls are documented: a copy to a file that was created leaves the
-- content there, and no call touches the content of another file.
pub record Contents {W : Type 0} (disk : Disk W) : Type 0 where
  pub at : W → Text → Option Text
  pub made : (w : W) (p q : Text) → at (disk.mkdir_all w p).0 q ≡ at w q
  pub created : (w : W) (p q : Text) → text_eq p q ≡ false → at (disk.create w p).0 q ≡ at w q
  pub put : (w : W) (p b : Text) → (disk.copy w p b).1 ≡ false → at (disk.copy w p b).0 p ≡ some b
  pub kept : (w : W) (p q b : Text) → text_eq p q ≡ false → at (disk.copy w p b).0 q ≡ at w q

-- The file of an asset.
abbrev pub file_of : Text → Asset → Text
file_of path a = clean (join_clean path a.name)

-- The content that the remote repository has for an asset, directly or by a redirection.
pub data Serves (remote : Remote) (a : Asset) (b : Text) : Type 0 where
  directly : remote.asset a.id ≡ some (content b) → Serves remote a b
  redirected :
      (url : Text)
      → remote.asset a.id ≡ some (redirect url)
      → remote.fetch url ≡ some (status_ok, b)
      → Serves remote a b

-- No two assets of the list have the same file.
abbrev pub Distinct : Text → List Asset → Type 0
Distinct path [] = Unit
Distinct path (a ∷ l) =
    All (λ b. text_eq (file_of path b) (file_of path a) ≡ false) l × Distinct path l

module _ {W : Type 0} (remote : Remote) (disk : Disk W) (contents : Contents disk) where
  abbrev at : W → Text → Option Text
  at = contents.at

  closed_world : (e : AssetsError) (b : Bool) (w : W) → (closed remote disk e b w).0 ≡ w
  closed_world e true w = refl
  closed_world e false w = refl

  copied_world :
      (e f : AssetsError) (c : W × Bool)
      → ((copied remote disk e f c).0 ≡ c.0) × ((copied remote disk e f c).1 ≡ none → c.1 ≡ false)
  copied_world e f (w, true) = (refl, λ h. cc h)
  copied_world e f (w, false) = (closed_world f (disk.close_stream w) w, λ h. refl)

  then_close_world :
      (s : Saved remote disk)
      → ((then_close remote disk s).0 ≡ s.0) × ((then_close remote disk s).1 ≡ none → s.1 ≡ none)
  then_close_world (w, some e) = (refl, λ h. h)
  then_close_world (w, none) = (closed_world close_failed (disk.close_file w) w, λ h. refl)

  copied_put :
      (e f : AssetsError) (w : W) (p b : Text)
      → (copied remote disk e f (disk.copy w p b)).1 ≡ none
      → at (copied remote disk e f (disk.copy w p b)).0 p ≡ some b
  copied_put e f w p b h =
      let (same, good) = copied_world e f (disk.copy w p b) in
      ap (λ x. at x p) same ∙ contents.put w p b (good h)

  copied_kept :
      (e f : AssetsError) (w : W) (p q b : Text)
      → text_eq p q ≡ false
      → at (copied remote disk e f (disk.copy w p b)).0 q ≡ at w q
  copied_kept e f w p q b h =
      let (same, _) = copied_world e f (disk.copy w p b) in
      ap (λ x. at x q) same ∙ contents.kept w p q b h

  -- What the answer of the registry leaves in the file.
  abbrev Holds : W → Text → Asset → Type 0
  Holds w p a = (b : Text) × Serves remote a b × (at w p ≡ some b)

  fetched-Holds :
      (p url : Text) (a : Asset) (w : W) (o : Option (ℕ × Text))
      → remote.asset a.id ≡ some (redirect url)
      → remote.fetch url ≡ o
      → (fetched remote disk p w o).1 ≡ none
      → Holds (fetched remote disk p w o).0 p a
  fetched-Holds p url a w none e f h = absurd (cc h)
  fetched-Holds p url a w (some (status, b)) e f h = elim (Bool-cases (status == status_ok)) [
    | inr bad ↦ absurd (ground (arith, h, bad))
    | inl good ↦
        let is_ok : status ≡ status_ok = (==_iff status status_ok).0 good in
        rw good (
          b,
          redirected url e (f ∙ ap (λ x. some (x, b)) is_ok),
          copied_put redirect_failed redirect_failed w p b (rw good at h),
        )
  ]

  saved-Holds :
      (p : Text) (a : Asset) (w : W) (o : Option Download)
      → remote.asset a.id ≡ o
      → (saved remote disk p w o).1 ≡ none
      → Holds (saved remote disk p w o).0 p a
  unfolding handle_redirect
  saved-Holds p a w none e h = absurd (cc h)
  saved-Holds p a w (some (redirect url)) e h = fetched-Holds p url a w (remote.fetch url) e refl h
  saved-Holds p a w (some (content b)) e h =
      (b, directly e, copied_put copy_failed close_failed w p b h)

  saved_kept :
      (p q : Text) (w : W) (o : Option Download)
      → text_eq p q ≡ false
      → at (saved remote disk p w o).0 q ≡ at w q
  unfolding handle_redirect
  saved_kept p q w none h = refl
  saved_kept p q w (some (content b)) h = copied_kept copy_failed close_failed w p q b h
  saved_kept p q w (some (redirect url)) h = go (remote.fetch url)
    where
      go : (o : Option (ℕ × Text)) → at (fetched remote disk p w o).0 q ≡ at w q
      go none = refl
      go (some (status, b)) = elim (Bool-cases (status == status_ok)) [
        | inl good ↦ rw good (copied_kept redirect_failed redirect_failed w p q b h)
        | inr bad ↦ rw bad refl
      ]

  module _ (path : Text) (a : Asset) (w : W) where
    save-Holds :
        (save_asset remote disk path a w).1 ≡ none
        → Holds (save_asset remote disk path a w).0 (file_of path a) a
    unfolding save_asset
    save-Holds h = elim (Bool-cases (disk.create w (file_of path a)).1) [
      | inl bad ↦ absurd (ground (arith, h, bad))
      | inr good ↦
          let w' = (disk.create w (file_of path a)).0 in
          let s = saved remote disk (file_of path a) w' (remote.asset a.id) in
          let (same, back) = then_close_world s in
          let (b, serves, there) =
            saved-Holds (file_of path a) a w' (remote.asset a.id) refl
              (back (rw (good, save_asset) at h)) in
          rw (good, save_asset) (b, serves, ap (λ x. at x (file_of path a)) same ∙ there)
    ]

    save_kept :
        (q : Text)
        → text_eq (file_of path a) q ≡ false
        → at (save_asset remote disk path a w).0 q ≡ at w q
    unfolding save_asset
    save_kept q h = elim (Bool-cases (disk.create w (file_of path a)).1) [
      | inl bad ↦ rw (bad, save_asset) (contents.created w (file_of path a) q h)
      | inr good ↦
          let w' = (disk.create w (file_of path a)).0 in
          let s = saved remote disk (file_of path a) w' (remote.asset a.id) in
          rw (good, save_asset)
            (ap (λ x. at x q) (then_close_world s).0
              ∙ saved_kept (file_of path a) q w' (remote.asset a.id) h
              ∙ contents.created w (file_of path a) q h)
    ]

  -- An asset that none of the list has the file of keeps its content.
  saves_kept :
      (path : Text) (q : Text) (l : List Asset) (w : W)
      → All (λ b. text_eq (file_of path b) q ≡ false) l
      → at (save_assets remote disk path l w).0 q ≡ at w q
  unfolding save_assets
  saves_kept path q [] w h = refl
  saves_kept path q (a ∷ l) w (n, h) = elim (Option-cases (save_asset remote disk path a w).1) [
    | inr (e, bad) ↦ rw (bad, save_assets) (save_kept path a w q n)
    | inl good ↦
        rw (good, save_assets)
          (saves_kept path q l (save_asset remote disk path a w).0 h ∙ save_kept path a w q n)
  ]

  saves_hold :
      (path : Text) (l : List Asset) (w : W)
      → Distinct path l
      → (save_assets remote disk path l w).1 ≡ none
      → All (λ a. Holds (save_assets remote disk path l w).0 (file_of path a) a) l
  unfolding save_assets save_asset
  saves_hold path [] w d h = tt
  saves_hold path (a ∷ l) w (n, d) h = elim (Option-cases (save_asset remote disk path a w).1) [
    | inr (e, bad) ↦ absurd (ground (arith, h, bad))
    | inl good ↦
        let w' = (save_asset remote disk path a w).0 in
        let (b, serves, there) = save-Holds path a w good in
        subst (λ x. Holds x (file_of path a) a × All (λ a. Holds x (file_of path a) a) l)
          (same good)
          (
            (b, serves, saves_kept path (file_of path a) l w' n ∙ there),
            saves_hold path l w' d (rw (good, save_assets) at h),
          )
  ]
    where
      same :
          (save_asset remote disk path a w).1 ≡ none
          → (save_assets remote disk path l (save_asset remote disk path a w).0).0
            ≡ (save_assets remote disk path (a ∷ l) w).0
      same good = rw (good, save_assets) refl

  -- If the repository has a release for the tag, its assets have different files, and a copy puts its
  -- content into its file and changes no other file, then after a download from GitHub that returns no
  -- error every asset of the release is in its file, with the content that the repository serves for it.
  pub download_complete :
      (tag path : Text) (w : W) (status : ℕ) (assets : List Asset)
      → remote.release_by_tag tag ≡ some (status, assets)
      → Distinct path assets
      → (download_release_assets remote disk tag path w).1 ≡ none
      → All
          (λ a.
            (b : Text) × Serves remote a b
            × (contents.at (download_release_assets remote disk tag path w).0 (file_of path a)
                ≡ some b))
          assets
  unfolding download_release_assets
  download_complete tag path w status assets e d h = elim (Bool-cases (status == status_ok)) [
    | inr bad ↦ absurd (ground (arith, h, e, bad))
    | inl good ↦ elim (Bool-cases (disk.mkdir_all w path).1) [
      | inl failed ↦ absurd (ground (arith, h, e, good, failed))
      | inr made ↦
          let w' = (disk.mkdir_all w path).0 in
          let same : download_release_assets remote disk tag path w
              ≡ save_assets remote disk path assets w' =
            rw (e, good, made, download_release_assets) refl in
          subst (λ x. All (λ a. Holds x (file_of path a) a) assets) (ap (λ x. x.0) (sym same))
            (saves_hold path assets w' d (sym (ap (λ x. x.1) same) ∙ h))
    ]
  ]
