-- ===== src/Assets.antt =====
-- pkg/assetsclient/github/client.go and pkg/assetsclient/oci/client.go: the clients of the registries that hold
-- the releases.
pub mod Complete
use cluster_stack_operator.Base.{
  ℕ, Bool, true, false, not, ◌||◌, ◌==◌, List, [], ◌∷◌, Option, none, some, if◌then◌else◌, Result,
  ok, err,
}
use cluster_stack_operator.Strings.{Text, text_eq}
use cluster_stack_operator.ClusterAddon.Untar.{clean, join_clean}

-- `http.StatusOK`.
abbrev pub status_ok : ℕ
status_ok = 200

-- `github.ReleaseAsset`.
pub record Asset : Type 0 where
  pub id : ℕ
  pub name : Text

-- The answer of `DownloadReleaseAsset`: the content, or an URL that is not empty.
pub data Download : Type 0 where
  content : Text → Download
  redirect : Text → Download

-- The repository behind the API of GitHub and HTTP; `none` is an error, and a number a status.
pub record Remote : Type 0 where
  pub list_releases : Option (ℕ × List Text)
  pub release_by_tag : Text → Option (ℕ × List Asset)
  pub asset : ℕ → Option Download
  pub fetch : Text → Option (ℕ × Text)

-- The calls on the disk and on streams; `true` is an error.
pub record Disk (W : Type 0) : Type 0 where
  pub mkdir_all : W → Text → W × Bool
  pub create : W → Text → W × Bool
  pub copy : W → Text → Text → W × Bool
  pub close_stream : W → Bool
  pub close_file : W → Bool

pub data AssetsError : Type 0 where
  list_failed fetch_failed bad_status mkdir_failed create_failed asset_failed : AssetsError
  redirect_failed copy_failed close_failed : AssetsError

-- `ListRelease` of the client of GitHub, for releases with a name.
unfoldable pub list_release : Remote → Result AssetsError (List Text)
list_release remote = elim remote.list_releases [
  | none ↦ err list_failed
  | some (status, releases) ↦ if status == status_ok then ok releases else err bad_status
]

module _ {W : Type 0} (remote : Remote) (disk : Disk W) where
  -- The world, and no error or the error.
  abbrev pub Saved : Type 0
  Saved = W × Option AssetsError

  abbrev pub closed : AssetsError → Bool → W → Saved
  closed e true w = (w, some e)
  closed e false w = (w, none)

  -- The copy of a stream to a file; then the stream is closed.
  abbrev pub copied : AssetsError → AssetsError → W × Bool → Saved
  copied e f (w, true) = (w, some e)
  copied e f (w, false) = closed f (disk.close_stream w) w

  abbrev pub fetched : Text → W → Option (ℕ × Text) → Saved
  fetched path w none = (w, some redirect_failed)
  fetched path w (some (status, body)) =
      if status == status_ok
      then copied redirect_failed redirect_failed (disk.copy w path body)
      else (w, some redirect_failed)

  -- `handleRedirect`, with the error that its caller makes of its own.
  unfoldable pub handle_redirect : Text → Text → W → Saved
  handle_redirect url path w = fetched path w (remote.fetch url)

  abbrev pub saved : Text → W → Option Download → Saved
  saved path w none = (w, some asset_failed)
  saved path w (some (redirect url)) = handle_redirect url path w
  saved path w (some (content body)) = copied copy_failed close_failed (disk.copy w path body)

  abbrev pub then_close : Saved → Saved
  then_close (w, some e) = (w, some e)
  then_close (w, none) = closed close_failed (disk.close_file w) w

  -- The body of the loop over the assets.
  unfoldable pub save_asset : Text → Asset → W → Saved
  save_asset path a w =
      let file = clean (join_clean path a.name) in
      let c = disk.create w file in
      if c.1 then (c.0, some create_failed) else then_close (saved file c.0 (remote.asset a.id))

  -- The loop over the assets.
  unfoldable pub save_assets : Text → List Asset → W → Saved
  save_assets path [] w = (w, none)
  save_assets path (a ∷ l) w =
      let s = save_asset path a w in elim s.1 [ some e ↦ s | none ↦ save_assets path l s.0 ]

  -- `DownloadReleaseAssets` of the client of GitHub.
  unfoldable pub download_release_assets : Text → Text → W → Saved
  download_release_assets tag path w = elim (remote.release_by_tag tag) [
    | none ↦ (w, some fetch_failed)
    | some (status, assets) ↦
        if not (status == status_ok)
        then (w, some bad_status)
        else let m = disk.mkdir_all w path in
          if m.1 then (m.0, some mkdir_failed) else save_assets path assets m.0
  ]

-- The client of an OCI registry: `file.New`, `oras.Copy` and `Close` of the store.
pub record Store (W : Type 0) : Type 0 where
  pub tags : Option (List Text)
  pub open_store : W → Text → Bool
  pub copy_artifacts : W → Text → Text → W × Bool
  pub close_store : W → Bool

pub data OciError : Type 0 where
  tags_failed store_failed artifacts_failed close_store_failed both_failed : OciError

-- `ListRelease`.
unfoldable pub list_tags : {W : Type 0} → Store W → Result OciError (List Text)
list_tags store = elim store.tags [ none ↦ err tags_failed | some l ↦ ok l ]

-- The error of the function and that of the deferred close, joined.
abbrev pub joined : Bool → Bool → Option OciError
joined false false = none
joined true false = some artifacts_failed
joined false true = some close_store_failed
joined true true = some both_failed

-- `DownloadReleaseAssets`.
unfoldable pub download_artifacts : {W : Type 0} → Store W → Text → Text → W → W × Option OciError
download_artifacts store tag path w =
    if store.open_store w path
    then (w, some store_failed)
    else let c = store.copy_artifacts w tag path in (c.0, joined c.1 (store.close_store c.0))
