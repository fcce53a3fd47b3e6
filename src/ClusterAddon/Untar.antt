-- ===== src/ClusterAddon/Untar.antt =====
-- internal/controller/clusteraddon_controller.go: `unTarContent`, with the functions of filepath that it uses.
use cluster_stack_operator.Base.{
  ℕ, Bool, true, false, ◌==◌, List, [], ◌∷◌, ◌++◌, Option, none, some, if◌then◌else◌,
}
use cluster_stack_operator.Strings.{Text, codes, text_eq, split, join}

abbrev pub slash : ℕ
slash = b'/'

abbrev pub is_rooted : Text → Bool
is_rooted [] = false
is_rooted (c ∷ s) = c == slash

abbrev pub dot_dot : Text
dot_dot = codes ".."

-- A part `..` removes the last one; at the root it is dropped, and else it stays.
abbrev pub up : Bool → List Text → List Text
up rooted [] = if rooted then [] else dot_dot ∷ []
up rooted (p ∷ ps) = if text_eq p dot_dot then dot_dot ∷ p ∷ ps else ps

-- The parts of a clean path, the last one in front.
unfoldable pub clean_parts : Bool → List Text → List Text → List Text
clean_parts rooted done [] = done
clean_parts rooted done (p ∷ ps) =
    if text_eq p []
    then clean_parts rooted done ps
    else if text_eq p (codes ".")
    then clean_parts rooted done ps
    else if text_eq p dot_dot
    then clean_parts rooted (up rooted done) ps
    else clean_parts rooted (p ∷ done) ps

abbrev pub reversed : List Text → List Text → List Text
reversed [] done = done
reversed (p ∷ ps) done = reversed ps (p ∷ done)

-- `filepath.Clean`, from the parts.
abbrev pub printed : Bool → List Text → Text
printed true ps = slash ∷ join ps slash
printed false [] = codes "."
printed false (p ∷ ps) = join (p ∷ ps) slash

unfoldable pub clean : Text → Text
clean path =
    printed (is_rooted path) (reversed (clean_parts (is_rooted path) [] (split path slash)) [])

-- `filepath.Join` of two elements: an empty one is left out.
unfoldable pub join_clean : Text → Text → Text
join_clean [] [] = []
join_clean [] (c ∷ b) = clean (c ∷ b)
join_clean (c ∷ a) [] = clean (c ∷ a)
join_clean (c ∷ a) (d ∷ b) = clean (c ∷ a ++ slash ∷ d ∷ b)

-- Everything up to the last slash.
unfoldable pub up_to_slash : Text → Text → Text → Text
up_to_slash [] seen kept = kept
up_to_slash (c ∷ s) seen kept =
    if c == slash
    then up_to_slash s (seen ++ c ∷ []) (seen ++ c ∷ [])
    else up_to_slash s (seen ++ c ∷ []) kept

-- `filepath.Dir`.
abbrev pub dir : Text → Text
dir path = clean (up_to_slash path [] [])

-- The headers of an archive, up to its end or to an error of the reader.
pub data EntryType : Type 0 where
  directory regular other : EntryType

pub data Archive : Type 0 where
  end broken : Archive
  entry : EntryType → Text → Text → Archive → Archive

-- The calls; `true` and `none` are errors. `open` opens the file and its gzip stream, and `write` creates
-- a file, copies the content and closes it;
-- `close` closes the archive.
pub record TarEnv (W : Type 0) : Type 0 where
  pub mkdir_all : W → Text → W × Bool
  pub open_archive : W → Text → Option Archive
  pub write : W → Text → Text → W × Bool
  pub close : W → Bool

module _ {W : Type 0} (env : TarEnv W) where
  -- The case of the type of an entry.
  unfoldable pub extract_entry : Text → EntryType → Text → Text → W → W × Bool
  extract_entry dst directory name content w = env.mkdir_all w (join_clean dst name)
  extract_entry dst regular name content w =
      let m = env.mkdir_all w (dir (join_clean dst name)) in
      if m.1 then m else env.write m.0 (clean (join_clean dst name)) content
  extract_entry dst other name content w = (w, true)

  -- The loop over the entries.
  unfoldable pub extract : Text → Archive → W → W × Bool
  extract dst end w = (w, env.close w)
  extract dst broken w = (w, true)
  extract dst (entry t name content rest) w =
      let e = extract_entry dst t name content w in if e.1 then e else extract dst rest e.0

  -- `unTarContent`; `true` is an error.
  unfoldable pub un_tar_content : W → Text → Text → W × Bool
  un_tar_content w src dst =
      let m = env.mkdir_all w dst in
      if m.1 then m else elim (env.open_archive m.0 (clean src)) [
        | none ↦ (m.0, true)
        | some archive ↦ extract dst archive m.0
      ]
