-- ===== src/ClusterAddon/Inside.antt =====
-- `unTarContent` writes below its target directory, if no name of the archive has a part `..`.
use cluster_stack_operator.Base.{
  true, ◌≡◌, ◌∙◌, List, ◌∷◌, some, Bool-cases, Option-cases, inl, inr, All,
}
use cluster_stack_operator.Strings.{Text, split}
use cluster_stack_operator.ClusterAddon.Paths.{NoUp, IsBelow, parts-clean, parts-join}
use cluster_stack_operator.ClusterAddon.Untar.{
  slash, is_rooted, clean, join_clean, dir, EntryType, directory, regular, other, Archive, end,
  broken, entry, TarEnv, extract_entry, extract, un_tar_content,
}

-- The files that were written, the last one in front. Only `write` writes a file.
pub record Log {W : Type 0} (env : TarEnv W) : Type 0 where
  pub written : W → List Text
  pub made : (w : W) (p : Text) → written (env.mkdir_all w p).0 ≡ written w
  pub wrote : (w : W) (p b : Text) → written (env.write w p b).0 ≡ p ∷ written w

-- No name of an archive has a part `..`.
abbrev pub Safe : Archive → Type 0
Safe end = Unit
Safe broken = Unit
Safe (entry t name content rest) = NoUp (split name slash) × Safe rest

module _ {W : Type 0} (env : TarEnv W) (log : Log env) (dst : Text)
    (rooted : is_rooted dst ≡ true) where
  abbrev Within : W → Type 0
  Within w = All (IsBelow dst) (log.written w)

  made-Within : (w : W) (p : Text) → Within w → Within (env.mkdir_all w p).0
  made-Within w p h = rw (log.made w p) h

  entry-Within :
      (t : EntryType) (name content : Text) (w : W)
      → NoUp (split name slash)
      → Within w
      → Within (extract_entry env dst t name content w).0
  unfolding extract_entry
  entry-Within directory name content w n h = made-Within w (join_clean dst name) h
  entry-Within other name content w n h = h
  entry-Within regular name content w n h =
      let path = join_clean dst name in
      let ((rest, below), r) = parts-join dst name rooted n in
      let w' = (env.mkdir_all w (dir path)).0 in
      elim (Bool-cases (env.mkdir_all w (dir path)).1) [
        | inl bad ↦ rw (bad, extract_entry) (made-Within w (dir path) h)
        | inr good ↦
            rw (good, extract_entry)
              (rw (log.wrote w' (clean path) content)
                ((rest, (parts-clean path r).0 ∙ below), made-Within w (dir path) h))
      ]

  extract-Within : (a : Archive) (w : W) → Safe a → Within w → Within (extract env dst a w).0
  unfolding extract
  extract-Within end w n h = h
  extract-Within broken w n h = h
  extract-Within (entry t name content rest) w (n, ns) h =
      elim (Bool-cases (extract_entry env dst t name content w).1) [
        | inl bad ↦ rw (bad, extract) (entry-Within t name content w n h)
        | inr good ↦
            rw (good, extract)
              (extract-Within rest (extract_entry env dst t name content w).0 ns
                (entry-Within t name content w n h))
      ]

  -- If the target directory is given by a rooted path, no name of the archive has a part `..`, and all the
  -- files written so far are at the directory or below, then so are all those written after the archive
  -- is unpacked.
  pub un_tar_within :
      (src : Text) (w : W)
      → ((v : W) (a : Archive) → env.open_archive v (clean src) ≡ some a → Safe a)
      → All (IsBelow dst) (log.written w)
      → All (IsBelow dst) (log.written (un_tar_content env w src dst).0)
  unfolding un_tar_content
  un_tar_within src w safe h = elim (Bool-cases (env.mkdir_all w dst).1) [
    | inl bad ↦ rw (bad, un_tar_content) (made-Within w dst h)
    | inr good ↦
        let w' = (env.mkdir_all w dst).0 in
        elim (Option-cases (env.open_archive w' (clean src))) [
          | inl e ↦ rw (good, e, un_tar_content) (made-Within w dst h)
          | inr (a, e) ↦
              rw (good, e, un_tar_content) (extract-Within a w' (safe w' a e) (made-Within w dst h))
        ]
  ]
