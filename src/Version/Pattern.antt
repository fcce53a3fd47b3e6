-- ===== src/Version/Pattern.antt =====
-- What the two regular expressions accept.
use cluster_stack_operator.Base.{
  ◌==◌, ◌↔◌, and_true, ==_iff, ℕ, Bool, true, false, not, ◌&&◌, ◌≡◌, refl, sym, [], ◌∷◌, ◌++◌,
  arith, All, inl, inr, Bool-cases, append-nil,
}
use cluster_stack_operator.Strings.{Text, dash}
use cluster_stack_operator.Strconv.{is_digit}
use cluster_stack_operator.Version.{
  match_suffix, match_sep, match_string, match_channel, is_word, is_empty, span, match_patch,
}

-- One or more bytes of a class.
pub record IsRun (p : ℕ → Bool) (s : Text) : Type 0 where
  pub some_byte : is_empty s ≡ false
  pub in_class : All (λ c. p c ≡ true) s

abbrev pub IsWord : Text → Type 0
IsWord = IsRun is_word

abbrev pub IsNumeral : Text → Type 0
IsNumeral = IsRun is_digit

-- A text that begins with no byte of the class.
abbrev pub Stops : (ℕ → Bool) → Text → Type 0
Stops p [] = Unit
Stops p (c ∷ s) = p c ≡ false

-- The two forms of a version: the major version alone, or with the channel and the patch.
pub data Shape (sep : ℕ) (s : Text) : Type 0 where
  bare : (d : Text) → IsNumeral d → s ≡ b'v' ∷ d → Shape sep s
  full :
      (d w p : Text)
      → IsNumeral d
      → IsWord w
      → IsWord p
      → s ≡ b'v' ∷ (d ++ dash ∷ (w ++ sep ∷ p))
      → Shape sep s

module _ (p : ℕ → Bool) where
  pub span_run : (s r : Text) → All (λ c. p c ≡ true) s → Stops p r → span p (s ++ r) ≡ (s, r)
  unfolding span
  span_run [] [] h k = refl
  span_run [] (c ∷ r) h k = rw k
  span_run (c ∷ s) r (h, hs) k = rw (h, span_run s r hs k)

  span_append : (s : Text) → (span p s).0 ++ (span p s).1 ≡ s
  unfolding span
  span_append [] = refl
  span_append (c ∷ s) = ground (arith, span_append s)

  span_class : (s : Text) → All (λ c. p c ≡ true) (span p s).0
  unfolding span
  span_class [] = tt
  span_class (c ∷ s) = elim (Bool-cases (p c)) [ inl e ↦ rw e (e, span_class s) | inr e ↦ rw e tt ]

  span-IsRun : (s : Text) → not (is_empty (span p s).0) ≡ true → IsRun p (span p s).0
  span-IsRun s h = record { some_byte = ground arith; in_class = span_class s }

-- A test by `span` that passes leaves a run and a rest.
span_cases :
    (p : ℕ → Bool) (s : Text)
    → (w : Text) × (r : Text) × (span p s ≡ (w, r)) × (s ≡ w ++ r) × All (λ c. p c ≡ true) w
span_cases p s = ((span p s).0, (span p s).1, refl, sym (span_append p s), span_class p s)

match_patch_inv : (s : Text) → match_patch s ≡ true → IsWord s
unfolding match_patch
match_patch_inv s h =
    let (w, r, e, parts, all) = span_cases is_word s in go w r parts all (rw (e, match_patch) at h)
  where
    go :
        (w r : Text)
        → s ≡ w ++ r
        → All (λ c. is_word c ≡ true) w
        → (not (is_empty w) && is_empty r) ≡ true
        → IsWord s
    go [] r parts all h = cc
    go (c ∷ w) [] parts all h = rw (parts, append-nil) (record { some_byte = refl; in_class = all })
    go (c ∷ w) (d ∷ r) parts all h = cc

match_patch_of : (s : Text) → IsWord s → match_patch s ≡ true
unfolding match_patch
match_patch_of s w =
    let e : span is_word s ≡ (s, []) = rw (append-nil s) at (span_run is_word s [] w.in_class tt) in
    rw (e, match_patch) (ground arith)

-- What `\b\w+\bSEP\w+$` accepts.
ChannelPatch : ℕ → Text → Type 0
ChannelPatch sep s = (w : Text) × (p : Text) × IsWord w × IsWord p × (s ≡ w ++ sep ∷ p)

match_channel_inv : (sep : ℕ) (s : Text) → match_channel sep s ≡ true → ChannelPatch sep s
unfolding match_channel ChannelPatch
match_channel_inv sep s h =
    let (w, r, e, parts, all) = span_cases is_word s in
    go w r parts all (rw (e, match_channel) at h)
  where
    go :
        (w r : Text)
        → s ≡ w ++ r
        → All (λ c. is_word c ≡ true) w
        → (not (is_empty w) && match_sep sep r) ≡ true
        → (w : Text) × (p : Text) × IsWord w × IsWord p × (s ≡ w ++ sep ∷ p)
    go [] r parts all h = cc
    go (c ∷ w) [] parts all h = cc
    go (c ∷ w) (d ∷ r) parts all h =
        let (same, rest) = and_true (d == sep) (match_patch r) h in
        (
          c ∷ w,
          r,
          record { some_byte = refl; in_class = all },
          match_patch_inv r rest,
          rw (parts, (==_iff d sep).0 same),
        )

match_string_inv : (sep : ℕ) (s : Text) → match_string sep s ≡ true → Shape sep s
unfolding match_string ChannelPatch
match_string_inv sep [] h = cc
match_string_inv sep (c ∷ s) h =
    let (d, r, e, parts, all) = span_cases is_digit s in
    go d r parts all (rw (e, match_string) at h)
  where
    go :
        (d r : Text)
        → s ≡ d ++ r
        → All (λ c. is_digit c ≡ true) d
        → (c == b'v' && (not (is_empty d) && match_suffix sep r)) ≡ true
        → Shape sep (c ∷ s)
    go [] r parts all h = absurd (ground arith)
    go (x ∷ d) [] parts all h =
        Shape.bare (x ∷ d) (record { some_byte = refl; in_class = all })
          (rw (parts, (==_iff c b'v').0 (and_true _ _ h).0, append-nil))
    go (x ∷ d) (y ∷ r) parts all h =
        let (is_v, more) = and_true (c == b'v') (y == dash && match_channel sep r) h in
        let (is_dash, rest) = and_true (y == dash) (match_channel sep r) more in
        let (w, p, hw, hp, e) = match_channel_inv sep r rest in
        Shape.full (x ∷ d) w p (record { some_byte = refl; in_class = all }) hw hp
          (cc (parts, (==_iff c b'v').0 is_v, (==_iff y dash).0 is_dash, e))

module _ (sep : ℕ) (not_word : is_word sep ≡ false) where
  match_channel_of : (w p : Text) → IsWord w → IsWord p → match_channel sep (w ++ sep ∷ p) ≡ true
  unfolding match_channel
  match_channel_of w p hw hp =
      rw (span_run is_word w (sep ∷ p) hw.in_class not_word, match_channel)
        (ground (arith, match_patch_of p hp, hw.some_byte))

  match_string_of : (s : Text) → Shape sep s → match_string sep s ≡ true
  unfolding match_string
  match_string_of s (bare d hd e) =
      let split : span is_digit d ≡ (d, []) =
        rw (append-nil d) at (span_run is_digit d [] hd.in_class tt) in
      rw (e, split, match_string) (ground (arith, hd.some_byte))
  match_string_of s (full d w p hd hw hp e) =
      rw
        (
          e,
          span_run is_digit d (dash ∷ (w ++ sep ∷ p)) hd.in_class (refl),
          match_string,
          match_channel_of w p hw hp,
        )
        (ground (arith, hd.some_byte, match_channel_of w p hw hp))

  -- For a separator that is no byte of a word, the pattern accepts exactly the texts `vD` and
  -- `vD-WsepP`, where D is one or more digits and W and P are one or more bytes of a word.
  pub match_string_iff : (s : Text) → (match_string sep s ≡ true) ↔ Shape sep s
  match_string_iff s = (match_string_inv sep s, match_string_of s)
