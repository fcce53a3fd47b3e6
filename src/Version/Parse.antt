-- ===== src/Version/Parse.antt =====
-- What the two parsers return, by the form of the text.
use cluster_stack_operator.Base.{
  List, Option-cases, List, ap, ==_iff, Bool, Result, ℕ, true, false, ◌≡◌, refl, [], ◌∷◌, ◌++◌,
  none, some, arith, ℤ, ok, err, ◌⊎◌, inl, inr, ◌==◌, All, Bool-cases,
}
use cluster_stack_operator.Strings.{Text, dash, dot, split, trim_prefix, Lacks}
use cluster_stack_operator.Strings.Parts.{split_last, split_step, Lacks-append}
use cluster_stack_operator.Strconv.{is_digit, atoi}
use cluster_stack_operator.Version.{
  channel_patch, dot_parts, new_parts, new_suffix, patch_of, channel_of, parse_parts, Version,
  channel_stable, is_word, parse_version_string, new, first, Error, invalid_major_version,
  validated,
}
use cluster_stack_operator.Version.Pattern.{IsWord, IsNumeral, bare, full, match_string_iff}
use cluster_stack_operator.Version.Valid.{atoi_numeral, validated-IsParsed}

-- The major version `d`, with a channel and a patch.
unfoldable pub with_major : Text → Text → Text → Result Error Version
with_major d w p = elim (atoi d) [
  | none ↦ err (invalid_major_version (b'v' ∷ d))
  | some m ↦ ok (record { major = m; channel = w; patch = p })
]

run_Lacks : (p : ℕ → Bool) (b : ℕ) (s : Text) → p b ≡ false → All (λ c. p c ≡ true) s → Lacks b s
run_Lacks p b [] h k = tt
run_Lacks p b (c ∷ s) h (k, ks) = (ne, run_Lacks p b s h ks)
  where
    ne : (c == b) ≡ false
    ne = elim (Bool-cases (c == b)) [ inl e ↦ cc (k, h, ap p ((==_iff c b).0 e)) | inr e ↦ e ]

numeral_Lacks : (d : Text) → IsNumeral d → Lacks dash (b'v' ∷ d)
numeral_Lacks d h = (refl, run_Lacks is_digit dash d refl h.in_class)

word_Lacks-dash : (w : Text) → IsWord w → Lacks dash w
word_Lacks-dash w h = run_Lacks is_word dash w refl h.in_class

pub word_Lacks-dot : (w : Text) → IsWord w → Lacks dot w
word_Lacks-dot w h = run_Lacks is_word dot w refl h.in_class

pub split-dash_bare : (d : Text) → IsNumeral d → split (b'v' ∷ d) dash ≡ (b'v' ∷ d) ∷ []
split-dash_bare d h = split_last dash (b'v' ∷ d) (numeral_Lacks d h)

pub split-dash_full :
    (d w p : Text)
    → IsNumeral d
    → IsWord w
    → IsWord p
    → split (b'v' ∷ (d ++ dash ∷ (w ++ dash ∷ p))) dash ≡ (b'v' ∷ d) ∷ w ∷ p ∷ []
split-dash_full d w p hd hw hp = rw (
  split_step dash (b'v' ∷ d) (w ++ dash ∷ p) (numeral_Lacks d hd),
  split_step dash w p (word_Lacks-dash w hw),
  split_last dash p (word_Lacks-dash p hp),
)

pub split-dash_dotted :
    (d w p : Text)
    → IsNumeral d
    → IsWord w
    → IsWord p
    → split (b'v' ∷ (d ++ dash ∷ (w ++ dot ∷ p))) dash ≡ (b'v' ∷ d) ∷ (w ++ dot ∷ p) ∷ []
split-dash_dotted d w p hd hw hp = rw (
  split_step dash (b'v' ∷ d) (w ++ dot ∷ p) (numeral_Lacks d hd),
  split_last dash (w ++ dot ∷ p)
      (Lacks-append dash w (dot ∷ p) (word_Lacks-dash w hw) (refl, word_Lacks-dash p hp)),
)

split-dot_full : (w p : Text) → IsWord w → IsWord p → split (w ++ dot ∷ p) dot ≡ w ∷ p ∷ []
split-dot_full w p hw hp =
    rw (split_step dot w p (word_Lacks-dot w hw), split_last dot p (word_Lacks-dot p hp))

-- What a suffix of a version string must be.
abbrev pub IsSuffix : Text → Text → Type 0
IsSuffix w p = ((w ≡ channel_stable) × (p ≡ [])) ⊎ (IsWord w × IsWord p)

-- The validation that ends both parsers never refuses what the pattern let through.
validated_major :
    (d w p : Text) (m : ℤ)
    → IsNumeral d
    → IsSuffix w p
    → atoi d ≡ some m
    → validated (record { major = m; channel = w; patch = p })
      ≡ ok (record { major = m; channel = w; patch = p })
validated_major d w p m hd hs e =
    validated-IsParsed (record { major = m; channel = w; patch = p })
      (record { major_fits = atoi_numeral d m hd e; suffix = hs })

module _ (d w p : Text) (hd : IsNumeral d) (hs : IsSuffix w p) where
  parse_parts_suffix :
      (ver : List Text)
      → first ver ≡ b'v' ∷ d
      → channel_of ver ≡ w
      → patch_of ver ≡ p
      → parse_parts ver ≡ with_major d w p
  unfolding parse_parts with_major trim_prefix
  parse_parts_suffix ver e c q = elim (Option-cases (atoi d)) [
    | inl bad ↦ ground (arith, trimmed)
    | inr (m, good) ↦ ground (arith, trimmed, validated_major d w p m hd hs good)
  ]
    where
      trimmed : atoi (trim_prefix (first ver) b'v') ≡ atoi d
      trimmed = rw e

  new_suffix_ok :
      (version : Text) (m : ℤ)
      → atoi d ≡ some m
      → new_suffix version m (some (w, p)) ≡ ok (record { major = m; channel = w; patch = p })
  unfolding new_suffix
  new_suffix_ok version m e = validated_major d w p m hd hs e

  new_parts_suffix :
      (version : Text) (ver : List Text)
      → first ver ≡ b'v' ∷ d
      → dot_parts ver ≡ some (w, p)
      → new_parts version ver ≡ with_major d w p
  unfolding new_parts with_major trim_prefix
  new_parts_suffix version ver e q = elim (Option-cases (atoi d)) [
    | inl bad ↦ ground (arith, trimmed)
    | inr (m, good) ↦
        ground (arith, trimmed, ap (new_suffix version m) q, new_suffix_ok version m good)
  ]
    where
      trimmed : atoi (trim_prefix (first ver) b'v') ≡ atoi d
      trimmed = rw e

pub parse_bare :
    (d : Text) → IsNumeral d → parse_version_string (b'v' ∷ d) ≡ with_major d channel_stable []
unfolding parse_version_string
parse_bare d h =
    rw
      (
        (match_string_iff dash refl (b'v' ∷ d)).1 (bare d h refl),
        split-dash_bare d h,
        parse_version_string,
      )
      (parse_parts_suffix d channel_stable [] h (inl (refl, refl)) ((b'v' ∷ d) ∷ []) refl refl refl)

pub parse_full :
    (d w p : Text)
    → IsNumeral d
    → IsWord w
    → IsWord p
    → parse_version_string (b'v' ∷ (d ++ dash ∷ (w ++ dash ∷ p))) ≡ with_major d w p
unfolding parse_version_string
parse_full d w p hd hw hp =
    rw
      (
        (match_string_iff dash refl (b'v' ∷ (d ++ dash ∷ (w ++ dash ∷ p)))).1
            (full d w p hd hw hp refl),
        split-dash_full d w p hd hw hp,
        parse_version_string,
      )
      (parse_parts_suffix d w p hd (inr (hw, hp)) ((b'v' ∷ d) ∷ w ∷ p ∷ []) refl refl refl)

pub new_bare : (d : Text) → IsNumeral d → new (b'v' ∷ d) ≡ with_major d channel_stable []
unfolding new
new_bare d h =
    rw ((match_string_iff dot refl (b'v' ∷ d)).1 (bare d h refl), split-dash_bare d h, new)
      (new_parts_suffix d channel_stable [] h (inl (refl, refl)) (b'v' ∷ d) ((b'v' ∷ d) ∷ []) refl
        refl)

pub new_full :
    (d w p : Text)
    → IsNumeral d
    → IsWord w
    → IsWord p
    → new (b'v' ∷ (d ++ dash ∷ (w ++ dot ∷ p))) ≡ with_major d w p
unfolding new
new_full d w p hd hw hp =
    rw
      (
        (match_string_iff dot refl (b'v' ∷ (d ++ dash ∷ (w ++ dot ∷ p)))).1
            (full d w p hd hw hp refl),
        split-dash_dotted d w p hd hw hp,
        new,
      )
      (new_parts_suffix d w p hd (inr (hw, hp)) (b'v' ∷ (d ++ dash ∷ (w ++ dot ∷ p)))
        ((b'v' ∷ d) ∷ (w ++ dot ∷ p) ∷ []) refl (ap channel_patch (split-dot_full w p hw hp)))
