-- ===== src/Version/RoundTrip.antt =====
-- A printed version is read back, in both notations.
use cluster_stack_operator.Base.{
  ℕ, ◌≢◌, false, ◌≡◌, refl, [], ◌∷◌, ◌++◌, some, ok, inl, inr, Bool-cases, if◌then◌else◌, ap, pos,
}
use cluster_stack_operator.Strings.{Text, text_eq, dash, dot}
use cluster_stack_operator.Strings.Order.{text_eq_refl}
use cluster_stack_operator.Strconv.{atoi, itoa}
use cluster_stack_operator.Strconv.RoundTrip.{atoi-itoa, itoa-IsDigits, itoa-ne-nil}
use cluster_stack_operator.Version.{
  Version, channel_stable, parse_version_string, new, string, string_with_dot, is_empty,
}
use cluster_stack_operator.Version.Pattern.{IsWord, IsNumeral}
use cluster_stack_operator.Version.Valid.{IsMajor, IsParsed}
use cluster_stack_operator.Version.Reading.{Spells, parse_iff, new_iff, Spells-IsParsed}

-- What a print keeps of a version: the stable channel shows no patch.
unfoldable pub normal : Version → Version
normal v =
    if text_eq v.channel channel_stable
    then record { major = v.major; channel = channel_stable; patch = [] }
    else v

not_empty : (s : Text) → s ≢ [] → is_empty s ≡ false
not_empty [] h = absurd (h refl)
not_empty (c ∷ s) h = refl

itoa-IsNumeral : (v : Version) → IsMajor v.major → IsNumeral (itoa v.major)
itoa-IsNumeral v m = rw m.is_pos (record {
  some_byte = not_empty (itoa (pos m.value)) (itoa-ne-nil m.value);
  in_class = itoa-IsDigits m.value;
})

atoi-itoa_major : (v : Version) → IsMajor v.major → atoi (itoa v.major) ≡ some v.major
atoi-itoa_major v m = rw m.is_pos (atoi-itoa m.value m.fits)

pub suffix_words :
    (v : Version)
    → IsParsed v
    → text_eq v.channel channel_stable ≡ false
    → IsWord v.channel × IsWord v.patch
suffix_words v w e = elim w.suffix [
  | inl (stable, _) ↦
      absurd (cc (e, text_eq_refl channel_stable, ap (λ c. text_eq c channel_stable) stable))
  | inr words ↦ words
]

-- The prints, spelled out on the two branches.
module _ (v : Version) (w : IsParsed v) where
  numeral : IsNumeral (itoa v.major)
  numeral = itoa-IsNumeral v w.major_fits

  major_back : atoi (itoa v.major) ≡ some v.major
  major_back = atoi-itoa_major v w.major_fits

  Spells-stable :
      (sep : ℕ)
      → Spells sep (b'v' ∷ itoa v.major) (record v { channel = channel_stable; patch = [] })
  Spells-stable sep =
      Spells.bare (itoa v.major) numeral refl
        (record { major_read = major_back; channel_read = refl; patch_read = refl })

  Spells-words :
      (sep : ℕ)
      → text_eq v.channel channel_stable ≡ false
      → Spells sep (b'v' ∷ (itoa v.major ++ dash ∷ (v.channel ++ sep ∷ v.patch))) v
  Spells-words sep e =
      let (hc, hp) = suffix_words v w e in
      Spells.full (itoa v.major) v.channel v.patch numeral hc hp refl
        (record { major_read = major_back; channel_read = refl; patch_read = refl })

  pub string-Spells : Spells dash (string v) (normal v)
  unfolding string normal
  string-Spells = elim (Bool-cases (text_eq v.channel channel_stable)) [
    | inl e ↦ rw e (Spells-stable dash)
    | inr e ↦ rw e (Spells-words dash e)
  ]

  pub string_with_dot-Spells : Spells dot (string_with_dot v) (normal v)
  unfolding string_with_dot normal
  string_with_dot-Spells = elim (Bool-cases (text_eq v.channel channel_stable)) [
    | inl e ↦ rw e (Spells-stable dot)
    | inr e ↦ rw e (Spells-words dot e)
  ]

-- The dash notation of a version that a parser can return is parsed to it, but for the patch of the
-- stable channel, which the notation does not show.
pub parse-string : (v : Version) → IsParsed v → parse_version_string (string v) ≡ ok (normal v)
parse-string v w = (parse_iff (string v) (normal v)).1 (string-Spells v w)

-- The dot notation of a version that a parser can return is parsed to it by `New`, likewise.
pub new-string_with_dot : (v : Version) → IsParsed v → new (string_with_dot v) ≡ ok (normal v)
new-string_with_dot v w = (new_iff (string_with_dot v) (normal v)).1 (string_with_dot-Spells v w)

-- Normalising a version in dot notation, as for the metadata of a release: `New` and then `String`
-- gives a text in dash notation that stands for the same version.
pub parse-string-new :
    (s : Text) (v : Version) → new s ≡ ok v → parse_version_string (string v) ≡ ok (normal v)
parse-string-new s v h = parse-string v (Spells-IsParsed dot s v ((new_iff s v).0 h))

-- The other way: a parsed dash notation, printed with a dot, is what `New` reads.
pub new-string_with_dot-parse :
    (s : Text) (v : Version)
    → parse_version_string s ≡ ok v
    → new (string_with_dot v) ≡ ok (normal v)
new-string_with_dot-parse s v h =
    new-string_with_dot v (Spells-IsParsed dash s v ((parse_iff s v).0 h))
