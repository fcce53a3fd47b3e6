-- ===== src/Version/Valid.antt =====
-- Which versions the parsers can return, and that they pass `Validate`.
use cluster_stack_operator.Base.{
  ◌==◌, Bool-cases, ℕ, true, false, ◌≡◌, refl, [], ◌∷◌, ◌≤◌, Option, none, some, arith, ℤ, pos,
  int_lt, ok, ◌⊎◌, inl, inr,
}
use cluster_stack_operator.Strings.{Text, text_eq, Lacks, dash}
use cluster_stack_operator.Strings.Order.{text_eq_refl}
use cluster_stack_operator.Strconv.{max_int, unsigned, as_pos, atoi}
use cluster_stack_operator.Version.{
  Version, channel_stable, is_empty, atoi_value, validate, validated,
}
use cluster_stack_operator.Version.Pattern.{IsWord, IsNumeral}

-- A major version that an `int` holds.
pub record IsMajor (m : ℤ) : Type 0 where
  pub value : ℕ
  pub is_pos : m ≡ pos value
  pub fits : value ≤ max_int

-- The channel and the patch of a version string: words, or the stable channel with no patch.
pub record IsParsed (v : Version) : Type 0 where
  pub major_fits : IsMajor v.major
  pub suffix : ((v.channel ≡ channel_stable) × (v.patch ≡ [])) ⊎ (IsWord v.channel × IsWord v.patch)

-- In addition, a version of the stable channel has no patch, as its print shows none.
pub record IsCanonical (v : Version) : Type 0 where
  pub parsed : IsParsed v
  pub stable_bare : text_eq v.channel channel_stable ≡ true → v.patch ≡ []

as_pos-not-neg : (o : Option ℕ) (z : ℤ) → as_pos o ≡ some z → IsMajor z
as_pos-not-neg none z h = cc
as_pos-not-neg (some n) z h = record { value = n; is_pos = ground arith; fits = ground arith }

-- A number with no minus sign is not negative.
pub atoi-Lacks-dash : (s : Text) (z : ℤ) → Lacks dash s → atoi s ≡ some z → IsMajor z
unfolding atoi
atoi-Lacks-dash [] z l h = cc
atoi-Lacks-dash (c ∷ s) z (l, ls) h = elim (Bool-cases (c == b'+')) [
  | inl e ↦ as_pos-not-neg (unsigned s) z (ground arith)
  | inr e ↦ as_pos-not-neg (unsigned (c ∷ s)) z (ground arith)
]

-- What begins with a digit or a letter has no minus sign to read.
atoi_word : (s : Text) (z : ℤ) → IsWord s → atoi s ≡ some z → IsMajor z
unfolding atoi
atoi_word [] z w h = absurd (ground (arith, w.some_byte))
atoi_word (c ∷ s) z w h = as_pos-not-neg (unsigned (c ∷ s)) z (ground (arith, w.in_class))

pub atoi_numeral : (s : Text) (z : ℤ) → IsNumeral s → atoi s ≡ some z → IsMajor z
unfolding atoi
atoi_numeral [] z w h = absurd (ground (arith, w.some_byte))
atoi_numeral (c ∷ s) z w h = as_pos-not-neg (unsigned (c ∷ s)) z (ground (arith, w.in_class))

atoi_value_word : (s : Text) → IsWord s → int_lt (atoi_value s) (pos 0) ≡ false
atoi_value_word s w = go (atoi s) (λ z. atoi_word s z w)
  where
    go :
        (o : Option ℤ)
        → ((z : ℤ) → o ≡ some z → IsMajor z)
        → int_lt (elim o [ none ↦ pos 0 | some n ↦ n ]) (pos 0) ≡ false
    go none f = refl
    go (some z) f = ground (arith, (f z refl).is_pos)

text_eq_nil : (s : Text) → is_empty s ≡ false → text_eq s [] ≡ false
unfolding text_eq
text_eq_nil [] h = cc
text_eq_nil (c ∷ s) h = refl

is_stable : {c : Text} → c ≡ channel_stable → text_eq c channel_stable ≡ true
is_stable e = rw e (text_eq_refl channel_stable)

-- What the parsers build passes `Validate`.
pub validate-IsParsed : (v : Version) → IsParsed v → validate v ≡ none
unfolding validate
validate-IsParsed v w = elim w.suffix [
  | inl (stable, _) ↦ ground (arith, w.major_fits.is_pos, is_stable stable)
  | inr (_, hp) ↦
      ground
        (arith, w.major_fits.is_pos, atoi_value_word v.patch hp, text_eq_nil v.patch hp.some_byte)
]

pub validated-IsParsed : (v : Version) → IsParsed v → validated v ≡ ok v
validated-IsParsed v w = rw (validate-IsParsed v w, validated)
