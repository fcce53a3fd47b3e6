-- ===== src/Strconv/RoundTrip.antt =====
-- A printed number is read back.
use mathlib.Core.List.{cons-ne-nil}
use cluster_stack_operator.Base.{
  ◌∙◌, ℕ, zero, suc, ◌+◌, ◌/◌, ◌%◌, ◌≤◌, ◌<◌, ◌≡◌, ◌≢◌, refl, true, false, [], ◌∷◌, some, arith,
  All, pos, Bool-cases, inl, inr, ltb,
}
use cluster_stack_operator.Strings.{Text, Lacks}
use cluster_stack_operator.Strconv.{is_digit, max_int, digits_value, atoi, digits, format, itoa}

abbrev pub IsDigits : Text → Type 0
IsDigits = All (λ c. is_digit c ≡ true)

digits_value_last :
    (n : ℕ) (acc : Text) → digits_value ((b'0' + n % 10) ∷ acc) (n / 10) ≡ digits_value acc n
unfolding digits_value
digits_value_last n acc = ground arith

digits_value_small :
    (n : ℕ) (acc : Text) → n < 10 → digits_value ((b'0' + n % 10) ∷ acc) 0 ≡ digits_value acc n
unfolding digits_value
digits_value_small n acc h = ground arith

digits_value-digits :
    (f n : ℕ) (acc : Text) → n < f → digits_value (digits f n acc) 0 ≡ digits_value acc n
unfolding digits
digits_value-digits zero n acc h = elim h [ ]
digits_value-digits (suc f) n acc h = elim (Bool-cases (ltb n 10)) [
  | inl small ↦ rw small (digits_value_small n acc (ground arith))
  | inr more ↦
      rw (more, digits_value-digits f (n / 10) ((b'0' + n % 10) ∷ acc) (ground arith))
        (digits_value_last n acc)
]

digits-IsDigits : (f n : ℕ) (acc : Text) → IsDigits acc → IsDigits (digits f n acc)
unfolding digits
digits-IsDigits zero n acc h = h
digits-IsDigits (suc f) n acc h = elim (Bool-cases (ltb n 10)) [
  | inl small ↦ rw small (ground arith, h)
  | inr more ↦ rw more (digits-IsDigits f (n / 10) ((b'0' + n % 10) ∷ acc) (ground arith, h))
]

digits-ne-nil : (f n : ℕ) (acc : Text) → acc ≢ [] → digits f n acc ≢ []
unfolding digits
digits-ne-nil zero n acc h = h
digits-ne-nil (suc f) n acc h = ground (arith, digits-ne-nil f (n / 10) ((b'0' + n % 10) ∷ acc))

format-IsDigits : (n : ℕ) → IsDigits (format n)
unfolding format
format-IsDigits n = digits-IsDigits (suc n) n [] tt

format-ne-nil : (n : ℕ) → format n ≢ []
unfolding format
format-ne-nil n =
    ground (arith, digits-ne-nil n (n / 10) ((b'0' + n % 10) ∷ []) (cons-ne-nil (b'0' + n % 10) []))

digits_value-format : (n : ℕ) → digits_value (format n) 0 ≡ some n
unfolding format
digits_value-format n = digits_value-digits (suc n) n [] (omega arith) ∙ unfold digits_value in refl

-- `Atoi` of digits alone has no sign to read.
atoi_digits :
    (s : Text) (n : ℕ)
    → IsDigits s
    → s ≢ []
    → digits_value s 0 ≡ some n
    → n ≤ max_int
    → atoi s ≡ some (pos n)
unfolding atoi
atoi_digits [] n d h e le = absurd (h refl)
atoi_digits (c ∷ s) n (d, _) h e le = ground (arith, e)

-- An `int` that is not negative is read back from its print.
pub atoi-itoa : (n : ℕ) → n ≤ max_int → atoi (itoa (pos n)) ≡ some (pos n)
unfolding itoa
atoi-itoa n le =
    atoi_digits (format n) n (format-IsDigits n) (format-ne-nil n) (digits_value-format n) le

pub itoa-IsDigits : (n : ℕ) → IsDigits (itoa (pos n))
unfolding itoa
itoa-IsDigits n = format-IsDigits n

pub itoa-ne-nil : (n : ℕ) → itoa (pos n) ≢ []
unfolding itoa
itoa-ne-nil n = format-ne-nil n

IsDigits-Lacks : (b : ℕ) (s : Text) → is_digit b ≡ false → IsDigits s → Lacks b s
IsDigits-Lacks b [] h d = tt
IsDigits-Lacks b (c ∷ s) h (d, ds) = (ground arith, IsDigits-Lacks b s h ds)

-- The print of a number that is not negative holds digits only.
pub itoa-Lacks : (b n : ℕ) → is_digit b ≡ false → Lacks b (itoa (pos n))
itoa-Lacks b n h = IsDigits-Lacks b (itoa (pos n)) h (itoa-IsDigits n)
