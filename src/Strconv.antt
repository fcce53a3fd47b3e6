-- ===== src/Strconv.antt =====
-- What the code uses of the packages strconv and fmt: `strconv.Atoi`, and `%d` for an `int`.
pub mod RoundTrip
use cluster_stack_operator.Base.{
  ℕ, zero, suc, ◌+◌, ◌-◌, ◌*◌, ◌/◌, ◌%◌, ◌^◌, Bool, ◌&&◌, [], ◌∷◌, Option, none, some, ltb, leb,
  ◌==◌, if◌then◌else◌, ℤ, pos, negsuc,
}
use cluster_stack_operator.Strings.{Text}

abbrev pub is_digit : ℕ → Bool
is_digit c = leb b'0' c && leb c b'9'

-- The largest `int`.
abbrev pub max_int : ℕ
max_int = 2 ^ 63 - 1

-- The number that digits spell behind `n`, or `none` at a byte that is no digit.
unfoldable pub digits_value : Text → ℕ → Option ℕ
digits_value [] n = some n
digits_value (c ∷ s) n =
    let rest = digits_value s (n * 10 + (c - b'0')) in if is_digit c then rest else none

unfoldable pub unsigned : Text → Option ℕ
unfolding digits_value
unsigned [] = none
unsigned (c ∷ s) = digits_value (c ∷ s) 0

-- The range test of `int`.
abbrev pub as_pos : Option ℕ → Option ℤ
as_pos none = none
as_pos (some n) = if leb n max_int then some (pos n) else none

abbrev pub as_neg : Option ℕ → Option ℤ
as_neg none = none
as_neg (some zero) = some (pos zero)
as_neg (some (suc n)) = if leb n max_int then some (negsuc n) else none

-- `strconv.Atoi`: an optional sign, then one or more digits, in the range of `int`; `none` is an error.
unfoldable pub atoi : Text → Option ℤ
unfolding unsigned
atoi [] = none
atoi (c ∷ s) =
    if c == b'-'
    then as_neg (unsigned s)
    else if c == b'+'
    then as_pos (unsigned s)
    else as_pos (unsigned (c ∷ s))

-- The decimal digits of `n` in front of `acc`; `suc n` rounds are more than enough.
digits : ℕ → ℕ → Text → Text
digits zero n acc = acc
digits (suc f) n acc =
    let acc' = (b'0' + n % 10) ∷ acc in
    let rest = digits f (n / 10) acc' in if ltb n 10 then acc' else rest

unfoldable pub format : ℕ → Text
unfolding digits
format n = digits (suc n) n []

-- `fmt.Sprintf("%d", n)`.
unfoldable pub itoa : ℤ → Text
unfolding format
itoa (pos n) = format n
itoa (negsuc n) = b'-' ∷ format (suc n)
