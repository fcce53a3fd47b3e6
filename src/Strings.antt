-- ===== src/Strings.antt =====
-- Go's `string` and what the code uses of the package strings. A text is the list of its bytes.
pub mod Parts
pub mod Order
use Prim.Native.Char.{code}
use Prim.Native.String.{String}
use cluster_stack_operator.Base.{
  ℕ, Bool, true, false, ◌&&◌, List, [], ◌∷◌, ◌++◌, ◌==◌, ltb, if◌then◌else◌, ◌≡◌,
}

abbrev pub Text : Type 0
Text = List ℕ

abbrev pub codes : String → Text
codes String.[] = []
codes (String.◌∷◌ c s) = code c ∷ codes s

-- `s == t`.
unfoldable pub text_eq : Text → Text → Bool
text_eq [] [] = true
text_eq (a ∷ s) (b ∷ t) = (a == b) && text_eq s t
text_eq [] (b ∷ t) = false
text_eq (a ∷ s) [] = false

-- `s < t`: Go compares byte by byte, and a prefix is smaller.
unfoldable pub text_lt : Text → Text → Bool
text_lt [] [] = false
text_lt [] (b ∷ t) = true
text_lt (a ∷ s) [] = false
text_lt (a ∷ s) (b ∷ t) =
    let rest = text_lt s t in if ltb a b then true else if ltb b a then false else rest

-- `strings.Split(s, sep)` for a separator of one byte; `cur` is the part that is being read.
cut : ℕ → Text → Text → List Text
cut sep [] cur = cur ∷ []
cut sep (c ∷ s) cur = elim (c == sep) [
  | true ↦ cur ∷ cut sep s []
  | false ↦ cut sep s (cur ++ c ∷ [])
]

unfoldable pub split : Text → ℕ → List Text
unfolding cut
split s sep = cut sep s []

-- `strings.Join(parts, sep)`.
unfoldable pub join : List Text → ℕ → Text
join [] sep = []
join (p ∷ []) sep = p
join (p ∷ q ∷ ps) sep = p ++ sep ∷ join (q ∷ ps) sep

-- `strings.TrimPrefix(s, prefix)` for a prefix of one byte.
unfoldable pub trim_prefix : Text → ℕ → Text
trim_prefix [] c = []
trim_prefix (a ∷ s) c = if a == c then s else a ∷ s

-- `strings.TrimSuffix(s, suffix)`: the suffix is found where the rest of the text is equal to it.
unfoldable pub trim_suffix : Text → Text → Text
trim_suffix [] suffix = []
trim_suffix (c ∷ s) suffix =
    let rest = trim_suffix s suffix in if text_eq (c ∷ s) suffix then [] else c ∷ rest

abbrev pub dash : ℕ
dash = b'-'

abbrev pub dot : ℕ
dot = b'.'

-- A text that does not hold a byte.
abbrev pub Lacks : ℕ → Text → Type 0
Lacks b [] = Unit
Lacks b (c ∷ s) = ((c == b) ≡ false) × Lacks b s
