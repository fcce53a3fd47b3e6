-- ===== src/Version.antt =====
-- pkg/version: cluster stack versions, their two notations and their order.
pub mod Pattern
pub mod Valid
pub mod Parse
pub mod Reading
pub mod RoundTrip
pub mod Order
use cluster_stack_operator.Base.{
  ℕ, Bool, true, false, not, ◌&&◌, ◌||◌, List, [], ◌∷◌, ◌++◌, Option, none, some, ltb, leb, ◌==◌,
  if◌then◌else◌, ℤ, pos, negsuc, int_lt, Result, ok, err,
}
use cluster_stack_operator.Strings.{
  Text, codes, text_eq, text_lt, split, join, trim_prefix, dash, dot,
}
use cluster_stack_operator.Strconv.{is_digit, atoi, itoa}

-- `Channel` is a string; these are its two constants.
abbrev pub channel_stable : Text
channel_stable = codes "stable"

abbrev pub channel_custom : Text
channel_custom = codes "custom"

-- `Channel.IsValid`.
unfoldable pub channel_is_valid : Text → Bool
channel_is_valid c = text_eq c channel_stable || text_eq c channel_custom

pub record Version : Type 0 where
  pub major : ℤ
  pub channel : Text
  pub patch : Text

-- The errors, by the messages of the source.
pub data Error : Type 0 where
  invalid_version_string : Text → Error
  invalid_major_version : Text → Error
  invalid_release_tag : Text → Error
  major_negative : Error
  patch_negative : Error
  patch_empty : Error
  different_channels : Text → Text → Error

-- `\w` of the regular expressions; `\d` is `is_digit`.
abbrev pub is_word : ℕ → Bool
is_word c = is_digit c || leb b'A' c && leb c b'Z' || leb b'a' c && leb c b'z' || c == b'_'

-- The longest prefix whose bytes pass the test, and the rest.
unfoldable pub span : (ℕ → Bool) → Text → Text × Text
span p [] = ([], [])
span p (c ∷ s) = let (a, b) = span p s in if p c then (c ∷ a, b) else ([], c ∷ s)

abbrev pub is_empty : Text → Bool
is_empty [] = true
is_empty (_ ∷ _) = false

-- `\w+$`
unfoldable pub match_patch : Text → Bool
unfolding span
match_patch s = let (w, r) = span is_word s in not (is_empty w) && is_empty r

unfoldable pub match_sep : ℕ → Text → Bool
unfolding match_patch
match_sep sep [] = false
match_sep sep (c ∷ s) = c == sep && match_patch s

-- `\b\w+\b` and the separator, then the patch.
unfoldable pub match_channel : ℕ → Text → Bool
unfolding match_sep
match_channel sep s = let (w, r) = span is_word s in not (is_empty w) && match_sep sep r

unfoldable pub match_suffix : ℕ → Text → Bool
unfolding match_channel
match_suffix sep [] = true
match_suffix sep (c ∷ s) = c == dash && match_channel sep s

-- The expression `^v\d+(-\b\w+\bSEP\w+)?$` with the separator `-` or `.`. Neither separator is of the
-- classes `\d` and `\w`, so a longest run is the only run that can lead to a match, and the word
-- boundaries hold at its ends.
unfoldable pub match_string : ℕ → Text → Bool
unfolding match_suffix
match_string sep [] = false
match_string sep (c ∷ s) =
    let (d, r) = span is_digit s in c == b'v' && (not (is_empty d) && match_suffix sep r)

-- `isInteger`.
unfoldable pub is_integer : Text → Bool
is_integer s = elim (atoi s) [ none ↦ false | some _ ↦ true ]

-- `patchInt, _ := strconv.Atoi(csv.Patch)`.
abbrev pub atoi_value : Text → ℤ
atoi_value s = elim (atoi s) [ none ↦ pos 0 | some n ↦ n ]

-- `Validate`; `none` is the nil error.
unfoldable pub validate : Version → Option Error
validate csv =
    if int_lt csv.major (pos 0)
    then some major_negative
    else if text_eq csv.channel channel_stable
    then none
    else if is_integer csv.patch && int_lt (atoi_value csv.patch) (pos 0)
    then some patch_negative
    else if text_eq csv.patch []
    then some patch_empty
    else none

-- The end of both parsers: validate, and return the version.
abbrev pub validated : Version → Result Error Version
validated v = elim (validate v) [ none ↦ ok v | some e ↦ err e ]

-- `ver[0]`; a split has at least one part.
abbrev pub first : List Text → Text
first [] = []
first (p ∷ _) = p

-- The channel and the patch of the three parts `ver`, or the defaults.
abbrev pub channel_of : List Text → Text
channel_of (_ ∷ channel ∷ _ ∷ []) = channel
channel_of _ = channel_stable

abbrev pub patch_of : List Text → Text
patch_of (_ ∷ _ ∷ patch ∷ []) = patch
patch_of _ = []

-- `ParseVersionString`, from the parts `ver` on.
parse_parts : List Text → Result Error Version
parse_parts ver = elim (atoi (trim_prefix (first ver) b'v')) [
  | none ↦ err (invalid_major_version (first ver))
  | some major ↦
      validated (record { major = major; channel = channel_of ver; patch = patch_of ver })
]

-- `ParseVersionString`.
unfoldable pub parse_version_string : Text → Result Error Version
unfolding parse_parts
parse_version_string version =
    if not (match_string dash version)
    then err (invalid_version_string version)
    else parse_parts (split version dash)

-- The part of `New` behind the major version: `none` where the channel and the patch cannot be split.
abbrev pub channel_patch : List Text → Option (Text × Text)
channel_patch (channel ∷ patch ∷ []) = some (channel, patch)
channel_patch _ = none

abbrev pub dot_parts : List Text → Option (Text × Text)
dot_parts (_ ∷ v1 ∷ []) = channel_patch (split v1 dot)
dot_parts _ = some (channel_stable, [])

-- `New`, from the parsed major version on.
new_suffix : Text → ℤ → Option (Text × Text) → Result Error Version
new_suffix version major none = err (invalid_version_string version)
new_suffix version major (some (channel, patch)) =
    validated (record { major = major; channel = channel; patch = patch })

-- `New`, from the parts `ver` on.
new_parts : Text → List Text → Result Error Version
unfolding new_suffix
new_parts version ver = elim (atoi (trim_prefix (first ver) b'v')) [
  | none ↦ err (invalid_major_version (first ver))
  | some major ↦ new_suffix version major (dot_parts ver)
]

-- `New`.
unfoldable pub new : Text → Result Error Version
unfolding new_parts
new version =
    if not (match_string dot version)
    then err (invalid_version_string version)
    else new_parts version (split version dash)

-- `FromReleaseTag`: the parts behind the Kubernetes version.
unfoldable pub from_parts : Text → List Text → Result Error Version
from_parts tag (_ ∷ _ ∷ _ ∷ _ ∷ v4 ∷ []) = parse_version_string v4
from_parts tag (_ ∷ _ ∷ _ ∷ _ ∷ v4 ∷ v5 ∷ v6 ∷ []) =
    parse_version_string (v4 ++ dash ∷ (v5 ++ dash ∷ v6))
from_parts tag _ = err (invalid_release_tag tag)

unfoldable pub from_release_tag : Text → Result Error Version
from_release_tag tag = from_parts tag (split tag dash)

-- `Compare`: 1, -1 or 0.
unfoldable pub compare : Version → Version → Result Error ℤ
compare csv input =
    if text_eq csv.channel input.channel
    then (if int_lt input.major csv.major
        then ok (pos 1)
        else if int_lt csv.major input.major
        then ok (negsuc 0)
        else if text_lt input.patch csv.patch
        then ok (pos 1)
        else if text_lt csv.patch input.patch
        then ok (negsuc 0)
        else ok (pos 0))
    else err (different_channels csv.channel input.channel)

-- `String`.
unfoldable pub string : Version → Text
string csv =
    if text_eq csv.channel channel_stable
    then b'v' ∷ itoa csv.major
    else b'v' ∷ (itoa csv.major ++ dash ∷ (csv.channel ++ dash ∷ csv.patch))

-- `StringWithDot`.
unfoldable pub string_with_dot : Version → Text
string_with_dot csv =
    if text_eq csv.channel channel_stable
    then b'v' ∷ itoa csv.major
    else b'v' ∷ (itoa csv.major ++ dash ∷ (csv.channel ++ dot ∷ csv.patch))
