-- ===== src/Version/Reading.antt =====
-- The two parsers against a description of the texts that they read.
use cluster_stack_operator.Base.{
  ◌∙◌, sym, ℕ, true, ◌≡◌, refl, ◌↔◌, [], ◌∷◌, ◌++◌, some, arith, ok, inl, inr, Option-cases,
}
use cluster_stack_operator.Strings.{Text, dash, dot}
use cluster_stack_operator.Strconv.{atoi}
use cluster_stack_operator.Version.{
  Version, channel_stable, parse_version_string, new, match_string,
}
use cluster_stack_operator.Version.Pattern.{IsWord, IsNumeral, Shape, match_string_iff}
use cluster_stack_operator.Version.Valid.{IsParsed, atoi_numeral}
use cluster_stack_operator.Version.Parse.{with_major, parse_bare, parse_full, new_bare, new_full}

-- The digits, the channel and the patch of a version.
pub record Holds (v : Version) (d w p : Text) : Type 0 where
  pub major_read : atoi d ≡ some v.major
  pub channel_read : v.channel ≡ w
  pub patch_read : v.patch ≡ p

-- The text `s` spells the version `v`, with `sep` in front of the patch.
pub data Spells (sep : ℕ) (s : Text) (v : Version) : Type 0 where
  bare : (d : Text) → IsNumeral d → s ≡ b'v' ∷ d → Holds v d channel_stable [] → Spells sep s v
  full :
      (d w p : Text)
      → IsNumeral d
      → IsWord w
      → IsWord p
      → s ≡ b'v' ∷ (d ++ dash ∷ (w ++ sep ∷ p))
      → Holds v d w p
      → Spells sep s v

with_major_inv : (d w p : Text) (v : Version) → with_major d w p ≡ ok v → Holds v d w p
unfolding with_major
with_major_inv d w p v h = elim (Option-cases (atoi d)) [
  | inl bad ↦ absurd (ground arith)
  | inr (m, good) ↦ record {
    major_read = ground arith;
    channel_read = ground arith;
    patch_read = ground arith;
  }
]

with_major_of : (d w p : Text) (v : Version) → Holds v d w p → with_major d w p ≡ ok v
unfolding with_major
with_major_of d w p v r = ground (arith, r.major_read, r.channel_read, r.patch_read)

parse-Shape :
    (s : Text) (v : Version) → Shape dash s → parse_version_string s ≡ ok v → Spells dash s v
parse-Shape s v (Shape.bare d hd e) h =
    bare d hd e (with_major_inv d channel_stable [] v (sym (parse_bare d hd) ∙ rw e at h))
parse-Shape s v (Shape.full d w p hd hw hp e) h =
    full d w p hd hw hp e (with_major_inv d w p v (sym (parse_full d w p hd hw hp) ∙ rw e at h))

new-Shape : (s : Text) (v : Version) → Shape dot s → new s ≡ ok v → Spells dot s v
new-Shape s v (Shape.bare d hd e) h =
    bare d hd e (with_major_inv d channel_stable [] v (sym (new_bare d hd) ∙ rw e at h))
new-Shape s v (Shape.full d w p hd hw hp e) h =
    full d w p hd hw hp e (with_major_inv d w p v (sym (new_full d w p hd hw hp) ∙ rw e at h))

parse_matches :
    (s : Text) (v : Version) → parse_version_string s ≡ ok v → match_string dash s ≡ true
unfolding parse_version_string
parse_matches s v h = ground arith

new_matches : (s : Text) (v : Version) → new s ≡ ok v → match_string dot s ≡ true
unfolding new
new_matches s v h = ground arith

Spells-parse : (s : Text) (v : Version) → Spells dash s v → parse_version_string s ≡ ok v
Spells-parse s v (bare d hd e r) = rw e (parse_bare d hd ∙ with_major_of d channel_stable [] v r)
Spells-parse s v (full d w p hd hw hp e r) =
    rw e (parse_full d w p hd hw hp ∙ with_major_of d w p v r)

Spells-new : (s : Text) (v : Version) → Spells dot s v → new s ≡ ok v
Spells-new s v (bare d hd e r) = rw e (new_bare d hd ∙ with_major_of d channel_stable [] v r)
Spells-new s v (full d w p hd hw hp e r) = rw e (new_full d w p hd hw hp ∙ with_major_of d w p v r)

-- `ParseVersionString` returns the version `v` exactly for the texts that spell it with a dash.
pub parse_iff : (s : Text) (v : Version) → (parse_version_string s ≡ ok v) ↔ Spells dash s v
parse_iff s v = (
  λ h. parse-Shape s v ((match_string_iff dash refl s).0 (parse_matches s v h)) h,
  Spells-parse s v,
)

-- `New` returns the version `v` exactly for the texts that spell it with a dot.
pub new_iff : (s : Text) (v : Version) → (new s ≡ ok v) ↔ Spells dot s v
new_iff s v =
    (λ h. new-Shape s v ((match_string_iff dot refl s).0 (new_matches s v h)) h, Spells-new s v)

pub Spells-IsParsed : (sep : ℕ) (s : Text) (v : Version) → Spells sep s v → IsParsed v
Spells-IsParsed sep s v (bare d hd e r) = record {
  major_fits = atoi_numeral d v.major hd r.major_read;
  suffix = inl (r.channel_read, r.patch_read);
}
Spells-IsParsed sep s v (full d w p hd hw hp e r) = record {
  major_fits = atoi_numeral d v.major hd r.major_read;
  suffix = inr (rw r.channel_read hw, rw r.patch_read hp);
}
