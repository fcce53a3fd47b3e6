-- ===== src/Tests/Versions.antt =====
-- The theorems on versions at concrete values.
use cluster_stack_operator.Base.{true, arith, ℕ, ◌≡◌, refl, ok, pos, inr, ◌↔◌}
use cluster_stack_operator.Strings.{Text, codes, dash, dot}
use cluster_stack_operator.Version
use cluster_stack_operator.Version.{Version}
use cluster_stack_operator.Version.Valid.{IsParsed}
use cluster_stack_operator.Version.Reading.{Spells, parse_iff}
use cluster_stack_operator.Version.Pattern.{Shape, match_string_iff}
use cluster_stack_operator.Version.RoundTrip.{normal, parse-string, new-string_with_dot}
use cluster_stack_operator.Version.Order.{Below, LexBelow, Below-iff, Below-trans}
use cluster_stack_operator.KubernetesVersion
use cluster_stack_operator.KubernetesVersion.{KubernetesVersion}
use cluster_stack_operator.KubernetesVersion.RoundTrip.{InRange, new_from_string-string_with_dot}

abbrev alpha : ℕ → Version
alpha n = record { major = pos n; channel = codes "alpha"; patch = codes "3" }

alpha-IsParsed : IsParsed (alpha 2)
alpha-IsParsed = record {
  major_fits = record { value = 2; is_pos = refl; fits = omega arith };
  suffix = inr (
    record { some_byte = refl; in_class = (refl, (refl, (refl, (refl, (refl, tt))))) },
    record { some_byte = refl; in_class = (refl, tt) },
  );
}

match_string_iff_example :
    (Version.match_string dash (codes "v2-alpha-3") ≡ true) ↔ Shape dash (codes "v2-alpha-3")
match_string_iff_example = match_string_iff dash refl (codes "v2-alpha-3")

parse_iff_example :
    (Version.parse_version_string (codes "v2-alpha-3") ≡ ok (alpha 2))
    ↔ Spells dash (codes "v2-alpha-3") (alpha 2)
parse_iff_example = parse_iff (codes "v2-alpha-3") (alpha 2)

parse-string_example :
    Version.parse_version_string (Version.string (alpha 2)) ≡ ok (normal (alpha 2))
parse-string_example = parse-string (alpha 2) alpha-IsParsed

new-string_with_dot_example :
    Version.new (Version.string_with_dot (alpha 2)) ≡ ok (normal (alpha 2))
new-string_with_dot_example = new-string_with_dot (alpha 2) alpha-IsParsed

Below-iff_example : Below (alpha 2) (alpha 3) ↔ LexBelow (alpha 2) (alpha 3)
Below-iff_example = Below-iff (alpha 2) (alpha 3)

two-Below_three : Below (alpha 2) (alpha 3)
unfolding Version.compare cluster_stack_operator.Strings.text_eq
two-Below_three = refl

three-Below_four : Below (alpha 3) (alpha 4)
unfolding Version.compare cluster_stack_operator.Strings.text_eq
three-Below_four = refl

Below-trans_example : Below (alpha 2) (alpha 4)
Below-trans_example = Below-trans (alpha 2) (alpha 3) (alpha 4) two-Below_three three-Below_four

abbrev v1_27 : KubernetesVersion
v1_27 = record { major = pos 1; minor = pos 27 }

v1_27-InRange : InRange v1_27
v1_27-InRange = record {
  major_fits = record { value = 1; is_pos = refl; fits = omega arith };
  minor_fits = record { value = 27; is_pos = refl; fits = omega arith };
}

new_from_string-string_with_dot_example :
    KubernetesVersion.new_from_string (KubernetesVersion.string_with_dot v1_27) ≡ ok v1_27
new_from_string-string_with_dot_example = new_from_string-string_with_dot v1_27 v1_27-InRange
