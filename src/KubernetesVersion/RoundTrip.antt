-- ===== src/KubernetesVersion/RoundTrip.antt =====
-- A printed Kubernetes version is read back.
use cluster_stack_operator.Base.{◌≡◌, refl, [], ◌∷◌, some, ok, ℤ, arith}
use cluster_stack_operator.Strings.{split, dash, dot, Lacks}
use cluster_stack_operator.Strings.Parts.{split_last, split_step}
use cluster_stack_operator.Strconv.{atoi, itoa}
use cluster_stack_operator.Strconv.RoundTrip.{atoi-itoa, itoa-Lacks}
use cluster_stack_operator.Version.Valid.{IsMajor}
use cluster_stack_operator.KubernetesVersion.{
  KubernetesVersion, new, from_splitted, new_from_string, string_with_dot,
}

-- Both numbers are what an `int` that is not negative holds.
pub record InRange (kv : KubernetesVersion) : Type 0 where
  pub major_fits : IsMajor kv.major
  pub minor_fits : IsMajor kv.minor

pub atoi-itoa_fits : (z : ℤ) → IsMajor z → atoi (itoa z) ≡ some z
atoi-itoa_fits z m = rw m.is_pos (atoi-itoa m.value m.fits)

pub itoa-Lacks-dash : (z : ℤ) → IsMajor z → Lacks dash (itoa z)
itoa-Lacks-dash z m = rw m.is_pos (itoa-Lacks dash m.value refl)

pub itoa-Lacks-dot : (z : ℤ) → IsMajor z → Lacks dot (itoa z)
itoa-Lacks-dot z m = rw m.is_pos (itoa-Lacks dot m.value refl)

module _ (kv : KubernetesVersion) (r : InRange kv) where
  -- `New` on the two printed numbers gives the version back.
  pub new-itoa : new (itoa kv.major) (itoa kv.minor) ≡ ok kv
  unfolding new
  new-itoa =
      ground (arith, atoi-itoa_fits kv.major r.major_fits, atoi-itoa_fits kv.minor r.minor_fits)

  parts : split (string_with_dot kv) dot ≡ itoa kv.major ∷ itoa kv.minor ∷ []
  unfolding string_with_dot
  parts = rw (
    split_step dot (itoa kv.major) (itoa kv.minor) (itoa-Lacks-dot kv.major r.major_fits),
    split_last dot (itoa kv.minor) (itoa-Lacks-dot kv.minor r.minor_fits),
  )

  -- The dotted print of a Kubernetes version, whose two numbers are not negative and fit an `int` of 64
  -- bits, is read back by `NewFromString`.
  pub new_from_string-string_with_dot : new_from_string (string_with_dot kv) ≡ ok kv
  unfolding new_from_string
  new_from_string-string_with_dot = rw parts (
      unfold from_splitted in
      ground (arith, atoi-itoa_fits kv.major r.major_fits, atoi-itoa_fits kv.minor r.minor_fits))
