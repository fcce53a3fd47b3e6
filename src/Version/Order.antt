-- ===== src/Version/Order.antt =====
-- `Compare` is a total order on the versions of one channel.
use cluster_stack_operator.Base.{
  ◌∙◌, zero, suc, sym, int_lt_irrefl, iff_eq, true, ◌≡◌, refl, ◌↔◌, arith, ok, err, pos, negsuc, ℤ,
  int_lt, int_lt_trans, int_lt_asymm, int_trichotomy, Result, Bool-cases, inl, inr, ◌⊎◌,
}
use cluster_stack_operator.Strings.{Text, text_eq, text_lt}
use cluster_stack_operator.Strings.Order.{
  text_eq_iff, text_lt_trans, text_lt_asymm, text_trichotomy, text_eq→eq, text_eq_refl,
  text_lt_irrefl,
}
use cluster_stack_operator.Version.{Version, Error, different_channels, compare}

abbrev pub int_neg : ℤ → ℤ
int_neg (pos zero) = pos zero
int_neg (pos (suc n)) = negsuc n
int_neg (negsuc n) = pos (suc n)

-- The comparison of `input` with `csv`, from that of `csv` with `input`.
abbrev pub flip : Result Error ℤ → Result Error ℤ
flip (ok n) = ok (int_neg n)
flip (err (different_channels c d)) = err (different_channels d c)
flip (err e) = err e

text_eq_comm : (s t : Text) → text_eq s t ≡ text_eq t s
text_eq_comm s t =
    iff_eq (text_eq s t) (text_eq t s) (λ h. (text_eq_iff t s).1 (sym ((text_eq_iff s t).0 h)))
      (λ h. (text_eq_iff s t).1 (sym ((text_eq_iff t s).0 h)))

-- Comparing the other way round gives the opposite sign, or the error with the channels swapped.
pub compare-flip : (a b : Version) → compare b a ≡ flip (compare a b)
unfolding compare
compare-flip a b = ground (
  arith,
  text_eq_comm a.channel b.channel,
  int_lt_asymm a.major b.major,
  text_lt_asymm a.patch b.patch,
)

-- Two versions compare as equal exactly if they are the same version.
pub compare-zero_iff : (a b : Version) → (compare a b ≡ ok (pos 0)) ↔ (a ≡ b)
unfolding compare
compare-zero_iff a b = (
  λ h. ground (
    arith,
    text_eq→eq a.channel b.channel,
    int_trichotomy a.major b.major,
    text_trichotomy a.patch b.patch,
  ),
  λ e. rw e (ground (arith, text_eq_refl b.channel, int_lt_irrefl b.major, text_lt_irrefl b.patch)),
)

-- `Compare` says that `a` is less than `b`.
abbrev pub Below : Version → Version → Type 0
Below a b = compare a b ≡ ok (negsuc 0)

-- The same channel, and a smaller major version or, at the same one, a smaller patch.
abbrev pub LexBelow : Version → Version → Type 0
LexBelow a b =
    (a.channel ≡ b.channel)
    × ((int_lt a.major b.major ≡ true) ⊎ ((a.major ≡ b.major) × (text_lt a.patch b.patch ≡ true)))

Below→LexBelow : (a b : Version) → Below a b → LexBelow a b
unfolding compare
Below→LexBelow a b h =
    (ground (arith, text_eq→eq a.channel b.channel), ground (arith, int_trichotomy a.major b.major))

LexBelow→Below : (a b : Version) → LexBelow a b → Below a b
unfolding compare
LexBelow→Below a b (c, h) = ground (
  arith,
  (text_eq_iff a.channel b.channel).1 c,
  int_lt_asymm a.major b.major,
  text_lt_asymm a.patch b.patch,
  int_lt_irrefl b.major,
)

-- `Compare` returns -1 exactly if the channels are the same and the major version is smaller, or equal
-- with a patch that is smaller as a text.
pub Below-iff : (a b : Version) → Below a b ↔ LexBelow a b
Below-iff a b = (Below→LexBelow a b, LexBelow→Below a b)

LexBelow-trans : (a b c : Version) → LexBelow a b → LexBelow b c → LexBelow a c
LexBelow-trans a b c (e, h) (f, k) = (
  e ∙ f,
  ground (arith, int_lt_trans a.major b.major c.major, text_lt_trans a.patch b.patch c.patch),
)

-- The order of versions is transitive.
pub Below-trans : (a b c : Version) → Below a b → Below b c → Below a c
Below-trans a b c h k =
    LexBelow→Below a c (LexBelow-trans a b c (Below→LexBelow a b h) (Below→LexBelow b c k))

pub Below-irrefl : (a : Version) → ¬ (Below a a)
Below-irrefl a h = cc (h, (compare-zero_iff a a).1 refl)

-- Two versions of one channel are equal, or one is below the other.
pub Below-cases : (a b : Version) → a.channel ≡ b.channel → Below a b ⊎ (a ≡ b) ⊎ Below b a
Below-cases a b e = elim (Bool-cases (int_lt a.major b.major)) [
  | inl h ↦ inl (LexBelow→Below a b (e, inl h))
  | inr h ↦ elim (Bool-cases (int_lt b.major a.major)) [
    | inl k ↦ inr (inr (LexBelow→Below b a (sym e, inl k)))
    | inr k ↦
        let m = int_trichotomy a.major b.major h k in
        elim (Bool-cases (text_lt a.patch b.patch)) [
          | inl p ↦ inl (LexBelow→Below a b (e, inr (m, p)))
          | inr p ↦ elim (Bool-cases (text_lt b.patch a.patch)) [
            | inl q ↦ inr (inr (LexBelow→Below b a (sym e, inr (sym m, q))))
            | inr q ↦ inr (inl (ground (arith, e, m, text_trichotomy a.patch b.patch p q)))
          ]
        ]
  ]
]
