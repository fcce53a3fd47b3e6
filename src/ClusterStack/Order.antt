-- ===== src/ClusterStack/Order.antt =====
-- The order of cluster stacks, and what sorting by it and taking the last one gives.
use mathlib.Core.Path.{subst}
use cluster_stack_operator.Sort.Insertion.{Permᴰ-All, Permᴰ-All_back}
use cluster_stack_operator.Base.{
  some_inj, true, false, ◌≡◌, refl, arith, List, [], ◌∷◌, some, All, sym, ◌∙◌, inl, inr, ◌⊎◌,
  Bool-cases, ◌↔◌,
}
use cluster_stack_operator.Strings.{Text}
use cluster_stack_operator.Version.Order.{Below-cases, Below-irrefl, Below, Below-trans}
use cluster_stack_operator.Sort.{IsWeakOrder, IsSorted, Sorter}
use cluster_stack_operator.ClusterStack.{ClusterStack, less, latest}

less→Below : (a b : ClusterStack) → less a b ≡ true → Below a.version b.version
unfolding less
less→Below a b h = ground arith

Below→less : (a b : ClusterStack) → Below a.version b.version → less a b ≡ true
unfolding less
Below→less a b h = rw (h, less)

-- `Less` holds exactly where `Compare` returns -1.
pub less_iff : (a b : ClusterStack) → (less a b ≡ true) ↔ Below a.version b.version
less_iff a b = (less→Below a b, Below→less a b)

-- A cluster stack of the channel `c`.
abbrev pub OfChannel : Text → ClusterStack → Type 0
OfChannel c cs = cs.version.channel ≡ c

less_irrefl : (a : ClusterStack) → less a a ≡ false
less_irrefl a = elim (Bool-cases (less a a)) [
  | inl e ↦ absurd (Below-irrefl a.version (less→Below a a e))
  | inr e ↦ e
]

less_trans : (a b c : ClusterStack) → less a b ≡ true → less b c ≡ true → less a c ≡ true
less_trans a b c h k =
    Below→less a c (Below-trans a.version b.version c.version (less→Below a b h) (less→Below b c k))

-- What is not less, at one channel, is equal or greater.
not_less :
    (a b : ClusterStack)
    → a.version.channel ≡ b.version.channel
    → less a b ≡ false
    → (a.version ≡ b.version) ⊎ Below b.version a.version
not_less a b e h = elim (Below-cases a.version b.version e) [
  | inl k ↦ absurd (cc (h, Below→less a b k))
  | inr k ↦ k
]

less_neg_trans :
    (a b c : ClusterStack)
    → a.version.channel ≡ b.version.channel
    → b.version.channel ≡ c.version.channel
    → less a b ≡ false
    → less b c ≡ false
    → less a c ≡ false
less_neg_trans a b c e f h k = elim (Bool-cases (less a c)) [
  | inr l ↦ l
  | inl l ↦
      let m = less→Below a c l in
      elim (not_less a b e h) [
        | inl ab ↦ elim (not_less b c f k) [
          | inl bc ↦ absurd (Below-irrefl c.version (subst (λ v. Below v c.version) (ab ∙ bc) m))
          | inr cb ↦ absurd (
              Below-irrefl c.version (
                Below-trans c.version b.version c.version cb (subst (λ v. Below v c.version) ab m)))
        ]
        | inr ba ↦
            let n = Below-trans b.version a.version c.version ba m in
            elim (not_less b c f k) [
              | inl bc ↦ absurd (Below-irrefl c.version (subst (λ v. Below v c.version) bc n))
              | inr cb ↦
                  absurd (Below-irrefl b.version (Below-trans b.version c.version b.version n cb))
            ]
      ]
]

-- `Less` is an order on the cluster stacks of one channel, as sorting requires.
pub less-IsWeakOrder : (c : Text) → IsWeakOrder (OfChannel c) less
less-IsWeakOrder c = record {
  irrefl = λ a _. less_irrefl a;
  trans = λ a b d _ _ _. less_trans a b d;
  neg_trans = λ a b d ha hb hd. less_neg_trans a b d (ha ∙ sym hb) (hb ∙ sym hd);
}

latest-All :
    (P : ClusterStack → Type 0) (l : List ClusterStack) (m : ClusterStack)
    → All P l
    → latest l ≡ some m
    → P m
unfolding latest
latest-All P [] m h e = cc
latest-All P (x ∷ []) m (h, _) e = subst P (some_inj e) h
latest-All P (x ∷ y ∷ l) m (h, hs) e = latest-All P (y ∷ l) m hs e

-- The last element of a sorted list is below none of its elements.
latest_of_sorted :
    (l : List ClusterStack) (m : ClusterStack)
    → IsSorted less l
    → latest l ≡ some m
    → All (λ x. less m x ≡ false) l
unfolding latest
latest_of_sorted [] m h e = tt
latest_of_sorted (x ∷ []) m h e = (rw (some_inj e) (less_irrefl m), tt)
latest_of_sorted (x ∷ y ∷ l) m (h, hs) e =
    (latest-All (λ z. less z x ≡ false) (y ∷ l) m h e, latest_of_sorted (y ∷ l) m hs e)

-- Sorting cluster stacks of one channel by `Less`, with any sorter that keeps the promise of
-- `sort.Sort`, and taking the last one gives one that is below none of them.
pub latest-sort :
    (s : Sorter less) (c : Text) (l : List ClusterStack) (m : ClusterStack)
    → All (OfChannel c) l
    → latest (s.sort l) ≡ some m
    → All (λ x. less m x ≡ false) l
latest-sort s c l m h e =
    Permᴰ-All_back (λ x. less m x ≡ false) (s.rearranges l)
      (latest_of_sorted (s.sort l) m (s.ascends (OfChannel c) (less-IsWeakOrder c) l h) e)

latest-ne-none :
    (x : ClusterStack) (l : List ClusterStack) → (m : ClusterStack) × (latest (x ∷ l) ≡ some m)
unfolding latest
latest-ne-none x [] = (x, refl)
latest-ne-none x (y ∷ l) = latest-ne-none y l

-- What holds of all elements holds of the latest one.
pub latest-sort-All :
    (s : Sorter less) (P : ClusterStack → Type 0) (l : List ClusterStack) (m : ClusterStack)
    → All P l
    → latest (s.sort l) ≡ some m
    → P m
latest-sort-All s P l m h e = latest-All P (s.sort l) m (Permᴰ-All P (s.rearranges l) h) e
