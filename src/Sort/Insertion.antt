-- ===== src/Sort/Insertion.antt =====
-- Insertion sort, which `sort.Sort` is for short slices: a sorter for every order.
use mathlib.Core.List.{Permᴰ}
use cluster_stack_operator.Base.{
  Bool, true, false, ◌≡◌, List, [], ◌∷◌, All, if◌then◌else◌, Bool-cases, inl, inr, refl, sym,
}
use mathlib.Core.Path.{subst}
use cluster_stack_operator.Sort.{IsWeakOrder, IsSorted, Sorter}

-- A rearranged list has the properties of the list.
pub Permᴰ-All : {A : Type 0} (P : A → Type 0) {l₁ l₂ : List A} → Permᴰ l₁ l₂ → All P l₂ → All P l₁
Permᴰ-All P Permᴰ.nil h = h
Permᴰ-All P (Permᴰ.cons e d) (h, hs) = (subst P (sym e) h, Permᴰ-All P d hs)
Permᴰ-All P (Permᴰ.swap e f) (h, (k, hs)) = (subst P (sym e) k, (subst P (sym f) h, hs))
Permᴰ-All P (Permᴰ.trans d e) h = Permᴰ-All P d (Permᴰ-All P e h)

pub Permᴰ-All_back :
    {A : Type 0} (P : A → Type 0) {l₁ l₂ : List A} → Permᴰ l₁ l₂ → All P l₁ → All P l₂
Permᴰ-All_back P Permᴰ.nil h = h
Permᴰ-All_back P (Permᴰ.cons e d) (h, hs) = (subst P e h, Permᴰ-All_back P d hs)
Permᴰ-All_back P (Permᴰ.swap e f) (h, (k, hs)) = (subst P f k, (subst P e h, hs))
Permᴰ-All_back P (Permᴰ.trans d e) h = Permᴰ-All_back P e (Permᴰ-All_back P d h)

module _ {A : Type 0} (less : A → A → Bool) where
  place : A → List A → List A
  place x [] = x ∷ []
  place x (y ∷ ys) = if less x y then x ∷ y ∷ ys else y ∷ place x ys

  unfoldable pub insertion_sort : List A → List A
  unfolding place
  insertion_sort [] = []
  insertion_sort (x ∷ xs) = place x (insertion_sort xs)

  same : (l : List A) → Permᴰ l l
  same [] = Permᴰ.nil
  same (x ∷ xs) = Permᴰ.cons refl (same xs)

  place_rearranges : (x : A) (l : List A) → Permᴰ (place x l) (x ∷ l)
  unfolding place
  place_rearranges x [] = same (x ∷ [])
  place_rearranges x (y ∷ ys) = elim (Bool-cases (less x y)) [
    | inl e ↦ rw e (same (x ∷ y ∷ ys))
    | inr e ↦ rw e (Permᴰ.trans (Permᴰ.cons refl (place_rearranges x ys)) (Permᴰ.swap refl refl))
  ]

  pub sort_rearranges : (l : List A) → Permᴰ (insertion_sort l) l
  unfolding insertion_sort
  sort_rearranges [] = Permᴰ.nil
  sort_rearranges (x ∷ xs) =
      Permᴰ.trans (place_rearranges x (insertion_sort xs)) (Permᴰ.cons refl (sort_rearranges xs))

  module _ (P : A → Type 0) (w : IsWeakOrder P less) where
    asymm : (a b : A) → P a → P b → less a b ≡ true → less b a ≡ false
    asymm a b ha hb h = elim (Bool-cases (less b a)) [
      | inl k ↦ absurd (cc (w.trans a b a ha hb ha h k, w.irrefl a ha))
      | inr k ↦ k
    ]

    -- What is not less than `y` is not less than `x`, for an `x` that is less than `y`.
    below-All :
        (x y : A) (ys : List A)
        → P x
        → P y
        → All P ys
        → less x y ≡ true
        → All (λ z. less z y ≡ false) ys
        → All (λ z. less z x ≡ false) ys
    below-All x y [] hx hy hs e k = tt
    below-All x y (z ∷ ys) hx hy (hz, hs) e (k, ks) =
        (w.neg_trans z y x hz hy hx k (asymm x y hx hy e), below-All x y ys hx hy hs e ks)

    place-IsSorted :
        (x : A) (l : List A) → P x → All P l → IsSorted less l → IsSorted less (place x l)
    unfolding place
    place-IsSorted x [] hx hs k = (tt, tt)
    place-IsSorted x (y ∷ ys) hx (hy, hs) (k, ks) = elim (Bool-cases (less x y)) [
      | inl e ↦ rw e ((asymm x y hx hy e, below-All x y ys hx hy hs e k), (k, ks))
      | inr e ↦ rw e (
        Permᴰ-All (λ z. less z y ≡ false) (place_rearranges x ys) (e, k),
        place-IsSorted x ys hx hs ks,
      )
    ]

    pub sort-IsSorted : (l : List A) → All P l → IsSorted less (insertion_sort l)
    unfolding insertion_sort
    sort-IsSorted [] h = tt
    sort-IsSorted (x ∷ xs) (h, hs) =
        place-IsSorted x (insertion_sort xs) h (Permᴰ-All P (sort_rearranges xs) hs)
          (sort-IsSorted xs hs)

abbrev pub insertion_sorter : {A : Type 0} (less : A → A → Bool) → Sorter less
insertion_sorter less = record {
  sort = insertion_sort less;
  rearranges = sort_rearranges less;
  ascends = sort-IsSorted less;
}
