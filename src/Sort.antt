-- ===== src/Sort.antt =====
-- The package sort of Go, as far as the code relies on it.
pub mod Insertion
use mathlib.Core.List.{Permᴰ}
use cluster_stack_operator.Base.{Bool, true, false, ◌≡◌, List, [], ◌∷◌, All, Option, none, some}

-- What the documentation asks of `Less` on the elements that are sorted.
pub record IsWeakOrder {A : Type 0} (P : A → Type 0) (less : A → A → Bool) : Type 0 where
  pub irrefl : (a : A) → P a → less a a ≡ false
  pub trans : (a b c : A) → P a → P b → P c → less a b ≡ true → less b c ≡ true → less a c ≡ true
  pub neg_trans :
      (a b c : A) → P a → P b → P c → less a b ≡ false → less b c ≡ false → less a c ≡ false

-- No element is less than one in front of it.
abbrev pub IsSorted : {A : Type 0} → (A → A → Bool) → List A → Type 0
IsSorted less [] = Unit
IsSorted less (x ∷ xs) = All (λ y. less y x ≡ false) xs × IsSorted less xs

-- `sort.Sort` for one order: the elements are rearranged, and come out in ascending order if the order
-- is one on them. It is not stable, and nothing more is promised.
pub record Sorter {A : Type 0} (less : A → A → Bool) : Type 1 where
  pub sort : List A → List A
  pub rearranges : (l : List A) → Permᴰ (sort l) l
  pub ascends :
      (P : A → Type 0) → IsWeakOrder P less → (l : List A) → All P l → IsSorted less (sort l)
