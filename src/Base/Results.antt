-- ===== src/Base/Results.antt =====
-- A Go function that returns `(T, error)`: `ok` with the value, or `err` with the error.
use mathlib.Core.Path.{◌≡◌, refl}
use mathlib.Core.Logic.{◌⊎◌, inl, inr}

pub data Result {ℓ} (E : Type 0) (A : Type ℓ) : Type ℓ where
  err : E → Result E A
  ok : A → Result E A

-- The chain that `if err != nil { return …, err }` makes: the first error is the result.
infixl 5 ◌>>=◌
abbrev pub ◌>>=◌ {ℓ₁ ℓ₂} :
    {E : Type 0} {T : Type ℓ₁} {U : Type ℓ₂} → Result E T → (T → Result E U) → Result E U
◌>>=◌ (err x) rest = err x
◌>>=◌ (ok t) rest = rest t

-- `fmt.Errorf("…: %w", err)`: the error of a callee becomes an error of the caller.
abbrev pub wrap {ℓ} : {E F : Type 0} {A : Type ℓ} → (E → F) → Result E A → Result F A
wrap f (ok a) = ok a
wrap f (err e) = err (f e)

pub ok_inj {ℓ} : {E : Type 0} {A : Type ℓ} {a b : A} → ◌≡◌ {A = Result E A} (ok a) (ok b) → a ≡ b
ok_inj h = cc

pub Result-cases {ℓ} :
    {E : Type 0} {A : Type ℓ} (r : Result E A) → ((e : E) × (r ≡ err e)) ⊎ ((a : A) × (r ≡ ok a))
Result-cases (ok a) = inr (a, refl)
Result-cases (err e) = inl (e, refl)
