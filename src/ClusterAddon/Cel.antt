-- ===== src/ClusterAddon/Cel.antt =====
-- internal/controller/clusteraddon_controller.go: `getDynamicResourceAndEvaluateCEL`, the evaluation of a
-- condition of a stage.
use cluster_stack_operator.Base.{
  Bool, true, false, ◌≡◌, refl, arith, List, [], ◌∷◌, ◌++◌, Option, none, some, if◌then◌else◌,
  Option-cases, Bool-cases, inl, inr, All,
}
use cluster_stack_operator.Strings.{Text, text_eq, split}
use cluster_stack_operator.Api.{GroupVersionKind}
use cluster_stack_operator.ClusterAddon.{WaitObject, WaitForCondition}
use cluster_stack_operator.ClusterAddon.Execute.{CelAnswer, matched, not_matched, cel_failed}

-- The value of an expression.
pub data Value : Type 0 where
  boolean : Bool → Value
  other_value : Value

-- CEL and the client of the workload cluster: `P` is the type of programs and `V` that of objects. `none`
-- and `true` are errors. `extend` takes the variables so far, and `get` the kind, the namespace and the name.
pub record CelEnv (W P V : Type 0) : Type 0 where
  pub new_env : Bool
  pub extend : List Text → Text → Bool
  pub compile : List Text → Text → Option P
  pub program : P → Option P
  pub mapping : W → GroupVersionKind → Bool
  pub get : W → GroupVersionKind → Text → Text → Option V
  pub eval : P → List (Text × V) → Option Value

-- The kind of an object: `g/v` has a group, and anything else is the version of the core group.
abbrev pub versioned : Text → List Text → GroupVersionKind
versioned kind (g ∷ v ∷ []) = record { group = g; version = v; kind = kind }
versioned kind [] = record { group = []; version = []; kind = kind }
versioned kind (v ∷ []) = record { group = []; version = v; kind = kind }
versioned kind (v ∷ _ ∷ _ ∷ _) = record { group = []; version = v; kind = kind }

unfoldable pub kind_of : WaitObject → GroupVersionKind
kind_of o = versioned o.kind (split o.api_version b'/')

-- `evalMap[key] = v`: an entry with the key of an earlier one replaces it.
abbrev pub put : {V : Type 0} → List (Text × V) → Text → V → List (Text × V)
put [] key v = (key, v) ∷ []
put ((k, u) ∷ m) key v =
    let rest = put m key v in if text_eq k key then (key, v) ∷ m else (k, u) ∷ rest

module _ {W P V : Type 0} (env : CelEnv W P V) where
  -- The loop that declares a variable for each object.
  unfoldable pub declare : List WaitObject → List Text → Option (List Text)
  declare [] vars = some vars
  declare (o ∷ l) vars = if env.extend vars o.key then none else declare l (vars ++ o.key ∷ [])

  -- The loop that gets the objects.
  unfoldable pub collect : W → List WaitObject → List (Text × V) → Option (List (Text × V))
  collect w [] m = some m
  collect w (o ∷ l) m = elim (env.mapping w (kind_of o)) [
    | true ↦ none
    | false ↦ elim (env.get w (kind_of o) o.namespace o.name) [
      | none ↦ none
      | some v ↦ collect w l (put m o.key v)
    ]
  ]

  abbrev pub by_value : Option Value → CelAnswer
  by_value none = cel_failed
  by_value (some (boolean true)) = matched
  by_value (some (boolean false)) = not_matched
  by_value (some other_value) = not_matched

  unfoldable pub run_program : W → List WaitObject → P → CelAnswer
  run_program w objects p = elim (collect w objects []) [
    | none ↦ cel_failed
    | some m ↦ by_value (env.eval p m)
  ]

  -- The program of an expression over the declared variables.
  unfoldable pub compiled : List WaitObject → Text → Option P
  compiled objects conditions = if env.new_env then none else elim (declare objects []) [
    | none ↦ none
    | some vars ↦ elim (env.compile vars conditions) [ none ↦ none | some ast ↦ env.program ast ]
  ]

  -- `getDynamicResourceAndEvaluateCEL`.
  unfoldable pub evaluate_cel : W → WaitForCondition → CelAnswer
  evaluate_cel w c = elim (compiled c.objects c.conditions) [
    | none ↦ cel_failed
    | some p ↦ run_program w c.objects p
  ]

  -- Every object that is collected is there.
  collect_found :
      (w : W) (l : List WaitObject) (m m' : List (Text × V))
      → collect w l m ≡ some m'
      → All (λ o. (v : V) × (env.get w (kind_of o) o.namespace o.name ≡ some v)) l
  unfolding collect
  collect_found w [] m m' h = tt
  collect_found w (o ∷ l) m m' h = elim (Bool-cases (env.mapping w (kind_of o))) [
    | inl bad ↦ absurd (ground (arith, h, bad))
    | inr good ↦ elim (Option-cases (env.get w (kind_of o) o.namespace o.name)) [
      | inl absent ↦ absurd (ground (arith, h, good, absent))
      | inr (v, there) ↦
          ((v, there), collect_found w l (put m o.key v) m' (rw (good, there, collect) at h))
    ]
  ]

  by_value_matched : (o : Option Value) → by_value o ≡ matched → o ≡ some (boolean true)
  by_value_matched none h = absurd (cc h)
  by_value_matched (some (boolean true)) h = refl
  by_value_matched (some (boolean false)) h = absurd (cc h)
  by_value_matched (some other_value) h = absurd (cc h)

  -- A condition matches only if its expression compiles, each of its objects is in the workload cluster,
  -- and the program is true of the map of these objects.
  pub evaluate_cel_matched :
      (w : W) (c : WaitForCondition)
      → evaluate_cel w c ≡ matched
      → All (λ o. (v : V) × (env.get w (kind_of o) o.namespace o.name ≡ some v)) c.objects
        × ((p : P) × (m : List (Text × V)) × (compiled c.objects c.conditions ≡ some p)
            × (collect w c.objects [] ≡ some m)
            × (env.eval p m ≡ some (boolean true)))
  unfolding evaluate_cel run_program
  evaluate_cel_matched w c h = elim (Option-cases (compiled c.objects c.conditions)) [
    | inl bad ↦ absurd (ground (arith, h, bad))
    | inr (p, good) ↦ elim (Option-cases (collect w c.objects [])) [
      | inl absent ↦ absurd (ground (arith, h, good, absent))
      | inr (m, there) ↦ (
        collect_found w c.objects [] m there,
        (p, m, good, there, by_value_matched (env.eval p m) (ground (arith, h, good, there))),
      )
    ]
  ]
