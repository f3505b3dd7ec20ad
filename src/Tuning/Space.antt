-- ===== src/Tuning/Space.antt =====
-- core/tuning/parameter_space.py: the variants that a parameter space gives rise to. The `while`
-- loop takes fuel; `none` means that it has not ended. The random generator and the variant
-- ids that are drawn from `uuid4` are parameters, numbered by the draw.
pub mod Range
pub mod Grid
use llmops_platform.Prelude.{
  ℕ, zero, suc, ◌+◌, ◌%◌, Str, Bool, true, false, ◌&&◌, Option, none, some, List, [], ◌∷◌, ◌++◌,
  map, if◌then◌else◌, is_nil, string_eq, length, get_elem?,
}
use llmops_platform.Prelude.Dict.{Dict, insert}
use llmops_platform.Prelude.Float.{Float}
use llmops_platform.Tuning.Base.{
  Json, num, RangeType, continuous, discrete, categorical, unknown, ParameterRange, ParameterSet,
}

-- A list that is given and not empty, as `if values` tests it.
abbrev pub nonempty : {A : Type 0} → Option (List A) → Option (List A)
nonempty none = none
nonempty (some []) = none
nonempty (some (x ∷ xs)) = some (x ∷ xs)

-- `zip(names, combo)` and `dict(…)` of it: a later pair replaces an earlier one.
unfoldable pub dict_of_zip : {V : Type 0} → List Str → List V → Dict Str V → Dict Str V
dict_of_zip [] vs d = d
dict_of_zip (n ∷ ns) [] d = d
dict_of_zip (n ∷ ns) (v ∷ vs) d = dict_of_zip ns vs (insert n v d)

abbrev pub cons_all : {V : Type 0} → V → List (List V) → List (List V)
cons_all v [] = []
cons_all v (c ∷ cs) = (v ∷ c) ∷ cons_all v cs

abbrev pub pair_all : {V : Type 0} → List V → List (List V) → List (List V)
pair_all [] cs = []
pair_all (v ∷ vs) cs = cons_all v cs ++ pair_all vs cs

-- `itertools.product(*lists)`, the last list running fastest.
unfoldable pub product : {V : Type 0} → List (List V) → List (List V)
product [] = [] ∷ []
product (vs ∷ rest) = pair_all vs (product rest)

abbrev pub prepend : {A : Type 0} → A → Option (List A) → Option (List A)
prepend a none = none
prepend a (some as') = some (a ∷ as')

-- All values of a list, if all are there.
abbrev pub sequence : {A : Type 0} → List (Option A) → Option (List A)
sequence [] = some []
sequence (none ∷ os) = none
sequence (some a ∷ os) = prepend a (sequence os)

module _ (fl : Float) where
  open fl use {F, le, eqb, add, sub, div, round, of_ℕ}

  -- `while v <= max_value: values.append(round(v, 6)); v += step`
  unfoldable pub expand_loop : ℕ → F → F → F → Option (List (Json F))
  expand_loop zero step max_value v = none
  expand_loop (suc fuel) step max_value v =
      let rest = expand_loop fuel step max_value (add v step) in
      if le v max_value then prepend (num (round v 6)) rest else some []

  -- `param.step or (param.max_value - param.min_value) / 5`
  unfoldable pub step_of : Option F → F → F → F
  step_of none lo hi = div (sub hi lo) (of_ℕ 5)
  step_of (some s) lo hi = if eqb s (of_ℕ 0) then div (sub hi lo) (of_ℕ 5) else s

  -- the third `if` of `_expand_range`
  unfoldable pub expand_continuous : ℕ → ParameterRange fl → Option (List (Json F))
  unfolding expand_loop step_of
  expand_continuous fuel p = elim p.min_value [
    | none ↦ some []
    | some lo ↦ elim p.max_value [
      | none ↦ some []
      | some hi ↦ expand_loop fuel (step_of p.step lo hi) hi lo
    ]
  ]

  or_nothing : Option (List (Json F)) → List (Json F)
  or_nothing none = []
  or_nothing (some vs) = vs

  expand_by : RangeType → ℕ → ParameterRange fl → Option (List (Json F))
  unfolding expand_continuous or_nothing
  expand_by continuous fuel p = expand_continuous fuel p
  expand_by discrete fuel p = some (or_nothing (nonempty p.values))
  expand_by categorical fuel p = some (or_nothing (nonempty p.values))
  expand_by unknown fuel p = some []

  -- `_expand_range`
  unfoldable pub expand_range : ℕ → ParameterRange fl → Option (List (Json F))
  unfolding expand_by
  expand_range fuel p = expand_by p.type fuel p

  module _ (variant_id : ℕ → Str) where
    variants_from : ℕ → List Str → List (List (Json F)) → List (ParameterSet fl)
    variants_from n names [] = []
    variants_from n names (combo ∷ combos) =
        record { variant_id = variant_id n; values = dict_of_zip names combo [] }
        ∷ variants_from (n + 1) names combos

    -- `generate_grid_variants`; the first draw of `uuid4` has the number `n`
    unfoldable pub generate_grid_variants :
        ℕ → ℕ → List (ParameterRange fl) → Option (List (ParameterSet fl))
    unfolding variants_from
    generate_grid_variants fuel n space = elim (sequence (map (expand_range fuel) space)) [
      | none ↦ none
      | some param_values ↦ some (variants_from n (map (λ p. p.name) space) (product param_values))
    ]
