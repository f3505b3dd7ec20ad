-- ===== src/Tuning/Random.antt =====
-- core/tuning/parameter_space.py: `generate_random_variants`. The generator is a parameter: the
-- draw number `n` gives an index for `random.choice`, and a number for `random.uniform`.
use llmops_platform.Prelude.{
  ℕ, zero, suc, ◌+◌, ◌%◌, ◌≡◌, refl, Str, Option, none, some, List, [], ◌∷◌, string_eq, length,
  get_elem?, In, In-get_elem?, ◌⊎◌, inl, inr, Option-cases,
}
use llmops_platform.Prelude.Dict.{Dict, insert}
use llmops_platform.Prelude.Float.{Float}
use llmops_platform.Tuning.Base.{
  Json, num, RangeType, continuous, discrete, categorical, unknown, ParameterRange, ParameterSet,
}
use llmops_platform.Tuning.Space.{nonempty}

module _ (fl : Float) (index : ℕ → ℕ) (uniform : ℕ → fl.F → fl.F → fl.F) where
  open fl use {F, round}

  -- `random.choice(values)` of a list that is given and not empty
  unfoldable pub choice : ℕ → Option (List (Json F)) → Option (Json F)
  choice n none = none
  choice n (some vs) = get_elem? vs (index n % length vs)

  unfoldable pub draw_uniform : ℕ → Option F → Option F → Option (Json F)
  draw_uniform n (some lo) (some hi) = some (num (round (uniform n lo hi) 4))
  draw_uniform n (some lo) none = none
  draw_uniform n none hi = none

  abbrev or_else : Option (Json F) → Option (Json F) → Option (Json F)
  or_else (some v) w = some v
  or_else none w = w

  by_type : RangeType → ℕ → ParameterRange fl → Option (Json F)
  unfolding choice draw_uniform
  by_type continuous n p =
      or_else (draw_uniform n p.min_value p.max_value) (choice n (nonempty p.values))
  by_type discrete n p = choice n (nonempty p.values)
  by_type categorical n p = choice n (nonempty p.values)
  by_type unknown n p = choice n (nonempty p.values)

  -- The value of one parameter; `none` where the loop sets no key.
  unfoldable pub random_value : ℕ → ParameterRange fl → Option (Json F)
  unfolding by_type
  random_value n p = by_type p.type n p

  abbrev set_value : Str → Option (Json F) → Dict Str (Json F) → Dict Str (Json F)
  set_value k none d = d
  set_value k (some v) d = insert k v d

  -- `for param in space.parameters`, the first draw having the number `n`
  unfoldable pub random_values :
      ℕ → List (ParameterRange fl) → Dict Str (Json F) → Dict Str (Json F)
  unfolding random_value
  random_values n [] d = d
  random_values n (p ∷ ps) d = random_values (n + 1) ps (set_value p.name (random_value n p) d)

  module _ (variant_id : ℕ → Str) where
    -- `for _ in range(count)`
    unfoldable pub generate_random_variants :
        ℕ → ℕ → List (ParameterRange fl) → List (ParameterSet fl)
    unfolding random_values
    generate_random_variants n zero space = []
    generate_random_variants n (suc count) space =
        record { variant_id = variant_id n; values = random_values n space [] }
        ∷ generate_random_variants (n + length space + 1) count space

  abbrev listed : Option (List (Json F)) → List (Json F)
  listed none = []
  listed (some vs) = vs

  choice-In :
      (n : ℕ) (vs : Option (List (Json F))) (v : Json F)
      → choice n (nonempty vs) ≡ some v
      → In v (listed vs)
  unfolding choice
  choice-In n none v h = absurd (cc)
  choice-In n (some []) v h = absurd (cc)
  choice-In n (some (x ∷ xs)) v h = In-get_elem? (x ∷ xs) (index n % length (x ∷ xs)) v h

  abbrev Drawn : ℕ → ParameterRange fl → Json F → Type 0
  Drawn n p v =
      (lo : F) × (hi : F) × (p.type ≡ continuous)
      × (p.min_value ≡ some lo)
      × (p.max_value ≡ some hi)
      × (v ≡ num (round (uniform n lo hi) 4))

  draw_uniform-some :
      (n : ℕ) (a b : Option F) (v : Json F)
      → draw_uniform n a b ≡ some v
      → (lo : F) × (hi : F) × (a ≡ some lo) × (b ≡ some hi) × (v ≡ num (round (uniform n lo hi) 4))
  unfolding draw_uniform
  draw_uniform-some n (some lo) (some hi) v h = (lo, hi, refl, refl, cc)
  draw_uniform-some n (some lo) none v h = cc
  draw_uniform-some n none hi v h = cc

  by_type_sound :
      (t : RangeType) (n : ℕ) (p : ParameterRange fl) (v : Json F)
      → p.type ≡ t
      → by_type t n p ≡ some v
      → In v (listed p.values) ⊎ Drawn n p v
  unfolding by_type
  by_type_sound continuous n p v t h =
      elim (Option-cases (draw_uniform n p.min_value p.max_value)) [
        | inl e ↦ inl (choice-In n p.values v (rw e at h))
        | inr (w, e) ↦
            let (lo, hi, elo, ehi, ew) = draw_uniform-some n p.min_value p.max_value w e in
            let k : some w ≡ some v = rw e at h in inr (lo, hi, t, elo, ehi, cc)
      ]
  by_type_sound discrete n p v t h = inl (choice-In n p.values v h)
  by_type_sound categorical n p v t h = inl (choice-In n p.values v h)
  by_type_sound unknown n p v t h = inl (choice-In n p.values v h)

  -- A value that is drawn for a parameter is one of its listed values, or the parameter is
  -- continuous with both ends given and the value is the rounded draw between them.
  pub random_value_sound :
      (n : ℕ) (p : ParameterRange fl) (v : Json F)
      → random_value n p ≡ some v
      → In v (listed p.values)
        ⊎ ((lo : F) × (hi : F) × (p.type ≡ continuous)
            × (p.min_value ≡ some lo)
            × (p.max_value ≡ some hi)
            × (v ≡ num (round (uniform n lo hi) 4)))
  unfolding random_value
  random_value_sound n p v h = by_type_sound p.type n p v refl h
