-- ===== src/Tuning/Space/Range.antt =====
-- The values that `_expand_range` gives for a continuous parameter, and when its loop ends.
use llmops_platform.Prelude.{
  ℕ, zero, suc, ◌<◌, ◌≡◌, refl, true, false, none, some, List, [], ◌∷◌, map, arith,
}
use llmops_platform.Prelude.Float.{Float}
use llmops_platform.Tuning.Base.{Json, num, ParameterRange, continuous}
use llmops_platform.Tuning.Space.{expand_loop, expand_range, expand_continuous, step_of}

module _ (fl : Float) where
  open fl use {F, le, add, sub, div, round, of_ℕ}

  -- the first `n` values of the running variable
  unfoldable pub points : ℕ → F → F → List F
  points zero step v = []
  points (suc n) step v = v ∷ points n step (add v step)

  abbrev pub rounded : F → Json F
  rounded v = num (round v 6)

  -- The first `n` values lie within the bound and the next one does not.
  abbrev pub EndsAfter : ℕ → F → F → F → Type 0
  EndsAfter zero step hi v = le v hi ≡ false
  EndsAfter (suc n) step hi v = (le v hi ≡ true) × EndsAfter n step hi (add v step)

  -- If the running value passes the bound after `n` rounds and not before, the loop ends on any
  -- fuel above `n`, with the `n` values within the bound in their order, rounded to six digits.
  pub expand_loop_total :
      (n fuel : ℕ) (step hi v : F)
      → n < fuel
      → EndsAfter n step hi v
      → expand_loop fl fuel step hi v ≡ some (map rounded (points n step v))
  unfolding expand_loop points
  expand_loop_total n zero step hi v lt ends = elim lt [ ]
  expand_loop_total zero (suc fuel) step hi v lt ends = ground arith
  expand_loop_total (suc n) (suc fuel) step hi v lt ends =
      ground (arith, expand_loop_total n fuel step hi (add v step) (omega arith) ends.1)

  expand_loop_stuck :
      (fuel : ℕ) (step hi v : F)
      → add v step ≡ v
      → le v hi ≡ true
      → expand_loop fl fuel step hi v ≡ none
  unfolding expand_loop
  expand_loop_stuck zero step hi v same below = refl
  expand_loop_stuck (suc fuel) step hi v same below =
      ground (arith, expand_loop_stuck fuel step hi v same below)

  -- A continuous parameter whose two ends are one number, and that has no step of its own (none,
  -- or zero), is never expanded: on no fuel does the loop end. What is used of floats: `x - x` is
  -- 0, `0 / 5` is 0, `x + 0` is `x`, and `x <= x`.
  pub expand_range_diverges :
      ((x : F) → sub x x ≡ of_ℕ 0)
      → div (of_ℕ 0) (of_ℕ 5) ≡ of_ℕ 0
      → ((x : F) → add x (of_ℕ 0) ≡ x)
      → ((x : F) → le x x ≡ true)
      → (p : ParameterRange fl) (x : F) → p.type ≡ continuous
      → p.min_value ≡ some x
      → p.max_value ≡ some x
      → step_of fl p.step x x ≡ div (sub x x) (of_ℕ 5)
      → (fuel : ℕ) → expand_range fl fuel p ≡ none
  unfolding expand_range expand_continuous
  expand_range_diverges sub_self zero_div add_zero le_self p x t lo hi st fuel =
      rw (t, lo, hi, st, sub_self, zero_div)
        (expand_loop_stuck fuel (of_ℕ 0) x x (add_zero x) (le_self x))
