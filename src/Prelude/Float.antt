-- ===== src/Prelude/Float.antt =====
-- Floating-point numbers, which the library does not have: a type with the operations that the
-- program calls. No law is assumed here; a theorem states the ones that it needs.
use Prim.Native.Nat.{ℕ, ◌+◌, ◌-◌, ◌*◌, ◌/◌}
use mathlib.Core.Bool.{Bool}
use mathlib.Core.List.{List, [], ◌∷◌}
use llmops_platform.Prelude.Tests.{leb, ltb, nat_beq}
use llmops_platform.Prelude.Lists.{length}

pub record Float : Type 1 where
  pub F : Type 0
  pub le : F → F → Bool
  pub lt : F → F → Bool
  -- `x == y`
  pub eqb : F → F → Bool
  pub add : F → F → F
  pub sub : F → F → F
  pub mul : F → F → F
  pub div : F → F → F
  -- `round(x, n)`
  pub round : F → ℕ → F
  -- an integer as a float, and `int(x)` of a float that is not negative
  pub of_ℕ : ℕ → F
  pub trunc : F → ℕ
  -- `statistics.mean`
  pub mean : List F → F

-- A fixed-point instance, with four decimals, on which the model runs.
abbrev pub scale : ℕ
scale = 10000

abbrev pub total_of : List ℕ → ℕ
total_of [] = 0
total_of (x ∷ xs) = x + total_of xs

abbrev pub decimal : Float
decimal = record {
  F = ℕ;
  le = leb;
  lt = ltb;
  eqb = nat_beq;
  add = ◌+◌;
  sub = ◌-◌;
  mul = λ a b. a * b / scale;
  div = λ a b. a * scale / b;
  round = λ x n. x;
  of_ℕ = λ n. n * scale;
  trunc = λ x. x / scale;
  mean = λ xs. total_of xs / length xs;
}
