-- ===== src/Prelude/Tx.antt =====
-- A unit of work on the database: a method that runs in one SQLAlchemy session and commits at
-- its end. If it raises, the session is closed with no commit, so no state comes back.
use mathlib.Core.Path.{◌≡◌}
use mathlib.Core.Bool.{Bool, true, false}
use mathlib.Core.Option.{Option, none, some}
use native.Mathlib.Omega.{arith}
use llmops_platform.Prelude.Outcome.{Exc, Result, ok, err}

abbrev pub Tx : Type 0 → Type 0 → Type 0
Tx S A = S → Result (A × S)

module _ {S A : Type 0} where
  abbrev pub pure : A → Tx S A
  pure a s = ok (a, s)

  abbrev pub raise : Exc → Tx S A
  raise e s = err e

  abbrev pub gets : (S → A) → Tx S A
  gets f s = ok (f s, s)

  -- A value, or the exception that stands for its absence.
  abbrev pub some_or : Option A → Exc → Tx S A
  some_or none e s = err e
  some_or (some a) e s = ok (a, s)

  abbrev pub lift : Result A → Tx S A
  lift (ok a) s = ok (a, s)
  lift (err e) s = err e

module _ {S : Type 0} where
  abbrev pub modify : (S → S) → Tx S (Unit {0})
  modify f s = ok (tt, f s)

  abbrev pub raise_if : Bool → Exc → Tx S (Unit {0})
  raise_if true e s = err e
  raise_if false e s = ok (tt, s)

infixl 5 ◌>>=◌ ◌>>◌
abbrev pub ◌>>=◌ : {S A B : Type 0} → Tx S A → (A → Tx S B) → Tx S B
◌>>=◌ m f s = elim (m s) [ ok r ↦ f r.0 r.1 | err e ↦ err e ]

abbrev pub ◌>>◌ : {S A B : Type 0} → Tx S A → Tx S B → Tx S B
m >> k = m >>= λ _. k

-- The state after a unit of work: the old one if it raised.
abbrev pub after : {S A : Type 0} → Tx S A → S → S
after m s = elim (m s) [ ok r ↦ r.1 | err e ↦ s ]

pub after-ok : {S A : Type 0} (m : Tx S A) (s s' : S) (a : A) → m s ≡ ok (a, s') → after m s ≡ s'
after-ok m s s' a h = ground arith
