-- ===== src/Prelude/Outcome.antt =====
-- What a call of the program gives back: a value, or the exception that it raises.
use Prim.Native.Nat.{ℕ}
use mathlib.Core.Path.{◌≡◌, refl}
use mathlib.Core.Logic.{◌⊎◌, inl, inr}
use mathlib.Core.Option.{Option, none, some}
use mathlib.Core.List.{List}
use llmops_platform.Prelude.Text.{Str}

-- Each constructor is a `raise` of the source with the values that its message is made of.
-- `http` is FastAPI's `HTTPException`; `integrity_error` is what a violated constraint of the
-- database raises, and `other` what a library raises for reasons of its own.
pub data Exc : Type 0 where
  prompt_not_found : Str → Exc
  version_not_found : Str → ℕ → Exc
  no_version_in_env : Str → Str → Exc
  no_versions : Str → Exc
  bad_enum : Str → Exc
  template_failed : Exc
  experiment_not_found : ℕ → Exc
  cannot_start cannot_conclude : Str → Exc
  no_provider : Str → List Str → Exc
  unknown_strategy : Str → List Str → Exc
  pipeline_not_found : Exc
  missing_authorization invalid_api_key : Exc
  rate_exceeded : ℕ → Exc
  integrity_error data_error index_error key_error other : Exc
  http : ℕ → Exc → Exc

pub data Result {ℓ} (A : Type ℓ) : Type ℓ where
  ok : A → Result A
  err : Exc → Result A

abbrev pub or_raise {ℓ} : {A : Type ℓ} → Option A → Exc → Result A
or_raise none e = err e
or_raise (some a) e = ok a

pub Result-cases {ℓ} :
    {A : Type ℓ} (r : Result A) → ((e : Exc) × (r ≡ err e)) ⊎ ((a : A) × (r ≡ ok a))
Result-cases (ok a) = inr (a, refl)
Result-cases (err e) = inl (e, refl)

infixl 5 ◌>>=◌ ◌>>◌
-- What follows runs on the value; an exception passes by it.
abbrev pub ◌>>=◌ {ℓ κ} : {B : Type ℓ} {C : Type κ} → Result B → (B → Result C) → Result C
err x >>= next = err x
ok b >>= next = next b

abbrev pub ◌>>◌ {ℓ} : {C : Type ℓ} → Result (Unit {0}) → Result C → Result C
first >> rest = first >>= λ done. rest

-- A bind that succeeds has two parts that succeed.
pub >>=-eq-ok {ℓ κ} :
    {B : Type ℓ} {C : Type κ} (m : Result B) (next : B → Result C) {c : C}
    → (m >>= next) ≡ ok c
    → (b : B) × (m ≡ ok b) × (next b ≡ ok c)
>>=-eq-ok (err x) next h = cc
>>=-eq-ok (ok b) next h = (b, refl, h)
