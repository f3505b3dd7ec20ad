-- ===== src/Api/Answers.antt =====
-- What an endpoint with its own status for a `ValueError` answers.
use llmops_platform.Prelude.{
  ℕ, ◌≡◌, ◌⊎◌, inl, inr, refl, Bool, true, false, if◌then◌else◌, Result, ok, err, Exc,
}
use llmops_platform.Api.Status.{is_value_error}

-- A result, or a `ValueError`.
abbrev pub Raises : {A : Type 0} → Result A → Type 0
Raises (ok a) = Unit
Raises (err e) = is_value_error e ≡ true

-- A result, or the status with the `ValueError` that it stands for.
abbrev pub Answers : {A : Type 0} → ℕ → Result A → Type 0
Answers status (ok a) = Unit
Answers status (err e) = (x : Exc) × (e ≡ Exc.http status x) × (is_value_error x ≡ true)

-- The same, but that the database may refuse a number outside the range of its column.
abbrev pub RaisesOr : {A : Type 0} → Bool → Result A → Type 0
RaisesOr in_range r = Raises r ⊎ ((in_range ≡ false) × (r ≡ err Exc.data_error))

abbrev pub AnswersOr : {A : Type 0} → Bool → ℕ → Result A → Type 0
AnswersOr in_range status r = Answers status r ⊎ ((in_range ≡ false) × (r ≡ err Exc.data_error))

pub answers_lem :
    {A : Type 0} (status : ℕ) (r : Result A)
    → Raises r
    → Answers status (elim r [
      | ok a ↦ ok a
      | err e ↦ (if is_value_error e then err (Exc.http status e) else err e)
    ])
answers_lem status (ok a) h = tt
answers_lem status (err e) h = rw h (e, refl, h)

pub answers_or_lem :
    {A : Type 0} (in_range : Bool) (status : ℕ) (r : Result A)
    → RaisesOr in_range r
    → AnswersOr in_range status (elim r [
      | ok a ↦ ok a
      | err e ↦ (if is_value_error e then err (Exc.http status e) else err e)
    ])
unfolding is_value_error
answers_or_lem in_range status r (inl h) = inl (answers_lem status r h)
answers_or_lem in_range status r (inr (out, e)) = inr (out, rw e refl)
