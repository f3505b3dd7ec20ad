-- ===== src/Api/Status.antt =====
-- The `try` blocks of the endpoints in api/v1: which exceptions become which `HTTPException`.
use llmops_platform.Prelude.{ℕ, Bool, true, false, if◌then◌else◌, ok, err, Exc}
use llmops_platform.Prelude.Tx.{Tx}

-- The exceptions that the core raises as `ValueError`.
unfoldable pub is_value_error : Exc → Bool
is_value_error (Exc.prompt_not_found name) = true
is_value_error (Exc.version_not_found name n) = true
is_value_error (Exc.no_version_in_env env name) = true
is_value_error (Exc.no_versions name) = true
is_value_error (Exc.bad_enum s) = true
is_value_error Exc.template_failed = true
is_value_error (Exc.experiment_not_found id) = true
is_value_error (Exc.cannot_start s) = true
is_value_error (Exc.cannot_conclude s) = true
is_value_error (Exc.no_provider m ps) = true
is_value_error (Exc.unknown_strategy s ss) = true
is_value_error _ = false

-- `except ValueError as e: raise HTTPException(status_code=status, detail=str(e))`
unfoldable pub on_value_error : {S A : Type 0} → ℕ → Tx S A → Tx S A
unfolding is_value_error
on_value_error status m s = elim (m s) [
  | ok r ↦ ok r
  | err e ↦ (if is_value_error e then err (Exc.http status e) else err e)
]

-- `except Exception as e`, with the same
unfoldable pub on_exception : {S A : Type 0} → ℕ → Tx S A → Tx S A
on_exception status m s = elim (m s) [ ok r ↦ ok r | err e ↦ err (Exc.http status e) ]
