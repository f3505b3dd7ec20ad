-- ===== src/Tests/Middleware.antt =====
-- The middleware of src/llmops/api at concrete inputs.
use llmops_platform.Prelude.{ℕ, ◌≡◌, refl, Str, codes, some, List, [], ◌∷◌, arith, str_eq}
use llmops_platform.Middleware.Strings.{
  strip, strip_by, lstrip_by, rstrip_by, is_space, removeprefix,
}
use llmops_platform.Middleware.Auth.{verify_api_key, is_public, Admitted, verify_api_key-Admitted}
use llmops_platform.Middleware.RateLimit.Window.{fair_decisions, IsBounded}
use llmops_platform.Middleware.RateLimit.Keys.{
  answers, times_of, passed_of, check-fair, check-IsBounded,
}

abbrev path : Str
path = codes "/v1/chat"

verify_api_key-Admitted_example :
    Admitted (codes "k1" ∷ []) path (some (codes "Bearer k1")) (codes "k1")
unfolding verify_api_key is_public str_eq strip strip_by lstrip_by rstrip_by is_space removeprefix
verify_api_key-Admitted_example =
    verify_api_key-Admitted (codes "k1" ∷ []) path (some (codes "Bearer k1")) (codes "k1") refl

abbrev shop : Str
shop = codes "shop"

abbrev requests : List (Str × ℕ)
requests = (shop, 0) ∷ (codes "blog", 5) ∷ (shop, 10) ∷ (shop, 70) ∷ []

check-fair_example : answers 1 2 shop requests [] ≡ fair_decisions 1 2 (times_of shop requests) []
unfolding str_eq
check-fair_example = check-fair 1 1 shop requests (omega arith)

check-IsBounded_example :
    IsBounded 1 2 (passed_of 1 (answers 1 2 shop requests []) (times_of shop requests) [])
unfolding str_eq
check-IsBounded_example = check-IsBounded 1 1 shop requests (omega arith)
