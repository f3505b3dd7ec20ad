-- ===== src/App/Readiness.antt =====
-- The readiness probe of api/v1/admin.py.
use llmops_platform.Prelude.{◌≡◌, refl, ◌↔◌, Str, codes, Option, none, some, string_eq, str_eq}
use llmops_platform.App.{BackendType, langfuse, noop, readyz}

-- The probe reports "ready" exactly when neither the database nor Redis gives an error, whichever
-- backend of observability is set; it reports "degraded" otherwise.
pub readyz-ready :
    (setting : BackendType) (postgresql redis : Option Str)
    → ((readyz setting postgresql redis).status ≡ codes "ready")
      ↔ ((postgresql ≡ none) × (redis ≡ none))
unfolding readyz str_eq
readyz-ready langfuse none none = (λ _. (refl, refl), λ _. refl)
readyz-ready langfuse none (some e) = (λ h. absurd (cc), λ h. absurd (cc))
readyz-ready langfuse (some e) none = (λ h. absurd (cc), λ h. absurd (cc))
readyz-ready langfuse (some e) (some f) = (λ h. absurd (cc), λ h. absurd (cc))
readyz-ready noop none none = (λ _. (refl, refl), λ _. refl)
readyz-ready noop none (some e) = (λ h. absurd (cc), λ h. absurd (cc))
readyz-ready noop (some e) none = (λ h. absurd (cc), λ h. absurd (cc))
readyz-ready noop (some e) (some f) = (λ h. absurd (cc), λ h. absurd (cc))
