-- ===== src/Gateway/Registry.antt =====
-- core/gateway/base.py and registry.py, and the start-up of main.py that fills the registry.
use llmops_platform.Prelude.{
  ◌≡◌, refl, inl, inr, Str, Bool, true, false, Option, List, [], ◌∷◌, ◌++◌, map, if◌then◌else◌,
  is_empty, All, Result, ok, err, Exc, Bool-cases,
}
use llmops_platform.Prelude.Float.{Float}
use llmops_platform.Gateway.Schemas.{ChatRequest, ChatResponse, ChatResponseChunk}

-- What a stream gave before it ended or raised.
pub record Stream : Type 0 where
  pub chunks : List ChatResponseChunk
  pub failure : Option Exc

-- `class LLMProvider`
pub record LlmProvider (fl : Float) : Type 0 where
  pub provider_name : Str
  pub supports_model : Str → Bool
  pub chat : ChatRequest fl → Result ChatResponse
  pub chat_stream : ChatRequest fl → Stream

module _ (fl : Float) where
  -- `ProviderRegistry._providers`
  abbrev pub ProviderRegistry : Type 0
  ProviderRegistry = List (LlmProvider fl)

  unfoldable pub register : ProviderRegistry → LlmProvider fl → ProviderRegistry
  register ps p = ps ++ p ∷ []

  unfoldable pub list_providers : ProviderRegistry → List Str
  list_providers ps = map (λ p. p.provider_name) ps

  first_supporting : Str → List Str → ProviderRegistry → Result (LlmProvider fl)
  first_supporting model available [] = err (Exc.no_provider model available)
  first_supporting model available (p ∷ ps) =
      if p.supports_model model then ok p else first_supporting model available ps

  -- `ProviderRegistry.resolve`
  unfoldable pub resolve : ProviderRegistry → Str → Result (LlmProvider fl)
  unfolding first_supporting list_providers
  resolve ps model = first_supporting model (list_providers ps) ps

  -- `_register_providers`: one provider for each key that is set.
  unfoldable pub register_providers :
      LlmProvider fl → LlmProvider fl → Str → Str → ProviderRegistry → ProviderRegistry
  unfolding register
  register_providers anthropic gemini anthropic_api_key gemini_api_key ps =
      let ps' = if is_empty anthropic_api_key then ps else register ps anthropic in
      if is_empty gemini_api_key then ps' else register ps' gemini

  -- The registry split at the provider that is chosen.
  abbrev pub Chosen : ProviderRegistry → Str → Result (LlmProvider fl) → Type 0
  Chosen ps model (ok p) =
      (before : ProviderRegistry) × (after : ProviderRegistry) × (ps ≡ before ++ p ∷ after)
      × All (λ (q : LlmProvider fl). q.supports_model model ≡ false) before
      × (p.supports_model model ≡ true)
  Chosen ps model (err e) =
      All (λ (q : LlmProvider fl). q.supports_model model ≡ false) ps
      × (e ≡ Exc.no_provider model (list_providers ps))

  abbrev First : ProviderRegistry → Str → List Str → Result (LlmProvider fl) → Type 0
  First ps model names (ok p) =
      (before : ProviderRegistry) × (after : ProviderRegistry) × (ps ≡ before ++ p ∷ after)
      × All (λ (q : LlmProvider fl). q.supports_model model ≡ false) before
      × (p.supports_model model ≡ true)
  First ps model names (err e) =
      All (λ (q : LlmProvider fl). q.supports_model model ≡ false) ps
      × (e ≡ Exc.no_provider model names)

  First-cons :
      (q : LlmProvider fl) (ps : ProviderRegistry) (model : Str) (names : List Str)
      (r : Result (LlmProvider fl))
      → q.supports_model model ≡ false
      → First ps model names r
      → First (q ∷ ps) model names r
  First-cons q ps model names (ok p) no_support (before, after, split, none_before, yes_p) =
      (q ∷ before, after, rw split, (no_support, none_before), yes_p)
  First-cons q ps model names (err e) no_support (none_all, same) = ((no_support, none_all), same)

  first_supporting-First :
      (ps : ProviderRegistry) (model : Str) (names : List Str)
      → First ps model names (first_supporting model names ps)
  unfolding first_supporting
  first_supporting-First [] model names = (tt, refl)
  first_supporting-First (q ∷ ps) model names = elim (Bool-cases (q.supports_model model)) [
    | inl y ↦ rw y ([], ps, refl, tt, y)
    | inr n ↦ rw n (
        First-cons q ps model names (first_supporting model names ps) n
          (first_supporting-First ps model names))
  ]

  First-Chosen :
      (ps : ProviderRegistry) (model : Str) (r : Result (LlmProvider fl))
      → First ps model (list_providers ps) r
      → Chosen ps model r
  First-Chosen ps model (ok p) h = h
  First-Chosen ps model (err e) h = h

  -- A model is served by the provider that supports it and was registered first; it is refused,
  -- with the names of all providers, exactly when none supports it.
  pub resolve-Chosen : (ps : ProviderRegistry) (model : Str) → Chosen ps model (resolve ps model)
  unfolding resolve
  resolve-Chosen ps model =
      First-Chosen ps model (first_supporting model (list_providers ps) ps)
        (first_supporting-First ps model (list_providers ps))
