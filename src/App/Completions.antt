-- ===== src/App/Completions.antt =====
-- The endpoint for completions of api/v1/gateway.py in the application: what becomes of its errors.
use llmops_platform.Prelude.{
  ℕ, ◌≡◌, refl, sym, subst, ◌⊎◌, inl, inr, Str, codes, Bool, true, false, Option, none, some,
  Result, ok, err, Exc, arith, string_eq,
}
use llmops_platform.Prelude.Dict.{Dict}
use llmops_platform.Prelude.Float.{Float}
use llmops_platform.Prompts.Base.{PromptDb}
use llmops_platform.Gateway.Schemas.{ChatRequest}
use llmops_platform.Gateway.Registry.{ProviderRegistry, resolve}
use llmops_platform.Gateway.Router.{Event, Events, Caller, chat}
use llmops_platform.Middleware.Auth.{verify_api_key}
use llmops_platform.Api.Gateway.{CompletionRequest, prepare, chat_completions}
use llmops_platform.Api.Status.{is_value_error}
use llmops_platform.App.{
  Request, Service, Endpoint, Conditions, route, http_status, http_response, World, handle,
}
use llmops_platform.App.Requests.{
  Uncounted, limit_of, route-ran, answered, answered-err, answered-service,
}

module _ (fl : Float) (render : Str → Dict Str Str → Result Str) (show : ℕ → Str)
    (refuses : Event fl → Option Exc) (registry : ProviderRegistry fl) (trace_id : Str) where
  abbrev pub State : Type 0
  State = PromptDb × Events fl

  abbrev or_unknown : Option Str → Str
  or_unknown none = codes "unknown"
  or_unknown (some name) = name

  -- The headers `X-Service-Name` and `X-Request-ID`.
  abbrev pub caller_of : Request → Caller
  caller_of r = record { service_name = or_unknown r.service_name; request_id = r.request_id }

  abbrev status_200 : {A : Type 0} → Result A → Result ℕ
  status_200 (ok a) = ok 200
  status_200 (err e) = err e

  -- `chat_completions` as the handler of its route, for a body
  unfoldable pub completions : CompletionRequest fl → Endpoint State
  unfolding chat_completions
  completions req r s =
      let (reply, log) =
        chat_completions fl render show refuses registry trace_id (caller_of r) req s.0 s.1 in
      (status_200 reply, (s.0, log))

  value_error-http_status : (e : Exc) → is_value_error e ≡ true → http_status State e ≡ none
  unfolding is_value_error http_status
  value_error-http_status (Exc.prompt_not_found a) h = refl
  value_error-http_status (Exc.version_not_found a b) h = refl
  value_error-http_status (Exc.no_version_in_env a b) h = refl
  value_error-http_status (Exc.no_versions a) h = refl
  value_error-http_status (Exc.bad_enum a) h = refl
  value_error-http_status Exc.template_failed h = refl
  value_error-http_status (Exc.experiment_not_found a) h = refl
  value_error-http_status (Exc.cannot_start a) h = refl
  value_error-http_status (Exc.cannot_conclude a) h = refl
  value_error-http_status (Exc.no_provider a b) h = refl
  value_error-http_status (Exc.unknown_strategy a b) h = refl
  value_error-http_status (Exc.http n x) h = absurd (cc)
  value_error-http_status Exc.pipeline_not_found h = absurd (cc)
  value_error-http_status Exc.missing_authorization h = absurd (cc)
  value_error-http_status Exc.invalid_api_key h = absurd (cc)
  value_error-http_status (Exc.rate_exceeded n) h = absurd (cc)
  value_error-http_status Exc.integrity_error h = absurd (cc)
  value_error-http_status Exc.data_error h = absurd (cc)
  value_error-http_status Exc.index_error h = absurd (cc)
  value_error-http_status Exc.key_error h = absurd (cc)
  value_error-http_status Exc.other h = absurd (cc)

  -- A request for a completion that raises a `ValueError`: its prompt or its messages are refused, or,
  -- where it is no stream, its model has no provider.
  abbrev pub IsRefused : CompletionRequest fl → PromptDb → Exc → Type 0
  IsRefused req db e =
      (is_value_error e ≡ true)
      × ((prepare fl render show req db ≡ err e)
          ⊎ ((m : ChatRequest fl) × (prepare fl render show req db ≡ ok (m, db))
              × (m.stream ≡ false)
              × (resolve fl registry m.model ≡ err e)))

  completions-refused :
      (req : CompletionRequest fl) (r : Request) (s : State) (e : Exc)
      → IsRefused req s.0 e
      → completions req r s ≡ (err e, s)
  unfolding completions chat_completions chat
  completions-refused req r s e (v, inl bad) = ground arith
  completions-refused req r s e (v, inr (m, good, plain, missing)) = ground arith

  module _ (is_digit : ℕ → Bool) where
    -- The endpoint for completions does not turn a `ValueError` into a status of its own, as those for
    -- prompts do: an admitted request whose prompt or messages are refused, or one that is not for a stream and
    -- whose model no provider supports, is answered with 500, bears no request id and is missing from the metrics; only the
    -- limit has counted it.
    pub handle-completions :
        (c : Conditions State) (fresh who : Str) (req : CompletionRequest fl) (r : Request)
        (w : World State is_digit) (e : Exc)
        → verify_api_key c.keys r.path r.authorization ≡ ok who
        → (limit_of State is_digit c r w.service.buckets).0 ≡ ok tt
        → IsRefused req w.service.state.0 e
        → let out = handle State is_digit c fresh true (completions req) r w in
          Uncounted State is_digit w out
          × (out.1.service ≡ record {
            state = w.service.state;
            buckets = (limit_of State is_digit c r w.service.buckets).1;
          })
    unfolding handle http_response
    handle-completions c fresh who req r w e good free refused =
        let v = w.service in
        let limit = limit_of State is_digit c r v.buckets in
        let v' : Service State = record { state = v.state; buckets = limit.1 } in
        let ran = route-ran State is_digit c (completions req) r v who good free in
        let failed = completions-refused req r v.state e refused in
        let plain = value_error-http_status e refused.0 in
        let left : http_response State (route State c true (completions req) r v) ≡ (err e, v') =
          ground arith in
        subst
          (λ x.
            Uncounted State is_digit w (answered State is_digit fresh r w x)
            × ((answered State is_digit fresh r w x).1.service ≡ v'))
          (sym left)
          (
            answered-err State is_digit fresh r w e v',
            answered-service State is_digit fresh r w (err e) v',
          )
