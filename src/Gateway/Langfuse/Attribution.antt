-- ===== src/Gateway/Langfuse/Attribution.antt =====
-- The router of core/gateway/router.py with the Langfuse backend, and the tracker that asks Langfuse:
-- under which service the calls are counted.
use llmops_platform.Prelude.{
  ℕ, ◌≡◌, ◌≢◌, refl, sym, subst, Str, codes, Bool, true, false, Option, none, some, List, [], ◌∷◌,
  ◌++◌, ◌==◌, string_eq, str_eq, if◌then◌else◌, is_empty, arith, filter, filter-append, map, All,
  All-append, eq_iff, ok, Exc, inl, inr, Bool-cases,
}
use llmops_platform.Prelude.Dict.{lookup}
use llmops_platform.Prelude.Float.{Float}
use llmops_platform.Gateway.Schemas.{ChatRequest}
use llmops_platform.Gateway.Registry.{ProviderRegistry}
use llmops_platform.Gateway.Router.{
  TraceStart, Generation, Finish, finished, streamed, Event, trace_started, generation_logged,
  cost_recorded, record_returned, trace_ended, Caller, Events, chat, chat_stream,
}
use llmops_platform.Observability.{
  Value, text, scalar, value_Eq, Metadata, sent_messages, reply, span, generation, Sent, Client,
  start_trace, log_generation,
}
use llmops_platform.Gateway.Langfuse.{Observation, fields, service_of, of_nothing, aggregate}
use llmops_platform.Gateway.Langfuse.Totals.{observed, aggregate-none}

-- How `json.dumps` writes a float and an integer.
module _ (fl : Float) (json_of : fl.F → Str) (json_of_ℕ : ℕ → Str) where
  abbrev or_null : Option Str → Value
  or_null none = scalar (codes "null")
  or_null (some s) = text s

  abbrev finish_metadata : Finish → Metadata
  finish_metadata (finished reason) = (codes "finish_reason", or_null reason) ∷ []
  finish_metadata streamed = (codes "stream", scalar (codes "true")) ∷ []

  -- the `metadata` of the router's `log_generation`
  unfoldable pub generation_metadata : Generation fl → Metadata
  generation_metadata g =
      (codes "temperature", scalar (json_of g.temperature))
      ∷ (codes "max_tokens", scalar (json_of_ℕ g.max_tokens))
      ∷ finish_metadata g.finish

  -- the `metadata` of the router's `trace`
  unfoldable pub trace_metadata : TraceStart → Metadata
  trace_metadata s =
      (codes "service_name", text s.service_name)
      ∷ (codes "request_id", or_null s.request_id)
      ∷ (codes "provider", text s.provider)
      ∷ (codes "model", text s.model)
      ∷ (if s.name == codes "chat_completion_stream"
          then (codes "stream", scalar (codes "true")) ∷ []
          else [])

  -- What a call of the router's does to the Langfuse client; the tracker's `record` does nothing.
  unfoldable pub tell : Str → Event fl → Client fl → Client fl
  unfolding generation_metadata trace_metadata start_trace log_generation
  tell trace_id (trace_started s) c =
      (start_trace trace_id s.name (some (sent_messages s.messages)) none none
        (some (trace_metadata s)) c).1
  tell trace_id (generation_logged g) c =
      log_generation g.trace_id g.name g.model (sent_messages g.messages) (reply g.output)
        (some (
          (codes "input_tokens", g.usage.input_tokens)
          ∷ (codes "output_tokens", g.usage.output_tokens)
          ∷ (codes "total_tokens", g.usage.total_tokens)
          ∷ []))
        (some (generation_metadata g)) c
  tell trace_id (cost_recorded e) c = c
  tell trace_id record_returned c = c
  tell trace_id trace_ended c = c

  unfoldable pub tell_all : Str → Events fl → Client fl → Client fl
  unfolding tell
  tell_all trace_id [] c = c
  tell_all trace_id (e ∷ es) c = tell_all trace_id es (tell trace_id e c)

  -- A call of the router's, plain or as a stream.
  pub record Call : Type 0 where
    pub trace_id : Str
    pub caller : Caller
    pub request : ChatRequest fl
    pub is_stream : Bool

  module _ (registry : ProviderRegistry fl) (refuses : Event fl → Option Exc) where
    abbrev pub events_of_call : Call → Events fl
    events_of_call k =
        if k.is_stream
        then (chat_stream fl refuses registry k.trace_id k.caller k.request []).events
        else (chat fl refuses registry k.trace_id k.caller k.request []).1

    -- The client after calls of the router's.
    unfoldable pub serve : List Call → Client fl → Client fl
    unfolding tell_all
    serve [] c = c
    serve (k ∷ ks) c = serve ks (tell_all k.trace_id (events_of_call k) c)

  abbrev is_generation : Sent → Bool
  is_generation s = elim s.as_type [ span ↦ false | generation ↦ true ]

  abbrev pub generations : Client fl → List Sent
  generations c = filter is_generation c.observations

  -- No generation that was sent names a service.
  abbrev AreNameless : Client fl → Type 0
  AreNameless c =
      All (λ (s : Sent). lookup (codes "service_name") s.metadata ≡ none) (generations c)

  finish_metadata-nameless : (f : Finish) → lookup (codes "service_name") (finish_metadata f) ≡ none
  unfolding lookup str_eq
  finish_metadata-nameless (finished reason) = refl
  finish_metadata-nameless streamed = refl

  generation_metadata-nameless :
      (g : Generation fl) → lookup (codes "service_name") (generation_metadata g) ≡ none
  unfolding generation_metadata lookup str_eq
  generation_metadata-nameless g = finish_metadata-nameless g.finish

  append-nameless :
      (c : Client fl) (s : Sent)
      → (is_generation s ≡ true → lookup (codes "service_name") s.metadata ≡ none)
      → AreNameless c
      → AreNameless (record c { observations = c.observations ++ s ∷ [] })
  append-nameless c s named h =
      subst (All (λ (s : Sent). lookup (codes "service_name") s.metadata ≡ none))
        (sym (filter-append is_generation c.observations (s ∷ [])))
        (All-append (λ (s : Sent). lookup (codes "service_name") s.metadata ≡ none) (generations c)
          (filter is_generation (s ∷ [])) h
          (elim (Bool-cases (is_generation s)) [ inl e ↦ rw e (named e, tt) | inr e ↦ rw e tt ]))

  tell-nameless :
      (trace_id : Str) (e : Event fl) (c : Client fl)
      → AreNameless c
      → AreNameless (tell trace_id e c)
  unfolding tell start_trace log_generation
  tell-nameless trace_id (trace_started s) c h = append-nameless c _ (λ bad. absurd (cc)) h
  tell-nameless trace_id (generation_logged g) c h =
      append-nameless c _ (λ _. generation_metadata-nameless g) h
  tell-nameless trace_id (cost_recorded e) c h = h
  tell-nameless trace_id record_returned c h = h
  tell-nameless trace_id trace_ended c h = h

  tell_all-nameless :
      (trace_id : Str) (es : Events fl) (c : Client fl)
      → AreNameless c
      → AreNameless (tell_all trace_id es c)
  unfolding tell_all
  tell_all-nameless trace_id [] c h = h
  tell_all-nameless trace_id (e ∷ es) c h =
      tell_all-nameless trace_id es (tell trace_id e c) (tell-nameless trace_id e c h)

  module _ (registry : ProviderRegistry fl) (refuses : Event fl → Option Exc) where
    serve-nameless :
        (ks : List Call) (c : Client fl) → AreNameless c → AreNameless (serve registry refuses ks c)
    unfolding serve
    serve-nameless [] c h = h
    serve-nameless (k ∷ ks) c h =
        serve-nameless ks (tell_all k.trace_id (events_of_call registry refuses k) c)
          (tell_all-nameless k.trace_id (events_of_call registry refuses k) c h)

  none-observed :
      (shown : Sent → Observation fl) (name : Str) (ss : List Sent)
      → ((s : Sent) → (shown s).metadata ≡ some (fields s.metadata))
      → name ≢ codes "unknown"
      → All (λ (s : Sent). lookup (codes "service_name") s.metadata ≡ none) ss
      → observed fl (text name) (map shown ss) ≡ []
  unfolding service_of
  none-observed shown name [] kept other h = refl
  none-observed shown name (s ∷ ss) kept other h =
      let svc : service_of fl (shown s) ≡ text (codes "unknown") = ground (arith, kept s, h.0) in
      ground (
        arith,
        eq_iff (text name) (text (codes "unknown")),
        none-observed shown name ss kept other h.1,
      )

  -- With the Langfuse backend no call is counted under the service that made it: whatever calls the
  -- router serves, for whatever callers, the report for a service gives zeros, unless the service is
  -- called "unknown". Langfuse is assumed to give back each generation with the metadata that were
  -- sent with it.
  pub serve-aggregate :
      (registry : ProviderRegistry fl) (refuses : Event fl → Option Exc)
      (shown : Sent → Observation fl) (ks : List Call) (name : Str)
      → ((s : Sent) → (shown s).metadata ≡ some (fields s.metadata))
      → is_empty name ≡ false
      → name ≢ codes "unknown"
      → let served = serve registry refuses ks (record { observations = []; scores = [] }) in
        aggregate fl (map shown (generations served)) (some name) ≡ ok (of_nothing name)
  serve-aggregate registry refuses shown ks name kept full other =
      let served = serve registry refuses ks (record { observations = []; scores = [] }) in
      let os = map shown (generations served) in
      aggregate-none fl name os full (
        none-observed shown name (generations served) kept other
          (serve-nameless registry refuses ks (record { observations = []; scores = [] }) tt))
