-- ===== src/Gateway/Router.antt =====
-- core/gateway/router.py: `LLMRouter`, over core/observability/base.py. What the router does to the
-- observability backend and to the cost tracker is a list of events; `refuses` says which of them are
-- raised at instead, and with what. Leaving the trace's context ends the trace on every way out, and
-- may raise, too. A stream is read to its end.
pub mod Events
pub mod Streams
use llmops_platform.Prelude.{
  ℕ, Str, codes, Bool, Option, none, some, List, [], ◌∷◌, ◌++◌, Result, ok, err, Exc, string_eq,
}
use llmops_platform.Prelude.Dict.{insert}
use llmops_platform.Prelude.Float.{Float}
use llmops_platform.Gateway.Schemas.{
  Message, ChatRequest, Usage, no_usage, Choice, ChatResponse, content, ChatResponseChunk,
}
use llmops_platform.Gateway.Registry.{LlmProvider, Stream, ProviderRegistry, resolve}

pub record TraceStart : Type 0 where
  pub name : Str
  pub messages : List Message
  pub service_name : Str
  pub request_id : Option Str
  pub provider : Str
  pub model : Str

-- What the metadata of a generation says of its end: the reason of the first choice, or that it was
-- a stream.
pub data Finish : Type 0 where
  finished : Option Str → Finish
  streamed : Finish

pub record Generation (fl : Float) : Type 0 where
  pub trace_id : Str
  pub name : Str
  pub model : Str
  pub messages : List Message
  pub output : Str
  pub usage : Usage
  pub temperature : fl.F
  pub max_tokens : ℕ
  pub finish : Finish

pub record Charge : Type 0 where
  pub service_name : Str
  pub model : Str
  pub input_tokens : ℕ
  pub output_tokens : ℕ

pub data Event (fl : Float) : Type 0 where
  trace_started : TraceStart → Event fl
  generation_logged : Generation fl → Event fl
  cost_recorded : Charge → Event fl
  -- the way back from `record`, behind the charge: it closes the client of Redis
  record_returned : Event fl
  trace_ended : Event fl

-- Who calls: the headers of the request.
pub record Caller : Type 0 where
  pub service_name : Str
  pub request_id : Option Str

-- The variables of the loop over a stream, and the chunks that it has yielded.
pub record Collected : Type 0 where
  pub collected_content : Str
  pub final_usage : Option Usage
  pub yielded : List ChatResponseChunk

abbrev pub nothing_collected : Collected
nothing_collected = record { collected_content = []; final_usage = none; yielded = [] }

-- `if chunk.usage: final_usage = chunk.usage`
abbrev pub or_before : Option Usage → Option Usage → Option Usage
or_before none before = before
or_before (some u) before = some u

-- `async for chunk in provider.chat_stream(request)`
unfoldable pub collect : List ChatResponseChunk → Collected → Collected
collect [] s = s
collect (c ∷ cs) s = collect cs (record {
  collected_content = s.collected_content ++ c.delta_content;
  final_usage = or_before c.usage s.final_usage;
  yielded = s.yielded ++ c ∷ [];
})

abbrev pub or_no_usage : Option Usage → Usage
or_no_usage none = no_usage
or_no_usage (some u) = u

abbrev pub first_reason : List Choice → Option Str
first_reason [] = none
first_reason (c ∷ cs) = some c.finish_reason

module _ (fl : Float) where
  abbrev pub Events : Type 0
  Events = List (Event fl)

  -- A coroutine that may raise; the events stay.
  abbrev pub Eff : Type 0 → Type 0
  Eff A = Events → Result A × Events

  abbrev pub pure : {A : Type 0} → A → Eff A
  pure a log = (ok a, log)

  abbrev pub lift : {A : Type 0} → Result A → Eff A
  lift r log = (r, log)

  infixl 5 ◌>>=◌ ◌>>◌
  abbrev pub ◌>>=◌ : {A B : Type 0} → Eff A → (A → Eff B) → Eff B
  ◌>>=◌ m f log = let (r, log') = m log in elim r [ ok a ↦ f a log' | err e ↦ (err e, log') ]

  abbrev pub ◌>>◌ : {A B : Type 0} → Eff A → Eff B → Eff B
  m >> k = m >>= λ _. k

  module _ (refuses : Event fl → Option Exc) where
    abbrev pub emit_or : Option Exc → Event fl → Eff (Unit {0})
    emit_or none e log = (ok tt, log ++ e ∷ [])
    emit_or (some x) e log = (err x, log)

    abbrev pub emit : Event fl → Eff (Unit {0})
    emit e = emit_or (refuses e) e

    abbrev pub end_or : {A : Type 0} → Option Exc → Result A × Events → Result A × Events
    end_or none (r, log) = (r, log ++ trace_ended ∷ [])
    end_or (some x) (r, log) = (err x, log)

    -- the `finally` of the trace; an exception of its own takes the place of the other
    abbrev pub finally_end : {A : Type 0} → Result A × Events → Result A × Events
    finally_end out = end_or (refuses trace_ended) out

    -- `self._cost_tracker.record(…)`
    abbrev pub record_cost : Charge → Eff (Unit {0})
    record_cost c = do emit (cost_recorded c); emit record_returned

    -- `async with self._observability.trace(…)`
    abbrev pub with_trace : {A : Type 0} → TraceStart → Eff A → Eff A
    with_trace start body = emit (trace_started start) >> λ log. finally_end (body log)

    module _ (registry : ProviderRegistry fl) (trace_id : Str) (caller : Caller) where
      abbrev pub start_of : Str → LlmProvider fl → ChatRequest fl → TraceStart
      start_of name p r = record {
        name = name;
        messages = r.messages;
        service_name = caller.service_name;
        request_id = caller.request_id;
        provider = p.provider_name;
        model = r.model;
      }

      abbrev pub generation_of :
          LlmProvider fl → ChatRequest fl → Str → Usage → Finish → Generation fl
      generation_of p r output usage finish = record {
        trace_id = trace_id;
        name = p.provider_name ++ codes "_generation";
        model = r.model;
        messages = r.messages;
        output = output;
        usage = usage;
        temperature = r.temperature;
        max_tokens = r.max_tokens;
        finish = finish;
      }

      abbrev pub charge_of : ChatRequest fl → Usage → Charge
      charge_of r usage = record {
        service_name = caller.service_name;
        model = r.model;
        input_tokens = usage.input_tokens;
        output_tokens = usage.output_tokens;
      }

      abbrev pub traced : ChatResponse → ChatResponse
      traced response = record response {
        metadata = insert (codes "trace_id") trace_id response.metadata;
      }

      -- the body of `chat` under the trace
      unfoldable pub chat_body : LlmProvider fl → ChatRequest fl → Eff ChatResponse
      unfolding content
      chat_body p r = do
        response ← lift (p.chat r)
        emit (
            generation_logged (
              generation_of p r (content response) response.usage
                (finished (first_reason response.choices))))
        record_cost (charge_of r response.usage)
        pure (traced response)

      -- `chat`
      unfoldable pub chat : ChatRequest fl → Eff ChatResponse
      unfolding chat_body resolve
      chat r = do
        p ← lift (resolve fl registry r.model)
        with_trace (start_of (codes "chat_completion") p r) (chat_body p r)

      -- after the last chunk of a stream
      unfoldable pub stream_end : LlmProvider fl → ChatRequest fl → Collected → Eff (Unit {0})
      stream_end p r s = do
        record_cost (charge_of r (or_no_usage s.final_usage))
        emit (
            generation_logged
              (generation_of p r s.collected_content (or_no_usage s.final_usage) streamed))

      abbrev failed : Option Exc → Eff (Unit {0}) → Eff (Unit {0})
      failed none k = k
      failed (some x) k = lift (err x)

      -- What a consumer that reads to the end sees: the chunks, and how the stream ended.
      pub record StreamRun : Type 0 where
        pub yielded : List ChatResponseChunk
        pub outcome : Result (Unit {0})
        pub events : Events

      -- the body under the trace, with what the loop has collected
      stream_body : LlmProvider fl → ChatRequest fl → Collected → Eff (Unit {0})
      unfolding stream_end
      stream_body p r s = failed (p.chat_stream r).failure (stream_end p r s)

      run_stream : Option Exc → LlmProvider fl → ChatRequest fl → Events → StreamRun
      unfolding stream_body collect
      run_stream (some x) p r log = record { yielded = []; outcome = err x; events = log }
      run_stream none p r log =
          let start = trace_started (start_of (codes "chat_completion_stream") p r) in
          let s = collect (p.chat_stream r).chunks nothing_collected in
          let (outcome, events) = finally_end (stream_body p r s (log ++ start ∷ [])) in
          record { yielded = s.yielded; outcome = outcome; events = events }

      stream_from : Result (LlmProvider fl) → ChatRequest fl → Events → StreamRun
      unfolding run_stream
      stream_from (err x) r log = record { yielded = []; outcome = err x; events = log }
      stream_from (ok p) r log =
          run_stream (refuses (trace_started (start_of (codes "chat_completion_stream") p r))) p r
            log

      -- `chat_stream`
      unfoldable pub chat_stream : ChatRequest fl → Events → StreamRun
      unfolding stream_from resolve
      chat_stream r log = stream_from (resolve fl registry r.model) r log
