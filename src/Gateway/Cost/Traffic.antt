-- ===== src/Gateway/Cost/Traffic.antt =====
-- The router of core/gateway/router.py with the Redis cost tracker: what its calls, plain and as streams
-- that are read to their end, leave in the summaries.
use llmops_platform.Prelude.{
  ◌≡◌, refl, ap, ◌∙◌, Str, Bool, Option, none, some, List, [], ◌∷◌, ◌++◌, map, string_eq, Result,
  ok, err, Exc, length, sum_by, inl, inr, Bool-cases, Option-cases, if◌then◌else◌,
}
use llmops_platform.Prelude.Float.{Float}
use llmops_platform.Gateway.Schemas.{ChatRequest, ChatResponse}
use llmops_platform.Gateway.Registry.{LlmProvider, ProviderRegistry, resolve}
use llmops_platform.Gateway.Router.{
  Event, cost_recorded, record_returned, trace_ended, Events, Caller, Charge, StreamRun, chat,
  chat_stream,
}
use llmops_platform.Gateway.Router.Events.{charges, Ended, returned, raised, raised_late, run-Ended}
use llmops_platform.Gateway.Router.Streams.{
  begun, charge_due, Closed, ended, not_ended, Body, broken, not_charged, charged_late, not_logged,
  complete, Streamed, unresolved, not_begun, read, chat_stream-Streamed,
}
use llmops_platform.Gateway.Cost.{UsageRecord, Redis, record_usage, get_service_summary}
use llmops_platform.Gateway.Cost.Totals.{
  record_all, records_of, cost_from, record_all-get_service_summary,
}

-- The arguments of `record` in a charge.
abbrev pub usage_of_charge : Charge → UsageRecord
usage_of_charge c = record {
  service_name = c.service_name;
  model = c.model;
  input_tokens = c.input_tokens;
  output_tokens = c.output_tokens;
}

module _ (fl : Float) (refuses : Event fl → Option Exc) (registry : ProviderRegistry fl) where
  open fl use {of_ℕ}

  pub record RouterCall : Type 0 where
    pub trace_id : Str
    pub caller : Caller
    pub request : ChatRequest fl
    pub is_stream : Bool

  abbrev chat_of : RouterCall → Result ChatResponse × Events fl
  chat_of k = chat fl refuses registry k.trace_id k.caller k.request []

  abbrev events_of_call : RouterCall → Events fl
  events_of_call k =
      if k.is_stream
      then (chat_stream fl refuses registry k.trace_id k.caller k.request []).events
      else (chat_of k).1

  -- The charges of a call.
  abbrev charged : RouterCall → Events fl → List UsageRecord
  charged k es = map usage_of_charge (charges fl refuses registry k.trace_id k.caller es)

  -- The hashes after the charges of calls.
  unfoldable pub serve : List RouterCall → Redis fl → Redis fl
  unfolding record_all
  serve [] s = s
  serve (k ∷ ks) s = serve ks (record_all fl (charged k (events_of_call k)) s)

  -- What a plain call is to be charged for: the usage of its response, if it returns one.
  abbrev pub billed_chat : RouterCall → Result ChatResponse → List UsageRecord
  billed_chat k (err e) = []
  billed_chat k (ok response) =
      record {
        service_name = k.caller.service_name;
        model = k.request.model;
        input_tokens = response.usage.input_tokens;
        output_tokens = response.usage.output_tokens;
      }
      ∷ []

  abbrev due : RouterCall → LlmProvider fl → Charge
  due k p = charge_due fl refuses registry k.trace_id k.caller p k.request

  -- What a stream is to be charged for: its newest usage, if the provider ends it well and neither the
  -- beginning of the trace nor the charge is refused.
  abbrev pub billed_stream : RouterCall → Result (LlmProvider fl) → List UsageRecord
  billed_stream k (err e) = []
  billed_stream k (ok p) = elim ((p.chat_stream k.request).failure) [
    | some x ↦ []
    | none ↦ (elim (refuses (begun fl refuses registry k.trace_id k.caller p k.request)) [
      | some x ↦ []
      | none ↦ (elim (refuses (cost_recorded (due k p))) [
        | some x ↦ []
        | none ↦ usage_of_charge (due k p) ∷ []
      ])
    ])
  ]

  abbrev pub billed_one : RouterCall → List UsageRecord
  billed_one k =
      if k.is_stream
      then billed_stream k (resolve fl registry k.request.model)
      else billed_chat k (chat_of k).0

  abbrev pub billed : List RouterCall → List UsageRecord
  billed [] = []
  billed (k ∷ ks) = billed_one k ++ billed ks

  record_all-append :
      (xs ys : List UsageRecord) (s : Redis fl)
      → record_all fl ys (record_all fl xs s) ≡ record_all fl (xs ++ ys) s
  unfolding record_all
  record_all-append [] ys s = refl
  record_all-append (x ∷ xs) ys s = record_all-append xs ys (record_usage fl x s).1

  module _ (comes_back : refuses record_returned ≡ none) (ends : refuses trace_ended ≡ none) where
    Ended-billed_chat :
        (k : RouterCall) (out : Result ChatResponse × Events fl)
        → Ended fl refuses registry k.trace_id k.caller k.request [] out
        → charged k (out.1) ≡ billed_chat k (out.0)
    Ended-billed_chat k _ (returned p response found good) = refl
    Ended-billed_chat k _ (raised x log quiet) = ap (map usage_of_charge) quiet
    Ended-billed_chat k _ (raised_late p response x log found good (inl bad) late) = absurd (cc)
    Ended-billed_chat k _ (raised_late p response x log found good (inr bad) late) = absurd (cc)

    Body-billed_stream :
        (k : RouterCall) (p : LlmProvider fl) (body out : Result (Unit {0}) × Events fl)
        → refuses (begun fl refuses registry k.trace_id k.caller p k.request) ≡ none
        → Body fl refuses registry k.trace_id k.caller p k.request
            (begun fl refuses registry k.trace_id k.caller p k.request ∷ [])
            body
        → Closed fl refuses registry k.trace_id k.caller (body.0) (body.1) out
        → charged k (out.1) ≡ billed_stream k (ok p)
    Body-billed_stream k p _ _ e body (not_ended y bad) = absurd (cc)
    Body-billed_stream k p _ _ e (broken x f) (ended h) = rw f refl
    Body-billed_stream k p _ _ e (not_charged x f g) (ended h) = rw (f, e, g) refl
    Body-billed_stream k p _ _ e (charged_late x f g bad) (ended h) = absurd (cc)
    Body-billed_stream k p _ _ e (not_logged x f g r l) (ended h) = rw (f, e, g) refl
    Body-billed_stream k p _ _ e (complete f g r l) (ended h) = rw (f, e, g) refl

    Streamed-billed_stream :
        (k : RouterCall) (out : StreamRun fl refuses registry k.trace_id k.caller)
        → Streamed fl refuses registry k.trace_id k.caller k.request [] out
        → charged k out.events ≡ billed_stream k (resolve fl registry k.request.model)
    Streamed-billed_stream k _ (unresolved x gone) = rw gone refl
    Streamed-billed_stream k _ (not_begun p x found e) = rw found (not_begun-billed k p x e)
      where
        not_begun-billed :
            (k : RouterCall) (p : LlmProvider fl) (x : Exc)
            → refuses (begun fl refuses registry k.trace_id k.caller p k.request) ≡ some x
            → [] ≡ billed_stream k (ok p)
        not_begun-billed k p x e = elim (Option-cases (p.chat_stream k.request).failure) [
          | inl f ↦ rw (f, e) refl
          | inr (y, f) ↦ rw f refl
        ]
    Streamed-billed_stream k _ (read p body out found e b c) =
        rw found (Body-billed_stream k p body out e b c)

    charged-billed_one : (k : RouterCall) → charged k (events_of_call k) ≡ billed_one k
    charged-billed_one k = elim (Bool-cases k.is_stream) [
      | inl streaming ↦ rw streaming (
          Streamed-billed_stream k
            (chat_stream fl refuses registry k.trace_id k.caller k.request [])
            (chat_stream-Streamed fl refuses registry k.trace_id k.caller k.request []))
      | inr plain ↦ rw plain (
          Ended-billed_chat k (chat_of k)
            (run-Ended fl refuses registry k.trace_id k.caller k.request []))
    ]

    serve-record_all :
        (ks : List RouterCall) (s : Redis fl) → serve ks s ≡ record_all fl (billed ks) s
    unfolding serve record_all
    serve-record_all [] s = refl
    serve-record_all (k ∷ ks) s =
        serve-record_all ks _
        ∙ ap (λ rs. record_all fl (billed ks) (record_all fl rs s)) (charged-billed_one k)
        ∙ record_all-append (billed_one k) (billed ks) s

  -- What services are shown is what their callers were given: after any calls of the router, plain or
  -- as streams that are read to their end, from empty hashes, the summary of a service has the number,
  -- the tokens and the cost, added up in their order, of its plain calls that returned a response, and
  -- of its streams that the provider ended well and whose trace and charge were not refused, these
  -- also where the logging behind the charge raised. No other call shows in it, nor do those of other
  -- services. It is assumed that neither the way back from `record` nor the end of a trace
  -- raises, and that a charge that raises has not been written.
  pub serve-get_service_summary :
      (name : Str) (ks : List RouterCall)
      → refuses record_returned ≡ none
      → refuses trace_ended ≡ none
      → get_service_summary fl (serve ks []) name ≡ record {
        service = name;
        total_cost = cost_from fl (of_ℕ 0) (records_of fl name (billed ks));
        total_input_tokens =
            sum_by (λ (r : UsageRecord). r.input_tokens) (records_of fl name (billed ks));
        total_output_tokens =
            sum_by (λ (r : UsageRecord). r.output_tokens) (records_of fl name (billed ks));
        total_requests = length (records_of fl name (billed ks));
      }
  serve-get_service_summary name ks comes_back ends =
      ap (λ s. get_service_summary fl s name) (serve-record_all comes_back ends ks [])
      ∙ record_all-get_service_summary fl name (billed ks)
