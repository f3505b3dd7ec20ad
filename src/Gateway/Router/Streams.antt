-- ===== src/Gateway/Router/Streams.antt =====
-- What a stream that is read to its end leaves behind.
use llmops_platform.Prelude.{
  ◌≡◌, refl, sym, ap, subst, ◌∙◌, inl, inr, Str, codes, Option, none, some, List, [], ◌∷◌, ◌++◌,
  append_assoc, append-nil, arith, Result, ok, err, Exc, Option-cases, Result-cases,
}
use llmops_platform.Prelude.Float.{Float}
use llmops_platform.Gateway.Schemas.{ChatRequest, ChatResponseChunk, Usage}
use llmops_platform.Gateway.Registry.{LlmProvider, ProviderRegistry, resolve}
use llmops_platform.Gateway.Router.{
  Event, trace_started, generation_logged, cost_recorded, record_returned, trace_ended, Events,
  Caller, Charge, StreamRun, chat_stream, stream_from, run_stream, stream_body, stream_end,
  start_of, generation_of, streamed, charge_of, Collected, collect, nothing_collected, or_before,
  or_no_usage, finally_end, end_or,
}

-- The newest usage that a chunk carries, and the text of all chunks, from the end of the stream.
abbrev pub newest_usage : List ChatResponseChunk → Option Usage
newest_usage [] = none
newest_usage (c ∷ cs) = elim (newest_usage cs) [ some u ↦ some u | none ↦ c.usage ]

abbrev pub text_of : List ChatResponseChunk → Str
text_of [] = []
text_of (c ∷ cs) = c.delta_content ++ text_of cs

yielded-collect :
    (cs : List ChatResponseChunk) (s : Collected) → (collect cs s).yielded ≡ s.yielded ++ cs
unfolding collect
yielded-collect [] s = sym (append-nil s.yielded)
yielded-collect (c ∷ cs) s = yielded-collect cs _ ∙ append_assoc s.yielded (c ∷ []) cs

content-collect :
    (cs : List ChatResponseChunk) (s : Collected)
    → (collect cs s).collected_content ≡ s.collected_content ++ text_of cs
unfolding collect
content-collect [] s = sym (append-nil s.collected_content)
content-collect (c ∷ cs) s =
    content-collect cs _ ∙ append_assoc s.collected_content c.delta_content (text_of cs)

usage-collect :
    (cs : List ChatResponseChunk) (s : Collected)
    → (collect cs s).final_usage ≡ or_before (newest_usage cs) s.final_usage
unfolding collect
usage-collect [] s = refl
usage-collect (c ∷ cs) s =
    usage-collect cs _ ∙ or_before_or_before (newest_usage cs) c.usage s.final_usage
  where
    or_before_or_before :
        (a b d : Option Usage)
        → or_before a (or_before b d) ≡ or_before (elim a [ some u ↦ some u | none ↦ b ]) d
    or_before_or_before none b d = refl
    or_before_or_before (some u) b d = refl

collect-nothing :
    (cs : List ChatResponseChunk)
    → collect cs nothing_collected
      ≡ record { collected_content = text_of cs; final_usage = newest_usage cs; yielded = cs }
collect-nothing cs =
    let s = collect cs nothing_collected in
    let text = content-collect cs nothing_collected in
    let all = yielded-collect cs nothing_collected in
    let newest : s.final_usage ≡ newest_usage cs =
      usage-collect cs nothing_collected ∙ or_before-none (newest_usage cs) in
    λ i. record { collected_content = text i; final_usage = newest i; yielded = all i }
  where
    or_before-none : (a : Option Usage) → or_before a none ≡ a
    or_before-none none = refl
    or_before-none (some u) = refl

module _ (fl : Float) (refuses : Event fl → Option Exc) (registry : ProviderRegistry fl)
    (trace_id : Str) (caller : Caller) where
  abbrev run : ChatRequest fl → Events fl → StreamRun fl refuses registry trace_id caller
  run = chat_stream fl refuses registry trace_id caller

  abbrev pub begun : LlmProvider fl → ChatRequest fl → Event fl
  begun p r =
      trace_started
        (start_of fl refuses registry trace_id caller (codes "chat_completion_stream") p r)

  abbrev pub usage_due : LlmProvider fl → ChatRequest fl → Usage
  usage_due p r = or_no_usage (newest_usage (p.chat_stream r).chunks)

  abbrev pub charge_due : LlmProvider fl → ChatRequest fl → Charge
  charge_due p r = charge_of fl refuses registry trace_id caller r (usage_due p r)

  abbrev pub logged : LlmProvider fl → ChatRequest fl → Event fl
  logged p r = generation_logged (
      generation_of fl refuses registry trace_id caller p r (text_of (p.chat_stream r).chunks)
        (usage_due p r) streamed)

  -- The end of the trace, behind some outcome and some events.
  pub data Closed (o : Result (Unit {0})) (log : Events fl)
      : Result (Unit {0}) × Events fl → Type 0 where
    ended : refuses trace_ended ≡ none → Closed o log (o, log ++ trace_ended ∷ [])
    not_ended : (y : Exc) → refuses trace_ended ≡ some y → Closed o log (err y, log)

  -- What comes of the body under the trace, for a stream that the provider begins.
  pub data Body (p : LlmProvider fl) (r : ChatRequest fl) (log : Events fl)
      : Result (Unit {0}) × Events fl → Type 0 where
    broken : (x : Exc) → (p.chat_stream r).failure ≡ some x → Body p r log (err x, log)
    not_charged :
        (x : Exc)
        → (p.chat_stream r).failure ≡ none
        → refuses (cost_recorded (charge_due p r)) ≡ some x
        → Body p r log (err x, log)
    charged_late :
        (x : Exc)
        → (p.chat_stream r).failure ≡ none
        → refuses (cost_recorded (charge_due p r)) ≡ none
        → refuses record_returned ≡ some x
        → Body p r log (err x, log ++ cost_recorded (charge_due p r) ∷ [])
    not_logged :
        (x : Exc)
        → (p.chat_stream r).failure ≡ none
        → refuses (cost_recorded (charge_due p r)) ≡ none
        → refuses record_returned ≡ none
        → refuses (logged p r) ≡ some x
        → Body p r log (err x, (log ++ cost_recorded (charge_due p r) ∷ []) ++ record_returned ∷ [])
    complete :
        (p.chat_stream r).failure ≡ none
        → refuses (cost_recorded (charge_due p r)) ≡ none
        → refuses record_returned ≡ none
        → refuses (logged p r) ≡ none
        → Body p r log (
          ok tt,
          ((log ++ cost_recorded (charge_due p r) ∷ []) ++ record_returned ∷ []) ++ logged p r ∷ [],
        )

  -- What a consumer that reads to the end sees, and what has happened.
  pub data Streamed (r : ChatRequest fl) (log : Events fl)
      : StreamRun fl refuses registry trace_id caller → Type 0 where
    unresolved :
        (x : Exc)
        → resolve fl registry r.model ≡ err x
        → Streamed r log (record { yielded = []; outcome = err x; events = log })
    not_begun :
        (p : LlmProvider fl) (x : Exc)
        → resolve fl registry r.model ≡ ok p
        → refuses (begun p r) ≡ some x
        → Streamed r log (record { yielded = []; outcome = err x; events = log })
    read :
        (p : LlmProvider fl) (body out : Result (Unit {0}) × Events fl)
        → resolve fl registry r.model ≡ ok p
        → refuses (begun p r) ≡ none
        → Body p r (log ++ begun p r ∷ []) body
        → Closed (body.0) (body.1) out
        → Streamed r log
            (record { yielded = (p.chat_stream r).chunks; outcome = out.0; events = out.1 })

  abbrev collected : LlmProvider fl → ChatRequest fl → Collected
  collected p r = record {
    collected_content = text_of (p.chat_stream r).chunks;
    final_usage = newest_usage (p.chat_stream r).chunks;
    yielded = (p.chat_stream r).chunks;
  }

  abbrev body_of : LlmProvider fl → ChatRequest fl → Events fl → Result (Unit {0}) × Events fl
  body_of p r log = stream_body fl refuses registry trace_id caller p r (collected p r) log

  stream_body-Body :
      (p : LlmProvider fl) (r : ChatRequest fl) (log : Events fl) → Body p r log (body_of p r log)
  unfolding stream_body stream_end
  stream_body-Body p r log = elim (Option-cases (p.chat_stream r).failure) [
    | inr (x, broke) ↦
        let eq : body_of p r log ≡ (err x, log) = ground arith in
        subst (Body p r log) (sym eq) (broken x broke)
    | inl well ↦
        let cost : Event fl = cost_recorded (charge_due p r) in
        elim (Option-cases (refuses cost)) [
          | inr (x, f) ↦
              let eq : body_of p r log ≡ (err x, log) = ground arith in
              subst (Body p r log) (sym eq) (not_charged x well f)
          | inl f ↦ elim (Option-cases (refuses record_returned)) [
            | inr (x, g) ↦
                let eq : body_of p r log ≡ (err x, log ++ cost ∷ []) = ground arith in
                subst (Body p r log) (sym eq) (charged_late x well f g)
            | inl g ↦ elim (Option-cases (refuses (logged p r))) [
              | inr (x, h) ↦
                  let eq : body_of p r log ≡ (err x, (log ++ cost ∷ []) ++ record_returned ∷ []) =
                    ground arith in
                  subst (Body p r log) (sym eq) (not_logged x well f g h)
              | inl h ↦
                  let eq : body_of p r log
                      ≡ (ok tt, ((log ++ cost ∷ []) ++ record_returned ∷ []) ++ logged p r ∷ []) =
                    ground arith in
                  subst (Body p r log) (sym eq) (complete well f g h)
            ]
          ]
        ]
  ]

  finally_end-Closed :
      (out : Result (Unit {0}) × Events fl) (o : Option Exc)
      → refuses trace_ended ≡ o
      → Closed (out.0) (out.1) (end_or fl refuses o out)
  finally_end-Closed (r, log) none e = ended e
  finally_end-Closed (r, log) (some y) e = not_ended y e

  -- What a consumer that reads to the end sees, whatever is refused: where no provider is found or the
  -- trace cannot begin, no chunk and the exception; else exactly the chunks of the provider. If the
  -- provider's stream breaks off, or the charge is refused, nobody is charged. Otherwise the service is
  -- charged, once and behind the last chunk, for the newest usage that a chunk carried, or for nothing
  -- if none did, and then the generation is logged with the text of the chunks in their order and with
  -- that usage; the charge stays where the way back from `record` or the logging raises. A trace that
  -- has begun is ended; if its end raises, the consumer gets that exception. What raises is taken to
  -- have had no effect of its own.
  pub chat_stream-Streamed : (r : ChatRequest fl) (log : Events fl) → Streamed r log (run r log)
  unfolding chat_stream stream_from run_stream
  chat_stream-Streamed r log = elim (Result-cases (resolve fl registry r.model)) [
    | inl (x, gone) ↦
        let eq : run r log ≡ record { yielded = []; outcome = err x; events = log } =
          ground arith in
        subst (Streamed r log) (sym eq) (unresolved x gone)
    | inr (p, found) ↦ elim (Option-cases (refuses (begun p r))) [
      | inr (x, e) ↦
          let eq : run r log ≡ record { yielded = []; outcome = err x; events = log } =
            ground arith in
          subst (Streamed r log) (sym eq) (not_begun p x found e)
      | inl e ↦
          let log' = log ++ begun p r ∷ [] in
          let out = finally_end fl refuses (body_of p r log') in
          let run_of : Collected → StreamRun fl refuses registry trace_id caller = λ s. record {
            yielded = s.yielded;
            outcome =
                (finally_end fl refuses
                  (stream_body fl refuses registry trace_id caller p r s log')).0;
            events =
                (finally_end fl refuses
                  (stream_body fl refuses registry trace_id caller p r s log')).1;
          } in
          let read_by : run r log ≡ run_of (collect (p.chat_stream r).chunks nothing_collected) =
            ground arith in
          let eq : run r log
              ≡ record { yielded = (p.chat_stream r).chunks; outcome = out.0; events = out.1 } =
            read_by ∙ ap run_of (collect-nothing (p.chat_stream r).chunks) in
          subst (Streamed r log) (sym eq) (
            read p (body_of p r log') out found e (stream_body-Body p r log')
              (finally_end-Closed (body_of p r log') (refuses trace_ended) refl))
    ]
  ]
