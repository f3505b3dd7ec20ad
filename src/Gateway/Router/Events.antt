-- ===== src/Gateway/Router/Events.antt =====
-- What a call of the router leaves behind.
use llmops_platform.Prelude.{
  ◌≡◌, refl, sym, ap, ◌∙◌, ◌⊎◌, some, none, inl, inr, Str, codes, Option, List, [], ◌∷◌, ◌++◌,
  arith, Result, ok, err, Exc, append-nil, subst, Option-cases, Result-cases,
}
use llmops_platform.Prelude.Float.{Float}
use llmops_platform.Gateway.Schemas.{ChatRequest, ChatResponse, content}
use llmops_platform.Gateway.Registry.{LlmProvider, ProviderRegistry, resolve}
use llmops_platform.Gateway.Router.{
  Event, trace_started, generation_logged, cost_recorded, record_returned, trace_ended, Events,
  Caller, Charge, chat, start_of, generation_of, finished, charge_of, traced, first_reason,
  chat_body, finally_end, end_or,
}

append_five :
    {A : Type 0} (xs : List A) (a b c d e : A)
    → ((((xs ++ a ∷ []) ++ b ∷ []) ++ c ∷ []) ++ d ∷ []) ++ e ∷ [] ≡ xs ++ a ∷ b ∷ c ∷ d ∷ e ∷ []
append_five [] a b c d e = refl
append_five (x ∷ xs) a b c d e = ap (λ ys. x ∷ ys) (append_five xs a b c d e)

module _ (fl : Float) (refuses : Event fl → Option Exc) (registry : ProviderRegistry fl)
    (trace_id : Str) (caller : Caller) where
  abbrev run : ChatRequest fl → Events fl → Result ChatResponse × Events fl
  run = chat fl refuses registry trace_id caller

  -- The events of a call that returns.
  abbrev pub events_of : LlmProvider fl → ChatRequest fl → ChatResponse → Events fl
  events_of p r response =
      trace_started (start_of fl refuses registry trace_id caller (codes "chat_completion") p r)
      ∷ generation_logged (
          generation_of fl refuses registry trace_id caller p r (content response) response.usage
            (finished (first_reason response.choices)))
      ∷ cost_recorded (charge_of fl refuses registry trace_id caller r response.usage)
      ∷ record_returned
      ∷ trace_ended
      ∷ []

  -- The charges among the events.
  abbrev pub charges : Events fl → List Charge
  charges [] = []
  charges (trace_started s ∷ es) = charges es
  charges (generation_logged g ∷ es) = charges es
  charges (cost_recorded c ∷ es) = c ∷ charges es
  charges (record_returned ∷ es) = charges es
  charges (trace_ended ∷ es) = charges es

  -- How a call ended.
  pub data Ended (r : ChatRequest fl) (log : Events fl)
      : Result ChatResponse × Events fl → Type 0 where
    returned :
        (p : LlmProvider fl) (response : ChatResponse)
        → resolve fl registry r.model ≡ ok p
        → p.chat r ≡ ok response
        → Ended r log (
          ok (traced fl refuses registry trace_id caller response),
          log ++ events_of p r response,
        )
    raised : (x : Exc) (log' : Events fl) → charges log' ≡ charges log → Ended r log (err x, log')
    -- behind the charge
    raised_late :
        (p : LlmProvider fl) (response : ChatResponse) (x : Exc) (log' : Events fl)
        → resolve fl registry r.model ≡ ok p
        → p.chat r ≡ ok response
        → (refuses record_returned ≡ some x) ⊎ (refuses trace_ended ≡ some x)
        → charges log'
          ≡ charges log ++ charge_of fl refuses registry trace_id caller r response.usage ∷ []
        → Ended r log (err x, log')

  pub charges-append : (xs ys : Events fl) → charges (xs ++ ys) ≡ charges xs ++ charges ys
  charges-append [] ys = refl
  charges-append (trace_started s ∷ xs) ys = charges-append xs ys
  charges-append (generation_logged g ∷ xs) ys = charges-append xs ys
  charges-append (cost_recorded c ∷ xs) ys =
      ap (λ (cs : List Charge). c ∷ cs) (charges-append xs ys)
  charges-append (record_returned ∷ xs) ys = charges-append xs ys
  charges-append (trace_ended ∷ xs) ys = charges-append xs ys

  -- Appending an event that is no charge.
  pub charges-quiet :
      (xs : Events fl) (e : Event fl) → charges (e ∷ []) ≡ [] → charges (xs ++ e ∷ []) ≡ charges xs
  charges-quiet xs e h = charges-append xs (e ∷ []) ∙ rw h (append-nil (charges xs))

  abbrev generation_event : LlmProvider fl → ChatRequest fl → ChatResponse → Event fl
  generation_event p r response = generation_logged (
      generation_of fl refuses registry trace_id caller p r (content response) response.usage
        (finished (first_reason response.choices)))

  abbrev charge_event : ChatRequest fl → ChatResponse → Event fl
  charge_event r response =
      cost_recorded (charge_of fl refuses registry trace_id caller r response.usage)

  -- How the body under the trace ended.
  data Body (p : LlmProvider fl) (r : ChatRequest fl) (log : Events fl)
      : Result ChatResponse × Events fl → Type 0 where
    done :
        (response : ChatResponse)
        → p.chat r ≡ ok response
        → Body p r log (
          ok (traced fl refuses registry trace_id caller response),
          ((log ++ generation_event p r response ∷ []) ++ charge_event r response ∷ [])
              ++ record_returned ∷ [],
        )
    quiet : (x : Exc) (log' : Events fl) → charges log' ≡ charges log → Body p r log (err x, log')
    late :
        (response : ChatResponse) (x : Exc) (log' : Events fl)
        → p.chat r ≡ ok response
        → refuses record_returned ≡ some x
        → charges log'
          ≡ charges log ++ charge_of fl refuses registry trace_id caller r response.usage ∷ []
        → Body p r log (err x, log')

  charged :
      (p : LlmProvider fl) (r : ChatRequest fl) (response : ChatResponse) (log : Events fl)
      → charges ((log ++ generation_event p r response ∷ []) ++ charge_event r response ∷ [])
        ≡ charges log ++ charge_of fl refuses registry trace_id caller r response.usage ∷ []
  charged p r response log =
      charges-append (log ++ generation_event p r response ∷ []) (charge_event r response ∷ [])
      ∙ ap (λ cs. cs ++ charge_of fl refuses registry trace_id caller r response.usage ∷ [])
          (charges-quiet log (generation_event p r response) refl)

  chat_body-Body :
      (p : LlmProvider fl) (r : ChatRequest fl) (log : Events fl)
      → Body p r log (chat_body fl refuses registry trace_id caller p r log)
  unfolding chat_body
  chat_body-Body p r log =
      let out = chat_body fl refuses registry trace_id caller p r log in
      elim (Result-cases (p.chat r)) [
        | inl (x, bad) ↦
            let eq : out ≡ (err x, log) = ground arith in
            subst (Body p r log) (sym eq) (quiet x log refl)
        | inr (response, good) ↦
            let gen = generation_event p r response in
            let cost = charge_event r response in
            elim (Option-cases (refuses gen)) [
              | inr (x, f) ↦
                  let eq : out ≡ (err x, log) = ground arith in
                  subst (Body p r log) (sym eq) (quiet x log refl)
              | inl f ↦ elim (Option-cases (refuses cost)) [
                | inr (x, g) ↦
                    let eq : out ≡ (err x, log ++ gen ∷ []) = ground arith in
                    subst (Body p r log) (sym eq)
                      (quiet x (log ++ gen ∷ []) (charges-quiet log gen refl))
                | inl g ↦ elim (Option-cases (refuses record_returned)) [
                  | inr (x, h) ↦
                      let log' = (log ++ gen ∷ []) ++ cost ∷ [] in
                      let eq : out ≡ (err x, log') = ground arith in
                      subst (Body p r log) (sym eq)
                        (late response x log' good h (charged p r response log))
                  | inl h ↦
                      let eq : out ≡ (
                        ok (traced fl refuses registry trace_id caller response),
                        ((log ++ gen ∷ []) ++ cost ∷ []) ++ record_returned ∷ [],
                      ) =
                        ground arith in
                      subst (Body p r log) (sym eq) (done response good)
                ]
              ]
            ]
      ]

  abbrev begun_event : LlmProvider fl → ChatRequest fl → Event fl
  begun_event p r =
      trace_started (start_of fl refuses registry trace_id caller (codes "chat_completion") p r)

  begun-quiet :
      (p : LlmProvider fl) (r : ChatRequest fl) (log : Events fl)
      → charges (log ++ begun_event p r ∷ []) ≡ charges log
  begun-quiet p r log = charges-quiet log (begun_event p r) refl

  finally-Ended :
      (r : ChatRequest fl) (log : Events fl) (p : LlmProvider fl) (o : Option Exc)
      (out : Result ChatResponse × Events fl)
      → resolve fl registry r.model ≡ ok p
      → refuses trace_ended ≡ o
      → Body p r (log ++ begun_event p r ∷ []) out
      → Ended r log (end_or fl refuses o out)
  finally-Ended r log p none _ found e (done response good) =
      let flat =
        append_five log (begun_event p r) (generation_event p r response) (charge_event r response)
          record_returned trace_ended in
      subst (λ l. Ended r log (ok (traced fl refuses registry trace_id caller response), l))
        (sym flat) (returned p response found good)
  finally-Ended r log p (some y) _ found e (done response good) =
      let cost = charge_of fl refuses registry trace_id caller r response.usage in
      let log' = log ++ begun_event p r ∷ [] in
      let log3 = (log' ++ generation_event p r response ∷ []) ++ charge_event r response ∷ [] in
      raised_late p response y (log3 ++ record_returned ∷ []) found good (inr e) (
        charges-quiet log3 record_returned refl
        ∙ charged p r response log'
        ∙ ap (λ cs. cs ++ cost ∷ []) (begun-quiet p r log))
  finally-Ended r log p none _ found e (quiet x l q) =
      raised x (l ++ trace_ended ∷ []) (charges-quiet l trace_ended refl ∙ q ∙ begun-quiet p r log)
  finally-Ended r log p (some y) _ found e (quiet x l q) = raised y l (q ∙ begun-quiet p r log)
  finally-Ended r log p none _ found e (late response x l good h q) =
      let cost = charge_of fl refuses registry trace_id caller r response.usage in
      raised_late p response x (l ++ trace_ended ∷ []) found good (inl h)
        (charges-quiet l trace_ended refl ∙ q ∙ ap (λ cs. cs ++ cost ∷ []) (begun-quiet p r log))
  finally-Ended r log p (some y) _ found e (late response x l good h q) =
      let cost = charge_of fl refuses registry trace_id caller r response.usage in
      raised_late p response y l found good (inr e)
        (q ∙ ap (λ cs. cs ++ cost ∷ []) (begun-quiet p r log))

  -- A call that returns has begun a trace, logged the provider's response with its usage, charged
  -- the calling service for the same tokens, and ended the trace, in this order, and it gives back
  -- that response under the id of the trace. A call that raises has charged nobody, unless it has the
  -- provider's response and raises behind the charge, on the way back from `record` or at the end of
  -- the trace: then the service is charged for that response, once, although its caller gets an error.
  -- What raises is taken to have had no effect of its own.
  pub run-Ended : (r : ChatRequest fl) (log : Events fl) → Ended r log (run r log)
  unfolding chat
  run-Ended r log = elim (Result-cases (resolve fl registry r.model)) [
    | inl (x, none_found) ↦
        let eq : run r log ≡ (err x, log) = ground arith in
        subst (Ended r log) (sym eq) (raised x log refl)
    | inr (p, found) ↦ elim (Option-cases (refuses (begun_event p r))) [
      | inr (x, e) ↦
          let eq : run r log ≡ (err x, log) = ground arith in
          subst (Ended r log) (sym eq) (raised x log refl)
      | inl e ↦
          let log' = log ++ begun_event p r ∷ [] in
          let body = chat_body fl refuses registry trace_id caller p r log' in
          let eq : run r log ≡ finally_end fl refuses body = ground arith in
          subst (Ended r log) (sym eq)
            (finally-Ended r log p (refuses trace_ended) body found refl (chat_body-Body p r log'))
    ]
  ]
