-- ===== src/Gateway/Langfuse/Totals.antt =====
-- What a report adds up.
use llmops_platform.Prelude.{
  ℕ, ◌+◌, ◌≡◌, refl, sym, ap, subst, ◌∙◌, ◌⊎◌, inl, inr, Str, true, false, Option, none, some, List,
  [], ◌∷◌, ◌==◌, string_eq, eq_iff, if◌then◌else◌, is_empty, arith, filter, length, sum_by,
  Bool-cases, Option-cases, Result-cases, Result, ok, All,
}
use llmops_platform.Prelude.Dict.{Dict, lookup, insert, lookup-insert}
use llmops_platform.Prelude.Float.{Float}
use llmops_platform.Observability.{Value, text, scalar, nested, value_Eq}
use llmops_platform.Gateway.Langfuse.{
  Observation, ModelData, ServiceData, no_data, no_model_data, Services, service_of, model_of,
  cost_of, input_of, output_of, data_at, model_at, add_model, add_observation, asks_for, add_to,
  collect, Summary, summary_of, summaries, Report, of_service, of_nothing, of_services, report_of,
  report, aggregate,
}

module _ (fl : Float) where
  open fl use {F, add, round, of_ℕ}

  -- The observations of one service.
  abbrev pub observed : Value → List (Observation fl) → List (Observation fl)
  observed svc os = filter (λ o. svc == service_of fl o) os

  abbrev pub costs_from : F → List (Observation fl) → F
  costs_from c [] = c
  costs_from c (o ∷ os) = costs_from (add c (cost_of fl o)) os

  -- The data of a service after further observations of it.
  abbrev onto : Option (ServiceData fl) → List (Observation fl) → Option (ServiceData fl)
  onto d [] = d
  onto d (o ∷ os) = onto (some (add_observation fl o (data_at fl d))) os

  -- A service name that is no list or object.
  abbrev pub IsHashable : Observation fl → Type 0
  IsHashable o = (s : Str) × ((service_of fl o ≡ text s) ⊎ (service_of fl o ≡ scalar s))

  add_to-ok :
      (o : Observation fl) (services : Services fl)
      → IsHashable o
      → add_to fl (service_of fl o) o services
        ≡ ok (
            insert
              (service_of fl o)
              (add_observation fl o (data_at fl (lookup (service_of fl o) services)))
              services)
  unfolding add_to
  add_to-ok o services (s, inl e) = rw e refl
  add_to-ok o services (s, inr e) = rw e refl

  add_to-lookup :
      (svc v : Value) (o : Observation fl) (d d' : Services fl)
      → add_to fl v o d ≡ ok d'
      → lookup svc d' ≡ (
          if svc == v
          then some (add_observation fl o (data_at fl (lookup svc d)))
          else lookup svc d)
  unfolding add_to
  add_to-lookup svc nested o d d' h = absurd (cc)
  add_to-lookup svc (text s) o d d' h = ground (
    arith,
    lookup-insert (text s) svc (add_observation fl o (data_at fl (lookup (text s) d))) d,
    eq_iff svc (text s),
  )
  add_to-lookup svc (scalar s) o d d' h = ground (
    arith,
    lookup-insert (scalar s) svc (add_observation fl o (data_at fl (lookup (scalar s) d))) d,
    eq_iff svc (scalar s),
  )

  collect-lookup :
      (name : Option Str) (svc : Value) (os : List (Observation fl)) (d d' : Services fl)
      → asks_for fl name svc ≡ true
      → collect fl name os d ≡ ok d'
      → lookup svc d' ≡ onto (lookup svc d) (observed svc os)
  unfolding collect
  collect-lookup name svc [] d d' asked h = ground arith
  collect-lookup name svc (o ∷ os) d d' asked h =
      elim (Bool-cases (asks_for fl name (service_of fl o))) [
        | inr e ↦
            let other : (svc == service_of fl o) ≡ false =
              ground (arith, eq_iff svc (service_of fl o)) in
            rw other (collect-lookup name svc os d d' asked (ground arith))
        | inl e ↦ elim (Result-cases (add_to fl (service_of fl o) o d)) [
          | inl (x, bad) ↦ absurd (ground arith)
          | inr (d1, good) ↦
              collect-lookup name svc os d1 d' asked (ground arith)
              ∙ ap (λ x. onto x (observed svc os)) (add_to-lookup svc (service_of fl o) o d d1 good)
              ∙ elim (Bool-cases (svc == service_of fl o)) [ inl e ↦ rw e | inr e ↦ rw e ]
        ]
      ]

  collect-ok :
      (name : Option Str) (os : List (Observation fl)) (d : Services fl)
      → All (λ o. asks_for fl name (service_of fl o) ≡ true → IsHashable o) os
      → (d' : Services fl) × (collect fl name os d ≡ ok d')
  unfolding collect
  collect-ok name [] d h = (d, refl)
  collect-ok name (o ∷ os) d h = elim (Bool-cases (asks_for fl name (service_of fl o))) [
    | inl e ↦
        let d1 =
          insert (service_of fl o) (add_observation fl o (data_at fl (lookup (service_of fl o) d)))
            d in
        let good = add_to-ok o d (h.0 e) in
        let (d', rest) = collect-ok name os d1 h.1 in (d', ground arith)
    | inr e ↦ let (d', rest) = collect-ok name os d h.1 in (d', ground arith)
  ]

  lookup-summaries :
      (svc : Value) (d : Services fl)
      → lookup svc (summaries fl d)
        ≡ elim (lookup svc d) [ none ↦ none | some x ↦ some (summary_of fl svc x) ]
  unfolding summaries lookup
  lookup-summaries svc [] = refl
  lookup-summaries svc ((v, x) ∷ d) = ground (arith, lookup-summaries svc d, eq_iff svc v)

  asks_self : (name : Str) → asks_for fl (some name) (text name) ≡ true
  asks_self name = ground (arith, eq_iff (text name) (text name))

  asked-IsHashable :
      (name : Str)
      → is_empty name ≡ false
      → (os : List (Observation fl))
      → All (λ o. asks_for fl (some name) (service_of fl o) ≡ true → IsHashable o) os
  asked-IsHashable name full [] = tt
  asked-IsHashable name full (o ∷ os) = (
    λ h. (name, inl (ground (arith, eq_iff (service_of fl o) (text name)))),
    asked-IsHashable name full os,
  )

  abbrev report_from : Str → Option (ServiceData fl) → Report fl
  report_from name d = report_of fl name d

  aggregate-onto :
      (name : Str) (os : List (Observation fl))
      → is_empty name ≡ false
      → aggregate fl os (some name) ≡ ok (report_from name (onto none (observed (text name) os)))
  unfolding aggregate report lookup
  aggregate-onto name os full =
      let (d, good) = collect-ok (some name) os [] (asked-IsHashable name full os) in
      let found = collect-lookup (some name) (text name) os [] d (asks_self name) good in
      ground arith

  all-asked :
      (os : List (Observation fl))
      → All IsHashable os
      → All (λ o. asks_for fl none (service_of fl o) ≡ true → IsHashable o) os
  all-asked [] h = tt
  all-asked (o ∷ os) h = (λ _. h.0, all-asked os h.1)

  -- Where no service name is a list or an object, the report of all services holds for every name
  -- exactly what the report for that name alone gives; a name that the one does not list has zeros
  -- in the other.
  pub aggregate-agrees :
      (os : List (Observation fl))
      → All IsHashable os
      → (services : Dict Value (Summary fl)) × (aggregate fl os none ≡ ok (of_services services))
        × ((name : Str)
            → is_empty name ≡ false
            → aggregate fl os (some name)
              ≡ ok (elim (lookup (text name) services) [
                | none ↦ of_nothing name
                | some s ↦ of_service s
              ]))
  unfolding aggregate report lookup
  aggregate-agrees os hashable =
      let (d, good) = collect-ok none os [] (all-asked os hashable) in
      (
        summaries fl d,
        rw good refl,
        λ name full.
            let found = collect-lookup none (text name) os [] d refl good in
            aggregate-onto name os full
            ∙ ap (λ x. ok (report_from name x)) (sym found)
            ∙ elim (Option-cases (lookup (text name) d)) [
              | inl e ↦ ground (arith, lookup-summaries (text name) d)
              | inr (x, e) ↦ ground (arith, lookup-summaries (text name) d)
            ],
      )

  abbrev add_all : List (Observation fl) → ServiceData fl → ServiceData fl
  add_all [] d = d
  add_all (o ∷ os) d = add_all os (add_observation fl o d)

  onto-some :
      (os : List (Observation fl)) (d : ServiceData fl) → onto (some d) os ≡ some (add_all os d)
  onto-some [] d = refl
  onto-some (o ∷ os) d = onto-some os (add_observation fl o d)

  add_all-totals :
      (os : List (Observation fl)) (d : ServiceData fl)
      → add_all os d ≡ record {
        total_cost = costs_from d.total_cost os;
        total_input_tokens = d.total_input_tokens + sum_by (input_of fl) os;
        total_output_tokens = d.total_output_tokens + sum_by (output_of fl) os;
        total_requests = d.total_requests + length os;
        models = (add_all os d).models;
      }
  unfolding add_observation
  add_all-totals [] d = ground arith
  add_all-totals (o ∷ os) d = add_all-totals os (add_observation fl o d) ∙ ground arith

  -- A figure of the models, added up.
  abbrev pub over_models : (ModelData fl → ℕ) → Dict Str (ModelData fl) → ℕ
  over_models f models = sum_by (λ (e : Str × ModelData fl). f (e.1)) models

  over_models-insert :
      (f : ModelData fl → ℕ) (n : ℕ) (o : Observation fl) (m : Str) (d : Dict Str (ModelData fl))
      → ((x : ModelData fl) → f (add_model fl o x) ≡ f x + n)
      → f (no_model_data fl) ≡ 0
      → over_models f (insert m (add_model fl o (model_at fl (lookup m d))) d) ≡ over_models f d + n
  unfolding lookup insert
  over_models-insert f n o m [] step start = ground (arith, step (no_model_data fl))
  over_models-insert f n o m ((k, x) ∷ d) step start =
      ground (arith, over_models-insert f n o m d step start, step x)

  over_models-add_all :
      (f : ModelData fl → ℕ) (g : Observation fl → ℕ) (os : List (Observation fl))
      (d : ServiceData fl)
      → ((o : Observation fl) (x : ModelData fl) → f (add_model fl o x) ≡ f x + g o)
      → f (no_model_data fl) ≡ 0
      → over_models f (add_all os d).models ≡ over_models f d.models + sum_by g os
  unfolding add_observation
  over_models-add_all f g [] d step start = omega arith
  over_models-add_all f g (o ∷ os) d step start = omega (
    arith,
    over_models-add_all f g os (add_observation fl o d) step start,
    over_models-insert f (g o) o (model_of fl o) d.models (step o) start,
  )

  sum-ones : (os : List (Observation fl)) → sum_by (λ _. 1) os ≡ length os
  sum-ones [] = refl
  sum-ones (o ∷ os) = omega (arith, sum-ones os)

  abbrev summary_from : Value → List (Observation fl) → Dict Str (ModelData fl) → Summary fl
  summary_from svc mine models = record {
    service = svc;
    total_cost = round (costs_from (of_ℕ 0) mine) 8;
    total_input_tokens = sum_by (input_of fl) mine;
    total_output_tokens = sum_by (output_of fl) mine;
    total_requests = length mine;
    models = models;
  }

  -- What a report says of the observations of a service.
  abbrev pub Reports : Str → List (Observation fl) → Result (Report fl) → Type 0
  Reports name mine r =
      ((mine ≡ []) × (r ≡ ok (of_nothing name)))
      ⊎ ((models : Dict Str (ModelData fl)) × (r
            ≡ ok (of_service (summary_from (text name) mine models)))
          × (over_models (λ x. x.requests) models ≡ length mine)
          × (over_models (λ x. x.input_tokens) models ≡ sum_by (input_of fl) mine)
          × (over_models (λ x. x.output_tokens) models ≡ sum_by (output_of fl) mine))

  summary_of-add_all :
      (svc : Value) (mine : List (Observation fl))
      → summary_of fl svc (add_all mine (no_data fl))
        ≡ summary_from svc mine (add_all mine (no_data fl)).models
  summary_of-add_all svc mine =
      ap (summary_of fl svc) (add_all-totals mine (no_data fl)) ∙ ground arith

  report_from-Reports :
      (name : Str) (mine : List (Observation fl))
      → Reports name mine (ok (report_from name (onto none mine)))
  unfolding add_observation
  report_from-Reports name [] = inl (refl, refl)
  report_from-Reports name (o ∷ mine) =
      let d = no_data fl in
      let all = add_all (o ∷ mine) d in
      inr (
        all.models,
        ap (λ x. ok (report_from name x)) (onto-some mine (add_observation fl o d))
            ∙ ap (λ x. ok (of_service x)) (summary_of-add_all (text name) (o ∷ mine)),
        omega (
          arith,
          over_models-add_all (λ x. x.requests) (λ _. 1) (o ∷ mine) d (λ o x. refl) refl,
          sum-ones (o ∷ mine),
        ),
        omega (
          arith,
          over_models-add_all (λ x. x.input_tokens) (input_of fl) (o ∷ mine) d (λ o x. refl) refl,
        ),
        omega (
          arith,
          over_models-add_all (λ x. x.output_tokens) (output_of fl) (o ∷ mine) d (λ o x. refl) refl,
        ),
      )

  -- The report for a service whose name is not empty: zeros without models if no observation bears
  -- the name; otherwise the number of those that do, the sums of their tokens, and the sum of their
  -- costs in their order, rounded to eight digits. The requests and the tokens of its models sum up
  -- to those of the service.
  pub aggregate-totals :
      (name : Str) (os : List (Observation fl))
      → is_empty name ≡ false
      → Reports name (observed (text name) os) (aggregate fl os (some name))
  aggregate-totals name os full =
      subst (Reports name (observed (text name) os)) (sym (aggregate-onto name os full))
        (report_from-Reports name (observed (text name) os))

  pub aggregate-none :
      (name : Str) (os : List (Observation fl))
      → is_empty name ≡ false
      → observed (text name) os ≡ []
      → aggregate fl os (some name) ≡ ok (of_nothing name)
  aggregate-none name os full e =
      aggregate-onto name os full ∙ ap (λ mine. ok (report_from name (onto none mine))) e
