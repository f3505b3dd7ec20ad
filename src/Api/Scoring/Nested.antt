-- ===== src/Api/Scoring/Nested.antt =====
-- A pipeline with a composite scorer whose own scorers are not all registered.
use llmops_platform.Prelude.{
  ℕ, ◌≡◌, refl, ap, ◌∙◌, Str, codes, true, none, some, List, ◌∷◌, string_eq, arith, contains,
  In-contains, In-map, ok, err, Exc,
}
use llmops_platform.Prelude.Dict.{lookup, lookup-insert_self, lookup-In}
use llmops_platform.Prelude.Float.{Float}
use llmops_platform.Scoring.Base.{
  Sample, ScorerConfig, Scorer, ScorerRegistry, register_scorer, list_scorers,
}
use llmops_platform.Scoring.Pipeline.{
  run_pipeline, result_of, successes, weighted_from, sum_weights,
}
use llmops_platform.Scoring.Pipeline.First.{first_unknown, outcome, run_pipeline-outcome}
use llmops_platform.Scoring.Composite.{
  Config, config, SubScorers, nil, cons, scorer_configs, composite, registry,
}
use llmops_platform.Scoring.Composite.Nesting.{composite-nested_run}
use llmops_platform.Api.Scoring.{validate, validate_one}

module _ (fl : Float) (B : Type 0) (show : ℕ → Str) (others : ScorerRegistry fl (Config fl B)) where
  open fl use {F, of_ℕ, round}

  abbrev reg : ScorerRegistry fl (Config fl B)
  reg = registry fl B show others

  abbrev run_composite : Scorer fl (Config fl B)
  run_composite sample c = composite fl B show others c sample

  lookup-composite : lookup (codes "composite") reg ≡ some run_composite
  unfolding registry register_scorer
  lookup-composite = lookup-insert_self (codes "composite") run_composite others

  -- A configuration of a composite scorer.
  abbrev pub nesting : F → B → SubScorers fl B → ScorerConfig fl (Config fl B)
  nesting w rest subs = record {
    strategy = codes "composite";
    weight = w;
    config = config rest subs;
  }

  nested_unknown :
      (rest : B) (subs : SubScorers fl B) (e : Exc) (sample : Sample)
      → first_unknown fl reg (scorer_configs fl B subs) ≡ some e
      → composite fl B show others (config rest subs) sample ≡ err e
  nested_unknown rest nil e sample h = absurd (cc)
  nested_unknown rest (cons s w c subs) e sample h =
      let cs = scorer_configs fl B (cons s w c subs) in
      let refused : run_pipeline fl reg cs sample ≡ err e =
        run_pipeline-outcome fl reg cs sample ∙ ap (λ o. outcome fl reg o cs sample) h in
      composite-nested_run fl B show others rest (cons s w c subs) sample ∙ ground arith

  composite-listed : contains (list_scorers fl reg) (codes "composite") ≡ true
  unfolding list_scorers
  composite-listed = In-contains (list_scorers fl reg) (codes "composite") (
      In-map (λ (e : Str × Scorer fl (Config fl B)). e.0) (codes "composite", run_composite) reg
        (lookup-In (codes "composite") reg run_composite lookup-composite))

  -- The check of `create_pipeline` does not look into composite scorers: one with a strategy that is
  -- not registered, at the top of its own scorers, is accepted. When the pipeline is run, the
  -- composite is left out without an error: of the scorers behind it the pipeline gives the same
  -- results as without it, but the weight of the composite still takes its share of the total.
  pub nested_unknown_lost :
      (w : F) (rest : B) (subs : SubScorers fl B) (e : Exc)
      (cs : List (ScorerConfig fl (Config fl B))) (sample : Sample)
      → first_unknown fl reg (scorer_configs fl B subs) ≡ some e
      → first_unknown fl reg cs ≡ none
      → (validate fl reg (nesting w rest subs ∷ cs) ≡ validate fl reg cs)
        × (run_pipeline fl reg (nesting w rest subs ∷ cs) sample
            ≡ ok (record {
              individual_scores = successes fl reg sample cs;
              aggregate_score =
                  round
                    (weighted_from fl reg sample
                      (sum_weights fl reg (of_ℕ 0) (nesting w rest subs ∷ cs))
                      (of_ℕ 0)
                      cs)
                    4;
            }))
  unfolding validate validate_one
  nested_unknown_lost w rest subs e cs sample unknown known =
      let bad = nested_unknown rest subs e sample unknown in
      let lost : result_of fl reg sample (nesting w rest subs) ≡ none =
        ground (arith, lookup-composite) in
      let first : first_unknown fl reg (nesting w rest subs ∷ cs) ≡ none =
        ground (arith, lookup-composite) in
      (
        rw composite-listed refl,
        run_pipeline-outcome fl reg (nesting w rest subs ∷ cs) sample
            ∙ ap (λ o. outcome fl reg o (nesting w rest subs ∷ cs) sample) first
            ∙ ground arith,
      )
