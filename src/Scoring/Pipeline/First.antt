-- ===== src/Scoring/Pipeline/First.antt =====
-- Which strategy a pipeline is refused for: the first that is not registered.
use llmops_platform.Prelude.{
  ◌≡◌, Option, none, some, List, [], ◌∷◌, arith, string_eq, Result, ok, err, Exc, Option-cases,
  Result-cases, inl, inr,
}
use llmops_platform.Prelude.Dict.{lookup}
use llmops_platform.Prelude.Float.{Float}
use llmops_platform.Scoring.Base.{
  Sample, PipelineResult, ScorerConfig, ScorerRegistry, get_scorer, list_scorers,
}
use llmops_platform.Scoring.Pipeline.{
  sum_weights, build, new_pipeline, run_pipeline, successes, weighted_from, run_pipeline-cases,
}

module _ (fl : Float) {C : Type 0} (registry : ScorerRegistry fl C) where
  open fl use {F, round, of_ℕ}

  abbrev pub first_unknown : List (ScorerConfig fl C) → Option Exc
  first_unknown [] = none
  first_unknown (c ∷ cs) = elim (lookup c.strategy registry) [
    | none ↦ some (Exc.unknown_strategy c.strategy (list_scorers fl registry))
    | some scorer ↦ first_unknown cs
  ]

  -- What a pipeline gives, written without its intermediate lists.
  abbrev pub outcome : Option Exc → List (ScorerConfig fl C) → Sample → Result (PipelineResult fl)
  outcome (some e) cs sample = err e
  outcome none cs sample = ok (record {
    individual_scores = successes fl registry sample cs;
    aggregate_score =
        round (weighted_from fl registry sample (sum_weights fl registry (of_ℕ 0) cs) (of_ℕ 0) cs)
          4;
  })

  build-unknown :
      (w : F) (cs : List (ScorerConfig fl C)) (e : Exc)
      → first_unknown cs ≡ some e
      → build fl registry w cs ≡ err e
  unfolding build get_scorer
  build-unknown w [] e h = absurd (cc)
  build-unknown w (c ∷ cs) e h = elim (Option-cases (lookup c.strategy registry)) [
    | inl missing ↦ ground arith
    | inr (scorer, found) ↦ ground (arith, build-unknown w cs e)
  ]

  build-err :
      (w : F) (cs : List (ScorerConfig fl C)) (e : Exc)
      → build fl registry w cs ≡ err e
      → first_unknown cs ≡ some e
  unfolding build get_scorer
  build-err w [] e h = absurd (cc)
  build-err w (c ∷ cs) e h = elim (Option-cases (lookup c.strategy registry)) [
    | inl missing ↦ ground arith
    | inr (scorer, found) ↦ ground (arith, build-err w cs e)
  ]

  pub run_pipeline-outcome :
      (cs : List (ScorerConfig fl C)) (sample : Sample)
      → run_pipeline fl registry cs sample ≡ outcome (first_unknown cs) cs sample
  unfolding run_pipeline new_pipeline
  run_pipeline-outcome cs sample =
      let w = sum_weights fl registry (of_ℕ 0) cs in
      elim (Option-cases (first_unknown cs)) [
        | inr (e, first) ↦ ground (arith, build-unknown w cs e first)
        | inl all_known ↦ elim (run_pipeline-cases fl registry cs sample) [
          | inr good ↦ rw all_known good
          | inl (e, refused, unknown) ↦ elim (Result-cases (build fl registry w cs)) [
            | inl (x, bad) ↦ absurd (ground (arith, build-err w cs x bad))
            | inr (ss, built) ↦ absurd (ground arith)
          ]
        ]
      ]
