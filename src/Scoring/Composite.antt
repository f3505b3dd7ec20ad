-- ===== src/Scoring/Composite.antt =====
-- core/scoring/strategies/composite.py: `CompositeScorer`. A configuration is a JSON object: `B` holds
-- what the other scorers read of it, beside its list `scorers`, which is empty where it is missing. A
-- composite runs its pipeline with the registry that it is registered in itself; this is a recursion
-- on the configuration.
pub mod Nesting
use llmops_platform.Prelude.{
  ℕ, ◌+◌, Str, codes, Bool, true, false, Option, none, some, List, [], ◌∷◌, ◌++◌, ◌==◌, string_eq,
  if◌then◌else◌, length, map, Result, ok, err, Exc, ◌>>=◌,
}
use llmops_platform.Prelude.Dict.{insert}
use llmops_platform.Prelude.Float.{Float}
use llmops_platform.Scoring.Base.{
  Sample, ScoreResult, PipelineResult, ScorerConfig, Scorer, ScorerRegistry, register_scorer,
}
use llmops_platform.Scoring.Pipeline.{run_pipeline}

module _ (fl : Float) (B : Type 0) where
  open fl use {F, of_ℕ}

  mutual
    pub data Config : Type 0 where
      config : (rest : B) → (scorers : SubScorers) → Config

    -- The elements of `scorers`: strategy, weight and configuration.
    pub data SubScorers : Type 0 where
      nil : SubScorers
      cons : (strategy : Str) → (weight : F) → (config : Config) → SubScorers → SubScorers

  abbrev pub scorer_configs : SubScorers → List (ScorerConfig fl Config)
  scorer_configs nil = []
  scorer_configs (cons s w c rest) =
      record { strategy = s; weight = w; config = c } ∷ scorer_configs rest

  module _ (show : ℕ → Str) where
    abbrev pub composite_result : ℕ → PipelineResult fl → ScoreResult fl
    composite_result n r = record {
      name = codes "composite";
      value = r.aggregate_score;
      comment = some (codes "Composite of " ++ show n ++ codes " scorers");
    }

    abbrev pub no_scorers : ScoreResult fl
    no_scorers = record {
      name = codes "composite";
      value = of_ℕ 0;
      comment = some (codes "No sub-scorers configured in composite");
    }

    abbrev pub of_run : ℕ → Result (PipelineResult fl) → Result (ScoreResult fl)
    of_run n r = r >>= λ p. ok (composite_result n p)

    module _ (others : ScorerRegistry fl Config) where
      -- A configuration with what the composite scorer makes of it.
      abbrev pub Prepared : Type 0
      Prepared = Config × (Sample → Result (ScoreResult fl))

      -- The registry with the composite scorer, on prepared configurations.
      abbrev pub on_prepared : ScorerRegistry fl Prepared
      on_prepared =
          insert (codes "composite") (λ sample c. c.1 sample)
            (map (λ (e : Str × Scorer fl Config). (e.0, λ sample c. e.1 sample c.0)) others)

      abbrev pub run_prepared : List (ScorerConfig fl Prepared) → Sample → Result (ScoreResult fl)
      run_prepared [] sample = ok no_scorers
      run_prepared (c ∷ cs) sample =
          of_run (length (c ∷ cs)) (run_pipeline fl on_prepared (c ∷ cs) sample)

      unfoldable mutual
        -- `CompositeScorer.score`
        pub composite : Config → Sample → Result (ScoreResult fl)
        composite (config rest scorers) sample = run_prepared (prepared scorers) sample

        pub prepared : SubScorers → List (ScorerConfig fl Prepared)
        prepared nil = []
        prepared (cons s w c rest) =
            record { strategy = s; weight = w; config = (c, λ sample. composite c sample) }
            ∷ prepared rest

      -- The registry that `_register_defaults` leaves, with the composite scorer in it.
      unfoldable pub registry : ScorerRegistry fl Config
      unfolding composite
      registry = register_scorer fl (codes "composite") (λ sample c. composite c sample) others
