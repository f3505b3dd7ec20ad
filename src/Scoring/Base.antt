-- ===== src/Scoring/Base.antt =====
-- core/scoring/base.py and registry.py. The metadata and the data type of a
-- result, which no part of the engine reads, are left out.
use llmops_platform.Prelude.{
  Str, codes, Option, none, some, List, map, string_eq, Result, ok, err, Exc,
}
use llmops_platform.Prelude.Dict.{Dict, lookup, insert}
use llmops_platform.Prelude.Float.{Float}

-- What a scorer is given: the arguments of `Scorer.score` but for the configuration.
pub record Sample : Type 0 where
  pub input_text : Str
  pub output_text : Str
  pub reference : Option Str

module _ (fl : Float) where
  open fl use {F}

  -- `ScoreResult`
  pub record ScoreResult : Type 0 where
    pub name : Str
    pub value : F
    pub comment : Option Str

  -- `PipelineResult`
  pub record PipelineResult : Type 0 where
    pub individual_scores : List ScoreResult
    pub aggregate_score : F

  -- `ScorerConfig`; `C` are the configurations of scorers.
  pub record ScorerConfig (C : Type 0) : Type 0 where
    pub strategy : Str
    pub weight : F
    pub config : C

  -- An instance of a scorer class, as its method `score`.
  abbrev pub Scorer : Type 0 → Type 0
  Scorer C = Sample → C → Result ScoreResult

  abbrev pub ScorerRegistry : Type 0 → Type 0
  ScorerRegistry C = Dict Str (Scorer C)

  -- `register_scorer`
  unfoldable pub register_scorer :
      {C : Type 0} → Str → Scorer C → ScorerRegistry C → ScorerRegistry C
  register_scorer name scorer registry = insert name scorer registry

  -- `list_scorers`
  unfoldable pub list_scorers : {C : Type 0} → ScorerRegistry C → List Str
  list_scorers registry = map (λ e. e.0) registry

  -- `get_scorer`
  unfoldable pub get_scorer : {C : Type 0} → Str → ScorerRegistry C → Result (Scorer C)
  unfolding list_scorers
  get_scorer name registry = elim (lookup name registry) [
    | none ↦ err (Exc.unknown_strategy name (list_scorers registry))
    | some scorer ↦ ok scorer
  ]

  -- `_register_defaults`
  unfoldable pub register_defaults :
      {C : Type 0} → Scorer C → Scorer C → Scorer C → Scorer C → ScorerRegistry C → ScorerRegistry C
  unfolding register_scorer
  register_defaults rule_based llm_judge embedding composite registry =
      register_scorer (codes "composite") composite (
        register_scorer (codes "embedding") embedding (
          register_scorer (codes "llm_judge") llm_judge
            (register_scorer (codes "rule_based") rule_based registry)))
