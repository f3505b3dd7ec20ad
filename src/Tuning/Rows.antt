-- ===== src/Tuning/Rows.antt =====
-- core/tuning/experiment.py: what the methods of `ExperimentRunner` take and give back, and the two
-- tables that they work on.
use llmops_platform.Prelude.{ℕ, Str, Option, List, nat_eq, string_eq}
use llmops_platform.Prelude.Dict.{Dict}
use llmops_platform.Prelude.Float.{Float}
use llmops_platform.Tuning.Base.{
  Json, status_value, strategy_value, ParameterRange, ParameterSet, VariantResult, ExperimentModel,
  ExperimentTrialModel,
}

-- The sources of chance: draw `n` of `random` and of `uuid4`.
pub record Chance (fl : Float) : Type 0 where
  pub index : ℕ → ℕ
  pub uniform : ℕ → fl.F → fl.F → fl.F
  pub variant_id : ℕ → Str

module _ (fl : Float) where
  open fl use {F}

  pub record TuningDb : Type 0 where
    pub experiments : List (ExperimentModel fl)
    pub trials : List (ExperimentTrialModel fl)

  -- What `_model_to_dict` returns.
  pub record ExperimentDict : Type 0 where
    pub id : ℕ
    pub name : Str
    pub description : Str
    pub status : Str
    pub allocation_strategy : Str
    pub parameter_space : List (ParameterRange fl)
    pub variants : List (ParameterSet fl)
    pub scoring_pipeline_id : Option Str
    pub traffic_percentage : F
    pub winner_variant_id : Option Str
    pub concluded_at : Option ℕ
    pub created_at : ℕ

  unfoldable pub model_to_dict : ExperimentModel fl → ExperimentDict
  model_to_dict m = record {
    id = m.id;
    name = m.name;
    description = m.description;
    status = status_value m.status;
    allocation_strategy = strategy_value m.allocation_strategy;
    parameter_space = m.parameter_space;
    variants = m.variants;
    scoring_pipeline_id = m.scoring_pipeline_id;
    traffic_percentage = m.traffic_percentage;
    winner_variant_id = m.winner_variant_id;
    concluded_at = m.concluded_at;
    created_at = m.created_at;
  }

  pub record ExperimentResults : Type 0 where
    pub experiment : ExperimentDict
    pub results : List (VariantResult fl)
    pub total_trials : ℕ

  pub record TrialDict : Type 0 where
    pub id : ℕ
    pub experiment_id : ℕ
    pub variant_id : Str
    pub trace_id : Str
    pub score : Option F

  -- The arguments of `record_trial`.
  pub record TrialArgs : Type 0 where
    pub variant_id : Str
    pub trace_id : Str
    pub parameters : Dict Str (Json F)
    pub input_text : Str
    pub output_text : Str
    pub score : Option F
