-- ===== src/Tuning/Base.antt =====
-- core/tuning/base.py: the types of an experiment, and the table rows of
-- db/models/experiment.py. JSON values that the code only passes on are `Json`.
use llmops_platform.Prelude.{
  ℕ, Str, codes, Option, List, ◌==◌, string_eq, if◌then◌else◌, Result, ok, err, Exc,
}
use llmops_platform.Prelude.Dict.{Dict}
use llmops_platform.Prelude.Float.{Float}

-- `class ExperimentStatus`
pub data ExperimentStatus : Type 0 where
  draft running completed cancelled : ExperimentStatus

-- `class AllocationStrategy`
pub data AllocationStrategy : Type 0 where
  ab_test grid random : AllocationStrategy

-- The values of the enumerations.
unfoldable pub status_value : ExperimentStatus → Str
status_value ExperimentStatus.draft = codes "draft"
status_value ExperimentStatus.running = codes "running"
status_value ExperimentStatus.completed = codes "completed"
status_value ExperimentStatus.cancelled = codes "cancelled"

unfoldable pub strategy_value : AllocationStrategy → Str
strategy_value AllocationStrategy.ab_test = codes "ab_test"
strategy_value AllocationStrategy.grid = codes "grid"
strategy_value AllocationStrategy.random = codes "random"

-- `AllocationStrategy(text)`, which raises a `ValueError` for any other text.
unfoldable pub allocation_strategy_of : Str → Result AllocationStrategy
allocation_strategy_of s =
    if s == codes "ab_test"
    then ok AllocationStrategy.ab_test
    else if s == codes "grid"
    then ok AllocationStrategy.grid
    else if s == codes "random"
    then ok AllocationStrategy.random
    else err (Exc.bad_enum s)

-- A value of type `Any`: a number, a text, or one that is only passed on.
pub data Json (F : Type 0) : Type 0 where
  num : F → Json F
  text : Str → Json F
  opaque : ℕ → Json F

-- `type` of a `ParameterRange`; `unknown` is any other text than the three that are compared.
pub data RangeType : Type 0 where
  continuous discrete categorical unknown : RangeType

module _ (fl : Float) where
  open fl use {F}

  pub record ParameterRange : Type 0 where
    pub name : Str
    pub type : RangeType
    pub min_value : Option F
    pub max_value : Option F
    pub values : Option (List (Json F))
    pub step : Option F

  pub record ParameterSet : Type 0 where
    pub variant_id : Str
    pub values : Dict Str (Json F)

  pub record ExperimentConfig : Type 0 where
    pub name : Str
    pub description : Str
    pub parameter_space : List ParameterRange
    pub scoring_pipeline_id : Option Str
    pub allocation_strategy : AllocationStrategy
    pub traffic_percentage : F
    pub variants : List ParameterSet

  pub record VariantResult : Type 0 where
    pub variant_id : Str
    pub parameters : Dict Str (Json F)
    pub sample_count : ℕ
    pub avg_score : F
    pub min_score : F
    pub max_score : F
    pub scores : List F

  -- A row of `experiments`.
  pub record ExperimentModel : Type 0 where
    pub id : ℕ
    pub name : Str
    pub description : Str
    pub status : ExperimentStatus
    pub allocation_strategy : AllocationStrategy
    pub parameter_space : List ParameterRange
    pub variants : List ParameterSet
    pub scoring_pipeline_id : Option Str
    pub traffic_percentage : F
    pub winner_variant_id : Option Str
    pub concluded_at : Option ℕ
    pub created_at : ℕ

  -- A row of `experiment_trials`.
  pub record ExperimentTrialModel : Type 0 where
    pub id : ℕ
    pub experiment_id : ℕ
    pub variant_id : Str
    pub trace_id : Str
    pub parameters : Dict Str (Json F)
    pub input_text : Str
    pub output_text : Str
    pub score : Option F
