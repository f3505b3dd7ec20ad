-- ===== src/Api/Tuning.antt =====
-- api/v1/tuning.py with the requests and responses of api/schemas/tuning.py: the endpoints of the
-- experiment runner. The results leave out the single scores.
pub mod Errors
use llmops_platform.Prelude.{ℕ, Str, Option, List, map, Result, ok, err}
use llmops_platform.Prelude.Dict.{Dict}
use llmops_platform.Prelude.Float.{Float}
use llmops_platform.Prelude.Tx.{Tx, pure, lift, ◌>>=◌}
use llmops_platform.Tuning.Base.{
  Json, ParameterRange, ParameterSet, ExperimentConfig, VariantResult, allocation_strategy_of,
}
use llmops_platform.Tuning.Rows.{TuningDb, ExperimentDict, TrialDict, TrialArgs}
use llmops_platform.Tuning.Experiment
use llmops_platform.Api.Status.{on_value_error, on_exception}

module _ (fl : Float) where
  open fl use {F}

  pub record CreateExperimentRequest : Type 0 where
    pub name : Str
    pub description : Str
    pub parameter_space : List (ParameterRange fl)
    pub scoring_pipeline_id : Option Str
    pub allocation_strategy : Str
    pub traffic_percentage : F
    pub variants : List (ParameterSet fl)

  pub record VariantResultResponse : Type 0 where
    pub variant_id : Str
    pub parameters : Dict Str (Json F)
    pub sample_count : ℕ
    pub avg_score : F
    pub min_score : F
    pub max_score : F

  pub record ExperimentResultsResponse : Type 0 where
    pub id : ℕ
    pub name : Str
    pub status : Str
    pub total_trials : ℕ
    pub results : List VariantResultResponse

  -- `config` of `create_experiment`
  unfoldable pub config_of : CreateExperimentRequest → Result (ExperimentConfig fl)
  unfolding allocation_strategy_of
  config_of req = elim (allocation_strategy_of req.allocation_strategy) [
    | err e ↦ err e
    | ok strategy ↦ ok (record {
      name = req.name;
      description = req.description;
      parameter_space = req.parameter_space;
      scoring_pipeline_id = req.scoring_pipeline_id;
      allocation_strategy = strategy;
      traffic_percentage = req.traffic_percentage;
      variants = req.variants;
    })
  ]

  -- `create_experiment`, with the variants that `variants_for` gives for the configuration
  unfoldable pub create_experiment :
      ℕ
      → ℕ
      → CreateExperimentRequest
      → (ExperimentConfig fl → List (ParameterSet fl))
      → Tx (TuningDb fl) (ExperimentDict fl)
  unfolding config_of on_exception Experiment.create
  create_experiment id now req variants =
      on_exception 400
        (do config ← lift (config_of req); Experiment.create fl id now config (variants config))

  unfoldable pub list_experiments : Tx (TuningDb fl) (List (ExperimentDict fl))
  unfolding Experiment.list_experiments
  list_experiments = Experiment.list_experiments fl

  unfoldable pub get_experiment : ℕ → Tx (TuningDb fl) (ExperimentDict fl)
  unfolding on_value_error Experiment.get
  get_experiment id = on_value_error 404 (Experiment.get fl id)

  unfoldable pub start_experiment : ℕ → Tx (TuningDb fl) (ExperimentDict fl)
  unfolding on_value_error Experiment.start
  start_experiment id = on_value_error 400 (Experiment.start fl id)

  unfoldable pub allocate_variant :
      (Str → ℕ) → ℕ → Str → Tx (TuningDb fl) (Option (ParameterSet fl))
  unfolding on_value_error Experiment.allocate_variant
  allocate_variant sha id key = on_value_error 404 (Experiment.allocate_variant fl sha id key)

  unfoldable pub record_trial : ℕ → ℕ → TrialArgs fl → Tx (TuningDb fl) (TrialDict fl)
  unfolding on_value_error Experiment.record_trial
  record_trial id experiment_id a =
      on_value_error 400 (Experiment.record_trial fl id experiment_id a)

  variant_response : VariantResult fl → VariantResultResponse
  variant_response r = record {
    variant_id = r.variant_id;
    parameters = r.parameters;
    sample_count = r.sample_count;
    avg_score = r.avg_score;
    min_score = r.min_score;
    max_score = r.max_score;
  }

  unfoldable pub get_results : ℕ → Tx (TuningDb fl) ExperimentResultsResponse
  unfolding variant_response on_value_error Experiment.get_results
  get_results id = on_value_error 404 (do
    results ← Experiment.get_results fl id
    pure (record {
      id = results.experiment.id;
      name = results.experiment.name;
      status = results.experiment.status;
      total_trials = results.total_trials;
      results = map variant_response results.results;
    }))

  unfoldable pub conclude_experiment : ℕ → ℕ → Option Str → Tx (TuningDb fl) (ExperimentDict fl)
  unfolding on_value_error Experiment.conclude
  conclude_experiment now id winner = on_value_error 400 (Experiment.conclude fl now id winner)

  unfoldable pub cancel_experiment : ℕ → Tx (TuningDb fl) (ExperimentDict fl)
  unfolding on_value_error Experiment.cancel
  cancel_experiment id = on_value_error 400 (Experiment.cancel fl id)
