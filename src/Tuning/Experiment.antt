-- ===== src/Tuning/Experiment.antt =====
-- core/tuning/experiment.py: `ExperimentRunner`, each method a unit of work on the tables of
-- experiments and trials. The ids that `uuid4` draws and the database's `now()` are arguments.
pub mod Lifecycle
pub mod Stability
pub mod Winner
use llmops_platform.Prelude.{
  ℕ, Str, codes, Bool, true, false, not, Option, none, some, List, [], ◌∷◌, ◌++◌, map,
  if◌then◌else◌, ◌==◌, nat_eq, string_eq, length, is_nil, is_empty, any, leb, ltb, ◌||◌, Exc, ok,
  Result,
}
use llmops_platform.Prelude.Dict.{Dict}
use llmops_platform.Prelude.Float.{Float}
use llmops_platform.Prelude.Sort.{sort_desc}
use llmops_platform.Prelude.Table.{by_id, update}
use llmops_platform.Prelude.Tx.{Tx, pure, raise, gets, some_or, lift, modify, raise_if, ◌>>=◌, ◌>>◌}
use llmops_platform.Tuning.Base.{
  Json, ExperimentStatus, draft, running, completed, cancelled, status_value, AllocationStrategy,
  ab_test, grid, random, strategy_value, ParameterRange, ParameterSet, ExperimentConfig,
  VariantResult, ExperimentModel, ExperimentTrialModel,
}
use llmops_platform.Tuning.Rows.{
  Chance, TuningDb, ExperimentDict, model_to_dict, ExperimentResults, TrialDict, TrialArgs,
}
use llmops_platform.Tuning.AbTest.{AbTestAllocator, allocate}
use llmops_platform.Tuning.Space.{generate_grid_variants}
use llmops_platform.Tuning.Random.{generate_random_variants}
use llmops_platform.Tuning.Results.{Scored, select_scored, variant_results}

abbrev pub is_draft : ExperimentStatus → Bool
is_draft ExperimentStatus.draft = true
is_draft _ = false

abbrev pub is_running : ExperimentStatus → Bool
is_running ExperimentStatus.running = true
is_running _ = false

abbrev is_grid : AllocationStrategy → Bool
is_grid AllocationStrategy.grid = true
is_grid _ = false

-- `if not winner_variant_id`
abbrev pub is_unset : Option Str → Bool
is_unset none = true
is_unset (some s) = is_empty s

module _ (fl : Float) where
  open fl use {F}

  abbrev pub experiment_id_of : ExperimentModel fl → ℕ
  experiment_id_of e = e.id

  -- `_get_experiment`
  unfoldable pub get_experiment : ℕ → Tx (TuningDb fl) (ExperimentModel fl)
  get_experiment id = do
    rows ← gets (λ (db : TuningDb fl). db.experiments)
    some_or (by_id experiment_id_of id rows) (Exc.experiment_not_found id)

  -- Assignments to `exp`, and their commit.
  unfoldable pub save : ℕ → (ExperimentModel fl → ExperimentModel fl) → Tx (TuningDb fl) (Unit {0})
  save id f = modify (λ (db : TuningDb fl). record db {
    experiments = update experiment_id_of id f db.experiments;
  })

  -- The variants of a new experiment: those of the configuration, or generated ones. `none` means
  -- that the expansion of the parameter space has not ended on this fuel.
  unfoldable pub variants_for :
      Chance fl → ℕ → ExperimentConfig fl → Option (List (ParameterSet fl))
  variants_for chance fuel config =
      if is_nil config.variants
      then (if is_grid config.allocation_strategy
          then generate_grid_variants fl chance.variant_id fuel 0 config.parameter_space
          else some (
              generate_random_variants fl chance.index chance.uniform chance.variant_id 0 4
                config.parameter_space))
      else some config.variants

  abbrev name_taken : Str → List (ExperimentModel fl) → Bool
  name_taken name rows = any (λ e. e.name == name) rows

  abbrev id_taken : ℕ → List (ExperimentModel fl) → Bool
  id_taken id rows = any (λ e. e.id == id) rows

  abbrev pub new_experiment :
      ℕ → ℕ → ExperimentConfig fl → List (ParameterSet fl) → ExperimentModel fl
  new_experiment id now config variants = record {
    id = id;
    name = config.name;
    description = config.description;
    status = ExperimentStatus.draft;
    allocation_strategy = config.allocation_strategy;
    parameter_space = config.parameter_space;
    variants = variants;
    scoring_pipeline_id = config.scoring_pipeline_id;
    traffic_percentage = config.traffic_percentage;
    winner_variant_id = none;
    concluded_at = none;
    created_at = now;
  }

  -- `create` once the variants are there; the name and the primary key are unique in the table.
  unfoldable pub create :
      ℕ → ℕ → ExperimentConfig fl → List (ParameterSet fl) → Tx (TuningDb fl) (ExperimentDict fl)
  unfolding model_to_dict
  create id now config variants = do
    rows ← gets (λ (db : TuningDb fl). db.experiments)
    raise_if (name_taken config.name rows) Exc.integrity_error
    raise_if (id_taken id rows) Exc.integrity_error
    modify (λ (db : TuningDb fl). record db {
      experiments = db.experiments ++ new_experiment id now config variants ∷ [];
    })
    pure (model_to_dict fl (new_experiment id now config variants))

  abbrev pub started : ExperimentModel fl → ExperimentModel fl
  started e = record e { status = ExperimentStatus.running }

  -- `start`
  unfoldable pub start : ℕ → Tx (TuningDb fl) (ExperimentDict fl)
  unfolding get_experiment save
  start id = do
    exp ← get_experiment id
    raise_if (not (is_draft exp.status)) (Exc.cannot_start (status_value exp.status))
    save id started
    pure (model_to_dict fl (started exp))

  abbrev pub allocator_of : (sha : Str → ℕ) → ExperimentModel fl → AbTestAllocator fl sha
  allocator_of sha e = record { variants = e.variants; traffic_percentage = e.traffic_percentage }

  -- `allocate_variant`
  unfoldable pub allocate_variant :
      (Str → ℕ) → ℕ → Str → Tx (TuningDb fl) (Option (ParameterSet fl))
  unfolding get_experiment
  allocate_variant sha id key = do
    exp ← get_experiment id
    lift (if is_running exp.status then allocate fl sha (allocator_of sha exp) key else ok none)

  new_trial : ℕ → ℕ → TrialArgs fl → ExperimentTrialModel fl
  new_trial id experiment_id a = record {
    id = id;
    experiment_id = experiment_id;
    variant_id = a.variant_id;
    trace_id = a.trace_id;
    parameters = a.parameters;
    input_text = a.input_text;
    output_text = a.output_text;
    score = a.score;
  }

  -- What the columns of type `String(255)` cannot hold.
  unfoldable pub is_too_long : Str → Bool
  is_too_long s = ltb 255 (length s)

  abbrev pub too_long? : Option Str → Bool
  too_long? none = false
  too_long? (some s) = is_too_long s

  -- `record_trial`. The table has no foreign key, so the experiment need not exist.
  unfoldable pub record_trial : ℕ → ℕ → TrialArgs fl → Tx (TuningDb fl) (TrialDict fl)
  unfolding new_trial is_too_long
  record_trial id experiment_id a = do
    rows ← gets (λ (db : TuningDb fl). db.trials)
    raise_if (is_too_long a.variant_id || is_too_long a.trace_id) Exc.data_error
    raise_if (any (λ (t : ExperimentTrialModel fl). t.id == id) rows) Exc.integrity_error
    modify (λ (db : TuningDb fl). record db {
      trials = db.trials ++ new_trial id experiment_id a ∷ [];
    })
    pure (record {
      id = id;
      experiment_id = experiment_id;
      variant_id = a.variant_id;
      trace_id = a.trace_id;
      score = a.score;
    })

  -- `get_results`
  unfoldable pub get_results : ℕ → Tx (TuningDb fl) (ExperimentResults fl)
  unfolding get_experiment
  get_results id = do
    exp ← get_experiment id
    rows ← gets (λ (db : TuningDb fl). db.trials)
    let trials = select_scored fl id rows
    pure (record {
      experiment = model_to_dict fl exp;
      results = variant_results fl trials;
      total_trials = length trials;
    })

  -- `results["results"][0]["variant_id"]`, if there are results
  abbrev pub leader : List (VariantResult fl) → Option Str → Option Str
  leader [] w = w
  leader (r ∷ rs) w = some r.variant_id

  -- The winner that is written: the one that is given, or the leader.
  unfoldable pub choose_winner : ℕ → Option Str → Tx (TuningDb fl) (Option Str)
  unfolding get_results
  choose_winner id w =
      if is_unset w then (do results ← get_results id; pure (leader results.results w)) else pure w

  abbrev pub concluded : Option Str → ℕ → ExperimentModel fl → ExperimentModel fl
  concluded w now e = record e {
    status = ExperimentStatus.completed;
    winner_variant_id = w;
    concluded_at = some now;
  }

  -- `conclude`. A winner that is given is written to a column of 255 characters; the leader comes from
  -- one of the same width.
  unfoldable pub conclude : ℕ → ℕ → Option Str → Tx (TuningDb fl) (ExperimentDict fl)
  unfolding get_experiment choose_winner save is_too_long
  conclude now id winner_variant_id = do
    exp ← get_experiment id
    raise_if (not (is_running exp.status)) (Exc.cannot_conclude (status_value exp.status))
    winner ← choose_winner id winner_variant_id
    raise_if (too_long? winner_variant_id) Exc.data_error
    save id (concluded winner now)
    pure (model_to_dict fl (concluded winner now exp))

  abbrev pub cancelled_of : ExperimentModel fl → ExperimentModel fl
  cancelled_of e = record e { status = ExperimentStatus.cancelled }

  -- `cancel`
  unfoldable pub cancel : ℕ → Tx (TuningDb fl) (ExperimentDict fl)
  unfolding get_experiment save
  cancel id = do
    exp ← get_experiment id
    save id cancelled_of
    pure (model_to_dict fl (cancelled_of exp))

  -- `get`
  unfoldable pub get : ℕ → Tx (TuningDb fl) (ExperimentDict fl)
  unfolding get_experiment
  get id = do exp ← get_experiment id; pure (model_to_dict fl exp)

  -- `list_experiments`, ordered by `created_at` descending
  unfoldable pub list_experiments : Tx (TuningDb fl) (List (ExperimentDict fl))
  list_experiments = do
    rows ← gets (λ (db : TuningDb fl). db.experiments)
    pure (map (model_to_dict fl) (sort_desc leb (λ (e : ExperimentModel fl). e.created_at) rows))
