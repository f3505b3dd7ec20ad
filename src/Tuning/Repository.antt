-- ===== src/Tuning/Repository.antt =====
-- db/repositories/experiment.py: `ExperimentRepository`, which makes the runner's queries on its own.
-- A status is given by its value.
use llmops_platform.Prelude.{
  ℕ, ◌≡◌, refl, inl, inr, Str, Bool, true, false, ◌&&◌, Option, none, some, List, [], ◌∷◌, ◌++◌,
  arith, ◌==◌, nat_eq, string_eq, filter, any, leb, length, Exc, ok, Option-cases,
}
use llmops_platform.Prelude.Float.{Float}
use llmops_platform.Prelude.Sort.{sort_desc}
use llmops_platform.Prelude.Table.{by_id}
use llmops_platform.Prelude.Tx.{Tx, pure, gets, modify, raise_if, ◌>>=◌, ◌>>◌}
use llmops_platform.Tuning.Base.{ExperimentModel, ExperimentTrialModel, status_value}
use llmops_platform.Tuning.Rows.{TuningDb, ExperimentResults, model_to_dict}
use llmops_platform.Tuning.Results.{select_scored, variant_results}
use llmops_platform.Tuning.Experiment.{get_results, get_experiment, experiment_id_of}

abbrev has_value : {A : Type 0} → Option A → Bool
has_value none = false
has_value (some a) = true

module _ (fl : Float) where
  unfoldable pub get_by_id : ℕ → Tx (TuningDb fl) (Option (ExperimentModel fl))
  get_by_id id = gets (λ (db : TuningDb fl). by_id (experiment_id_of fl) id db.experiments)

  unfoldable pub list_all : Tx (TuningDb fl) (List (ExperimentModel fl))
  list_all = gets (λ (db : TuningDb fl).
      sort_desc leb (λ (e : ExperimentModel fl). e.created_at) db.experiments)

  unfoldable pub list_by_status : Str → Tx (TuningDb fl) (List (ExperimentModel fl))
  unfolding status_value
  list_by_status status = gets (λ (db : TuningDb fl).
      filter (λ (e : ExperimentModel fl). status_value e.status == status) db.experiments)

  -- `create`, with the constraints of the table
  unfoldable pub create : ExperimentModel fl → Tx (TuningDb fl) (ExperimentModel fl)
  create experiment = do
    rows ← gets (λ (db : TuningDb fl). db.experiments)
    raise_if (any (λ (e : ExperimentModel fl). e.name == experiment.name) rows) Exc.integrity_error
    raise_if (any (λ (e : ExperimentModel fl). e.id == experiment.id) rows) Exc.integrity_error
    modify (λ (db : TuningDb fl). record db { experiments = db.experiments ++ experiment ∷ [] })
    pure experiment

  abbrev pub scored_rows : ℕ → List (ExperimentTrialModel fl) → List (ExperimentTrialModel fl)
  scored_rows id rows =
      filter (λ (t : ExperimentTrialModel fl). t.experiment_id == id && has_value t.score) rows

  unfoldable pub get_scored_trials : ℕ → Tx (TuningDb fl) (List (ExperimentTrialModel fl))
  get_scored_trials id = gets (λ (db : TuningDb fl). scored_rows id db.trials)

  unfoldable pub create_trial : ExperimentTrialModel fl → Tx (TuningDb fl) (ExperimentTrialModel fl)
  create_trial trial = do
    rows ← gets (λ (db : TuningDb fl). db.trials)
    raise_if (any (λ (t : ExperimentTrialModel fl). t.id == trial.id) rows) Exc.integrity_error
    modify (λ (db : TuningDb fl). record db { trials = db.trials ++ trial ∷ [] })
    pure trial

  length-select_scored :
      (id : ℕ) (rows : List (ExperimentTrialModel fl))
      → length (select_scored fl id rows) ≡ length (scored_rows id rows)
  unfolding select_scored
  length-select_scored id [] = refl
  length-select_scored id (t ∷ rows) = elim (Option-cases t.score) [
    | inl e ↦ ground (arith, length-select_scored id rows)
    | inr (s, e) ↦ ground (arith, length-select_scored id rows)
  ]

  -- For an experiment that the repository finds, the runner's results count exactly the trials that
  -- the repository's query gives, and neither query writes.
  pub get_results-get_scored_trials :
      (id : ℕ) (db : TuningDb fl) (e : ExperimentModel fl)
      → get_by_id id db ≡ ok (some e, db)
      → (r : ExperimentResults fl) × (rows : List (ExperimentTrialModel fl)) × (get_results fl id db
          ≡ ok (r, db))
        × (get_scored_trials id db ≡ ok (rows, db))
        × (r.total_trials ≡ length rows)
  unfolding get_by_id get_results get_experiment get_scored_trials
  get_results-get_scored_trials id db e found =
      let trials = select_scored fl id db.trials in
      (
        record {
          experiment = model_to_dict fl e;
          results = variant_results fl trials;
          total_trials = length trials;
        },
        scored_rows id db.trials,
        ground arith,
        refl,
        length-select_scored id db.trials,
      )
