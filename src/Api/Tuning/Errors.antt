-- ===== src/Api/Tuning/Errors.antt =====
-- The status codes of the endpoints for experiments.
use llmops_platform.Prelude.{
  not, ap, ◌||◌, Bool, ℕ, ◌≡◌, refl, sym, subst, inl, inr, Str, true, false, Option, arith, Result,
  ok, err, Exc, Bool-cases, Option-cases, Result-cases, any, ◌==◌, nat_eq,
}
use llmops_platform.Prelude.Float.{Float}
use llmops_platform.Prelude.Table.{by_id}
use llmops_platform.Tuning.Base.{ParameterSet, ExperimentModel, ExperimentTrialModel, status_value}
use llmops_platform.Tuning.AbTest.{
  AbTestAllocator, allocate, Allocated, inside, outside, allocate_total,
}
use llmops_platform.Tuning.Rows.{TuningDb, TrialArgs}
use llmops_platform.Tuning.Experiment
use llmops_platform.Tuning.Experiment.{
  is_too_long, too_long?, experiment_id_of, is_draft, is_running, is_unset, allocator_of,
  choose_winner,
}
use llmops_platform.Api.Status.{is_value_error, on_value_error}
use llmops_platform.Api.Answers.{Raises, Answers, answers_lem, RaisesOr, AnswersOr, answers_or_lem}
use llmops_platform.Tuning.Experiment.Lifecycle.{choose_winner_total}
use llmops_platform.Api.Tuning.{
  get_experiment, start_experiment, allocate_variant, record_trial, get_results,
  conclude_experiment, cancel_experiment,
}

module _ (fl : Float) where
  total-Raises : {A : Type 0} (r : Result A) → ((e : Exc) → r ≡ err e → ⊥) → Raises r
  total-Raises (ok a) h = tt
  total-Raises (err e) h = absurd (h e refl)

  value_error-Raises :
      {A : Type 0} (r : Result A) (e : Exc) → r ≡ err e → is_value_error e ≡ true → Raises r
  value_error-Raises r e h v = subst Raises (sym h) v

  abbrev row_of : ℕ → TuningDb fl → Option (ExperimentModel fl)
  row_of id db = by_id (experiment_id_of fl) id db.experiments

  get-Raises : (id : ℕ) (db : TuningDb fl) → Raises (Experiment.get fl id db)
  unfolding Experiment.get Experiment.get_experiment is_value_error
  get-Raises id db = elim (Option-cases (row_of id db)) [
    | inl e ↦
        value_error-Raises (Experiment.get fl id db) (Exc.experiment_not_found id) (ground arith)
          refl
    | inr (x, e) ↦ total-Raises (Experiment.get fl id db) (λ y bad. ground arith)
  ]

  start-Raises : (id : ℕ) (db : TuningDb fl) → Raises (Experiment.start fl id db)
  unfolding Experiment.start Experiment.get_experiment is_value_error
  start-Raises id db = elim (Option-cases (row_of id db)) [
    | inl e ↦
        value_error-Raises (Experiment.start fl id db) (Exc.experiment_not_found id) (ground arith)
          refl
    | inr (x, e) ↦ elim (Bool-cases (is_draft x.status)) [
      | inr other ↦
          value_error-Raises (Experiment.start fl id db) (Exc.cannot_start (status_value x.status))
            (ground arith) refl
      | inl draft ↦ total-Raises (Experiment.start fl id db) (λ y bad. ground arith)
    ]
  ]

  cancel-Raises : (id : ℕ) (db : TuningDb fl) → Raises (Experiment.cancel fl id db)
  unfolding Experiment.cancel Experiment.get_experiment is_value_error
  cancel-Raises id db = elim (Option-cases (row_of id db)) [
    | inl e ↦
        value_error-Raises (Experiment.cancel fl id db) (Exc.experiment_not_found id) (ground arith)
          refl
    | inr (x, e) ↦ total-Raises (Experiment.cancel fl id db) (λ y bad. ground arith)
  ]

  get_results-Answers : (id : ℕ) (db : TuningDb fl) → Answers 404 (get_results fl id db)
  unfolding get_results on_value_error Experiment.get_results Experiment.get_experiment
      is_value_error
  get_results-Answers id db = elim (Option-cases (row_of id db)) [
    | inl e ↦
        let eq : get_results fl id db ≡ err (Exc.http 404 (Exc.experiment_not_found id)) =
          ground arith in
        subst (Answers 404) (sym eq) (Exc.experiment_not_found id, refl, refl)
    | inr (x, e) ↦ elim (Result-cases (get_results fl id db)) [
      | inl (y, bad) ↦ absurd (ground arith)
      | inr (y, good) ↦ subst (Answers 404) (sym good) tt
    ]
  ]

  conclude-Raises :
      (now id : ℕ) (w : Option Str) (db : TuningDb fl)
      → RaisesOr (not (too_long? fl w)) (Experiment.conclude fl now id w db)
  unfolding Experiment.conclude Experiment.get_experiment is_value_error
  conclude-Raises now id w db = elim (Option-cases (row_of id db)) [
    | inl e ↦ inl (
        value_error-Raises (Experiment.conclude fl now id w db) (Exc.experiment_not_found id)
          (ground arith) refl)
    | inr (x, e) ↦ elim (Bool-cases (is_running x.status)) [
      | inr other ↦ inl (
          value_error-Raises (Experiment.conclude fl now id w db)
            (Exc.cannot_conclude (status_value x.status)) (ground arith) refl)
      | inl running ↦
          let (w', chosen) = choose_winner_total fl id w db x e in
          elim (Bool-cases (too_long? fl w)) [
            | inl long ↦
                let refused : Experiment.conclude fl now id w db ≡ err Exc.data_error =
                  ground arith in
                inr (ap not long, refused)
            | inr short ↦
                inl (total-Raises (Experiment.conclude fl now id w db) (λ y bad. ground arith))
          ]
    ]
  ]

  Allocated-total :
      {sha : Str → ℕ} (a : AbTestAllocator fl sha) (key : Str)
      (out : Result (Option (ParameterSet fl))) (e : Exc)
      → Allocated fl sha a key out
      → out ≡ err e
      → ⊥
  Allocated-total a key _ e (inside v lt m) h = cc
  Allocated-total a key _ e (outside o) h = cc

  allocate_variant-Raises :
      (sha : Str → ℕ) (id : ℕ) (key : Str) (db : TuningDb fl)
      → Raises (Experiment.allocate_variant fl sha id key db)
  unfolding Experiment.allocate_variant Experiment.get_experiment is_value_error
  allocate_variant-Raises sha id key db = elim (Option-cases (row_of id db)) [
    | inl e ↦
        value_error-Raises (Experiment.allocate_variant fl sha id key db)
          (Exc.experiment_not_found id) (ground arith) refl
    | inr (x, e) ↦ elim (Bool-cases (is_running x.status)) [
      | inr other ↦
          total-Raises (Experiment.allocate_variant fl sha id key db) (λ y bad. ground arith)
      | inl running ↦ elim (Result-cases (allocate fl sha (allocator_of fl sha x) key)) [
        | inl (y, bad) ↦ absurd (
            Allocated-total (allocator_of fl sha x) key
              (allocate fl sha (allocator_of fl sha x) key) y
              (allocate_total fl sha (allocator_of fl sha x) key) bad)
        | inr (o, good) ↦
            total-Raises (Experiment.allocate_variant fl sha id key db) (λ y bad. ground arith)
      ]
    ]
  ]

  -- The columns of a trial can hold its variant and its trace.
  abbrev pub trial_fits : TrialArgs fl → Bool
  trial_fits a = not (is_too_long fl a.variant_id || is_too_long fl a.trace_id)

  record_trial-Raises :
      (tid id : ℕ) (a : TrialArgs fl) (db : TuningDb fl)
      → any (λ (t : ExperimentTrialModel fl). t.id == tid) db.trials ≡ false
      → RaisesOr (trial_fits a) (Experiment.record_trial fl tid id a db)
  unfolding Experiment.record_trial
  record_trial-Raises tid id a db free =
      elim (Bool-cases (is_too_long fl a.variant_id || is_too_long fl a.trace_id)) [
        | inl long ↦
            let refused : Experiment.record_trial fl tid id a db ≡ err Exc.data_error =
              ground arith in
            inr (ap not long, refused)
        | inr short ↦
            inl (total-Raises (Experiment.record_trial fl tid id a db) (λ y bad. ground arith))
      ]

  -- The endpoints for an experiment answer with a result or with their own status, 404 or 400, for an
  -- error that the runner raises on purpose, whatever experiment, by a well-formed id, and whatever
  -- key the request names. Only a winner, or a variant or a trace of a trial, of more than 255
  -- characters may come out as an internal error. For a new trial its drawn id is assumed to be free.
  -- Left out of the model are texts with the NUL character or a lone surrogate, which the driver
  -- refuses, numbers that are NaN or infinite, which the JSON of the tables and of the answers refuses,
  -- and other sessions that write at the same time.
  pub experiments-Answers :
      (sha : Str → ℕ) (id now tid : ℕ) (key : Str) (winner : Option Str) (a : TrialArgs fl)
      (db : TuningDb fl)
      → any (λ (t : ExperimentTrialModel fl). t.id == tid) db.trials ≡ false
      → Answers 404 (get_experiment fl id db)
        × Answers 400 (start_experiment fl id db)
        × Answers 404 (allocate_variant fl sha id key db)
        × AnswersOr (trial_fits a) 400 (record_trial fl tid id a db)
        × Answers 404 (get_results fl id db)
        × AnswersOr (not (too_long? fl winner)) 400 (conclude_experiment fl now id winner db)
        × Answers 400 (cancel_experiment fl id db)
  unfolding get_experiment start_experiment allocate_variant record_trial conclude_experiment
      cancel_experiment on_value_error
  experiments-Answers sha id now tid key winner a db free = (
    answers_lem 404 (Experiment.get fl id db) (get-Raises id db),
    answers_lem 400 (Experiment.start fl id db) (start-Raises id db),
    answers_lem 404 (Experiment.allocate_variant fl sha id key db)
        (allocate_variant-Raises sha id key db),
    answers_or_lem (trial_fits a) 400 (Experiment.record_trial fl tid id a db)
        (record_trial-Raises tid id a db free),
    get_results-Answers id db,
    answers_or_lem (not (too_long? fl winner)) 400 (Experiment.conclude fl now id winner db)
        (conclude-Raises now id winner db),
    answers_lem 400 (Experiment.cancel fl id db) (cancel-Raises id db),
  )
