-- ===== src/Workers/Tuning.antt =====
-- workers/tuning_worker.py, over the tables of the experiments. Time is in whole seconds; queries take
-- none. What the log says of an experiment is a list of entries. Which attempts the database breaks off
-- is numbered by the attempt.
pub mod Checks
pub mod Shutdown
use llmops_platform.Prelude.{
  ℕ, zero, suc, ◌+◌, ◌-◌, ◌*◌, ◌^◌, Str, Bool, true, false, Option, none, some, List, [], ◌∷◌, ◌++◌,
  ◌==◌, string_eq, leb, ltb, if◌then◌else◌, length, filter, Result, ok, err, Exc,
}
use llmops_platform.Prelude.Float.{Float}
use llmops_platform.Tuning.Base.{ExperimentStatus, status_value, ExperimentModel, VariantResult}
use llmops_platform.Tuning.Rows.{TuningDb, ExperimentResults}
use llmops_platform.Tuning.Experiment.{get_results}

abbrev pub poll_interval : ℕ
poll_interval = 30

abbrev pub max_check_retries : ℕ
max_check_retries = 3

abbrev pub base_backoff_seconds : ℕ
base_backoff_seconds = 5

module _ (fl : Float) where
  pub data Entry : Type 0 where
    experiment_status : (name : Str) → (total_trials variant_count : ℕ) → Entry
    experiment_leader : (name variant : Str) → (avg_score : fl.F) → (sample_count : ℕ) → Entry
    experiment_check_failed : (name : Str) → (retries : ℕ) → Entry
    experiment_check_retry : (name : Str) → (retry backoff_seconds : ℕ) → Entry
    tuning_worker_error : Entry

  pub record World : Type 0 where
    pub log : List Entry
    pub time : ℕ
    -- attempts so far
    pub attempts : ℕ
    -- the times at which `check_running_experiments` was called
    pub checks : List ℕ

  -- `BASE_BACKOFF_SECONDS * (2 ** (retries - 1))`
  abbrev pub backoff : ℕ → ℕ
  backoff retries = base_backoff_seconds * 2 ^ (retries - 1)

  abbrev pub leader_entries : Str → List (VariantResult fl) → List Entry
  leader_entries name [] = []
  leader_entries name (best ∷ rest) =
      experiment_leader name best.variant_id best.avg_score best.sample_count ∷ []

  -- What is logged of the results of an experiment.
  abbrev pub report : Str → ExperimentResults fl → List Entry
  report name r =
      experiment_status name r.total_trials (length r.results) ∷ leader_entries name r.results

  -- Which attempt, and which query for the experiments, the database breaks off.
  pub record Environment : Type 0 where
    pub attempt_breaks : ℕ → Option Exc
    pub select_breaks : ℕ → Option Exc

  module _ (env : Environment) (db : TuningDb fl) where
    attempt_or : Option Exc → ExperimentModel fl → Result (ExperimentResults fl)
    attempt_or (some e) exp = err e
    attempt_or none exp = elim (get_results fl exp.id db) [ ok r ↦ ok r.0 | err e ↦ err e ]

    -- the `try` block of an attempt
    unfoldable pub attempt : ℕ → ExperimentModel fl → Result (ExperimentResults fl)
    unfolding attempt_or get_results
    attempt n exp = attempt_or (env.attempt_breaks n) exp

    abbrev count_attempt : List Entry → ℕ → World → World
    count_attempt entries slept w = record w {
      log = w.log ++ entries;
      time = w.time + slept;
      attempts = w.attempts + 1;
    }

    -- `while retries <= MAX_CHECK_RETRIES`, on fuel
    unfoldable pub check_experiment : ℕ → ℕ → ExperimentModel fl → World → World
    unfolding attempt
    check_experiment zero retries exp w = w
    check_experiment (suc fuel) retries exp w = elim (leb retries max_check_retries) [
      | false ↦ w
      | true ↦ elim (attempt w.attempts exp) [
        | ok r ↦ count_attempt (report exp.name r) 0 w
        | err e ↦ elim (ltb max_check_retries (retries + 1)) [
          | true ↦
              check_experiment fuel (retries + 1) exp
                (count_attempt (experiment_check_failed exp.name (retries + 1) ∷ []) 0 w)
          | false ↦ check_experiment fuel (retries + 1) exp (
              count_attempt
                (experiment_check_retry exp.name (retries + 1) (backoff (retries + 1)) ∷ [])
                (backoff (retries + 1)) w)
        ]
      ]
    ]

    -- the query for the running experiments
    abbrev pub running : List (ExperimentModel fl)
    running =
        filter
          (λ (e : ExperimentModel fl).
            status_value e.status == status_value ExperimentStatus.running)
          db.experiments

    -- `for exp in experiments`; the loop runs four times at most
    unfoldable pub check_all : List (ExperimentModel fl) → World → World
    unfolding check_experiment
    check_all [] w = w
    check_all (exp ∷ exps) w = check_all exps (check_experiment 5 0 exp w)

    check_or_error : Option Exc → World → World
    unfolding check_all
    check_or_error (some e) w = record w { log = w.log ++ tuning_worker_error ∷ [] }
    check_or_error none w = check_all running w

    -- `check_running_experiments`, and the `try` around it in `run_worker`
    unfoldable pub check_running_experiments : World → World
    unfolding check_or_error
    check_running_experiments w =
        check_or_error (env.select_breaks w.time) (record w { checks = w.checks ++ w.time ∷ [] })

    module _ (shutdown : ℕ → Bool) where
      -- `for _ in range(POLL_INTERVAL)`, with the flag `_shutdown` as it is at each second
      unfoldable pub poll : ℕ → World → World
      poll zero w = w
      poll (suc n) w = elim (shutdown w.time) [
        | true ↦ w
        | false ↦ poll n (record w { time = w.time + 1 })
      ]

      -- `run_worker`, on fuel for its rounds
      unfoldable pub run_worker : ℕ → World → Option World
      unfolding check_running_experiments poll
      run_worker zero w = none
      run_worker (suc n) w = elim (shutdown w.time) [
        | true ↦ some w
        | false ↦ run_worker n (poll poll_interval (check_running_experiments w))
      ]
