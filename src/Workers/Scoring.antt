-- ===== src/Workers/Scoring.antt =====
-- workers/scoring_worker.py, over Redis lists. A queue is written with the element that `brpop` takes
-- next in front, so that `lpush` adds behind. A job keeps its fields through `json.dumps` and
-- `json.loads`. What can go otherwise in each attempt is numbered by the attempt.
pub mod Retry
pub mod Drain
pub mod Exhausted
use llmops_platform.Prelude.{
  ℕ, zero, suc, ◌+◌, ◌-◌, ◌*◌, ◌^◌, ◌≡◌, Str, Bool, true, false, Option, none, some, List, [], ◌∷◌,
  ◌++◌, ltb, if◌then◌else◌, Result, ok, err, Exc,
}
use llmops_platform.Prelude.Float.{Float}
use llmops_platform.Scoring.Base.{Sample, ScoreResult, PipelineResult, ScorerConfig}

abbrev pub max_retries : ℕ
max_retries = 3

abbrev pub base_backoff_seconds : ℕ
base_backoff_seconds = 2

module _ (fl : Float) (C : Type 0) where
  pub record Job : Type 0 where
    pub trace_id : Str
    pub pipeline_id : Str
    pub input_text : Str
    pub output_text : Str
    pub reference_text : Option Str
    pub scorers_config : List (ScorerConfig fl C)
    pub retry_count : ℕ

  -- A row of `score_results`.
  pub record ScoreRow : Type 0 where
    pub pipeline_id : Str
    pub trace_id : Str
    pub input_text : Str
    pub output_text : Str
    pub reference_text : Option Str
    pub aggregate_score : fl.F
    pub individual_scores : List (ScoreResult fl)

  -- A score of a trace that the observability backend has taken.
  pub record Submitted : Type 0 where
    pub trace_id : Str
    pub score : ScoreResult fl

  pub record World : Type 0 where
    pub queue : List Job
    pub dlq : List Job
    pub rows : List ScoreRow
    pub submitted : List Submitted
    -- the seconds that the worker has slept for, one entry for each `asyncio.sleep`
    pub sleeps : List ℕ
    -- attempts so far, and the jobs whose attempt succeeded
    pub attempts : ℕ
    pub done : List Job

  -- `enqueue_scoring_job`
  unfoldable pub enqueue_scoring_job : Job → World → World
  enqueue_scoring_job j w = record w { queue = w.queue ++ record j { retry_count = 0 } ∷ [] }

  -- What an attempt meets: `brpop` and `json.loads` before it, the pipeline, built and run, the commit,
  -- the backend at each score and its flush, and the `lpush` after a failure.
  pub record Environment : Type 0 where
    pub pipeline : ℕ → List (ScorerConfig fl C) → Sample → Result (PipelineResult fl)
    pub commit_fails : ℕ → Option Exc
    pub submit_fails : ℕ → ScoreResult fl → Option Exc
    pub flush_fails : ℕ → Option Exc
    pub pop_fails : ℕ → Option Exc
    pub loads_fails : ℕ → Option Exc
    pub push_fails : ℕ → Option Exc

  module _ (env : Environment) where
    abbrev pub row_of : Job → PipelineResult fl → ScoreRow
    row_of j r = record {
      pipeline_id = j.pipeline_id;
      trace_id = j.trace_id;
      input_text = j.input_text;
      output_text = j.output_text;
      reference_text = j.reference_text;
      aggregate_score = r.aggregate_score;
      individual_scores = r.individual_scores;
    }

    abbrev pub raise_or : Option Exc → World → Result (Unit {0}) × World
    raise_or none w = (ok tt, w)
    raise_or (some e) w = (err e, w)

    submit_one : Option Exc → Job → ScoreResult fl → World → Result (Unit {0}) × World
    submit_one (some e) j s w = (err e, w)
    submit_one none j s w = (
      ok tt,
      record w { submitted = w.submitted ++ record { trace_id = j.trace_id; score = s } ∷ [] },
    )

    -- `for score in result.individual_scores`, and the flush
    unfoldable pub submit_all : Job → List (ScoreResult fl) → World → Result (Unit {0}) × World
    unfolding submit_one
    submit_all j [] w = raise_or (env.flush_fails w.attempts) w
    submit_all j (s ∷ ss) w =
        let (r, w') = submit_one (env.submit_fails w.attempts s) j s w in
        elim r [ ok u ↦ submit_all j ss w' | err e ↦ (err e, w') ]

    after_commit : Option Exc → Job → PipelineResult fl → World → Result (Unit {0}) × World
    unfolding submit_all
    after_commit (some e) j r w = (err e, w)
    after_commit none j r w =
        submit_all j r.individual_scores (record w { rows = w.rows ++ row_of j r ∷ [] })

    after_pipeline : Result (PipelineResult fl) → Job → World → Result (Unit {0}) × World
    unfolding after_commit
    after_pipeline (err e) j w = (err e, w)
    after_pipeline (ok r) j w = after_commit (env.commit_fails w.attempts) j r w

    abbrev pub sample_of : Job → Sample
    sample_of j = record {
      input_text = j.input_text;
      output_text = j.output_text;
      reference = j.reference_text;
    }

    -- `process_job`
    unfoldable pub process_job : Job → World → Result (Unit {0}) × World
    unfolding after_pipeline
    process_job j w = after_pipeline (env.pipeline w.attempts j.scorers_config (sample_of j)) j w

    -- `BASE_BACKOFF_SECONDS * (2 ** (retry_count - 1))`
    abbrev pub backoff : ℕ → ℕ
    backoff retry_count = base_backoff_seconds * 2 ^ (retry_count - 1)

    -- `lpush`, which does what `put` says or raises
    push_or : Option Exc → World → World → Result (Unit {0}) × World
    push_or none w put = (ok tt, put)
    push_or (some x) w put = (err x, w)

    retry : Job → World → Result (Unit {0}) × World
    unfolding push_or
    retry j w =
        let slept : World = record w { sleeps = w.sleeps ++ backoff (j.retry_count + 1) ∷ [] } in
        push_or (env.push_fails w.attempts) slept
          (record slept { queue = w.queue ++ record j { retry_count = j.retry_count + 1 } ∷ [] })

    give_up : Job → World → Result (Unit {0}) × World
    unfolding push_or
    give_up j w = push_or (env.push_fails w.attempts) w (record w { dlq = w.dlq ++ j ∷ [] })

    -- the `except` branch
    unfoldable pub on_failure : Job → World → Result (Unit {0}) × World
    unfolding retry give_up
    on_failure j w = if ltb j.retry_count max_retries then retry j w else give_up j w

    finish_job : Job → Result (Unit {0}) × World → Result (Unit {0}) × World
    unfolding on_failure
    finish_job j (ok u, w) =
        (ok tt, record w { attempts = w.attempts + 1; done = w.done ++ j ∷ [] })
    finish_job j (err e, w) = on_failure j (record w { attempts = w.attempts + 1 })

    handle_loaded : Option Exc → Job → World → Result (Unit {0}) × World
    unfolding finish_job process_job
    handle_loaded (some x) j w = (err x, w)
    handle_loaded none j w = finish_job j (process_job j w)

    -- `_handle_job_with_retry`
    unfoldable pub handle_job_with_retry : Job → World → Result (Unit {0}) × World
    unfolding handle_loaded
    handle_job_with_retry j w = handle_loaded (env.loads_fails w.attempts) j w

    pub run_round : List Job → World → Result (Unit {0}) × World
    unfolding handle_job_with_retry
    run_round [] w = (ok tt, w)
    run_round (j ∷ q) w = handle_job_with_retry j (record w { queue = q })

    pub run_popped : Option Exc → World → Result (Unit {0}) × World
    unfolding run_round
    run_popped (some x) w = (err x, w)
    run_popped none w = run_round w.queue w

    -- Rounds of the loop of `run_worker`; on an empty queue `brpop` times out. An exception that leaves
    -- a round ends the worker.
    unfoldable pub run_worker : ℕ → World → Result (Unit {0}) × World
    unfolding run_popped
    run_worker zero w = (ok tt, w)
    run_worker (suc n) w =
        let (r, w') = run_popped (env.pop_fails w.attempts) w in
        elim r [ ok u ↦ run_worker n w' | err x ↦ (err x, w') ]
