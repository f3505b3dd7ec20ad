-- ===== src/Tests/Workers.antt =====
-- The scoring worker of src/llmops/workers at concrete inputs.
use llmops_platform.Prelude.{ℕ, ◌≡◌, refl, codes, none, some, [], ◌∷◌, ok, err, Exc, arith}
use llmops_platform.Prelude.Float.{decimal}
use llmops_platform.Scoring.Base.{PipelineResult}
use llmops_platform.Workers.Scoring.{Job, World, Environment, run_worker, row_of, process_job}
use llmops_platform.Workers.Scoring.Retry.{AlwaysFails}
use llmops_platform.Workers.Scoring.Drain.{Drained, run_worker-drains}
use llmops_platform.Workers.Scoring.Exhausted.{
  at_retry, IsReliable, FlushFails, run_worker-exhausted, run_worker-duplicates,
}

abbrev job : Job decimal ℕ
job = record {
  trace_id = codes "t";
  pipeline_id = codes "p";
  input_text = codes "q";
  output_text = codes "a";
  reference_text = none;
  scorers_config = [];
  retry_count = 0;
}

abbrev world : World decimal ℕ
world = record {
  queue = job ∷ [];
  dlq = [];
  rows = [];
  submitted = [];
  sleeps = [];
  attempts = 0;
  done = [];
}

abbrev result : PipelineResult decimal
result = record { individual_scores = []; aggregate_score = 5000 }

-- The backend takes scores, and never flushes them.
abbrev clogged : Environment decimal ℕ
clogged = record {
  pipeline = λ n cs s. ok result;
  commit_fails = λ n. none;
  submit_fails = λ n s. none;
  flush_fails = λ n. some Exc.other;
  pop_fails = λ n. none;
  loads_fails = λ n. none;
  push_fails = λ n. none;
}

-- No pipeline can be built.
abbrev broken : Environment decimal ℕ
broken = record {
  pipeline = λ n cs s. err Exc.other;
  commit_fails = λ n. none;
  submit_fails = λ n s. none;
  flush_fails = λ n. none;
  pop_fails = λ n. none;
  loads_fails = λ n. none;
  push_fails = λ n. none;
}

run_worker-drains_example : Drained decimal ℕ clogged world (run_worker decimal ℕ clogged 4 world)
run_worker-drains_example = run_worker-drains decimal ℕ clogged 4 world (omega arith)

always_fails : AlwaysFails decimal ℕ broken job
unfolding process_job
always_fails n w = (Exc.other, refl)

broken-IsReliable : IsReliable decimal ℕ broken job
broken-IsReliable = record { pops = λ n. refl; loads = λ n. refl; pushes = λ n. refl }

run_worker-exhausted_example :
    let (r, w') = run_worker decimal ℕ broken 4 world in
    (r ≡ ok tt)
    × (w'.queue ≡ [])
    × (w'.dlq ≡ at_retry decimal ℕ broken job 3 ∷ [])
    × (w'.sleeps ≡ 2 ∷ 4 ∷ 8 ∷ [])
    × (w'.done ≡ [])
    × (w'.attempts ≡ 4)
run_worker-exhausted_example =
    run_worker-exhausted decimal ℕ broken job broken-IsReliable always_fails world refl

clogged-IsReliable : IsReliable decimal ℕ clogged job
clogged-IsReliable = record { pops = λ n. refl; loads = λ n. refl; pushes = λ n. refl }

never_flushes : FlushFails decimal ℕ clogged job result
never_flushes = record {
  scores = λ n. refl;
  commits = λ n. refl;
  submits = λ n s. refl;
  flush = λ n. (Exc.other, refl);
}

run_worker-duplicates_example :
    let w' = (run_worker decimal ℕ clogged 4 world).1 in
    let row = row_of decimal ℕ clogged job result in
    (w'.rows ≡ row ∷ row ∷ row ∷ row ∷ []) × (w'.dlq ≡ at_retry decimal ℕ clogged job 3 ∷ [])
run_worker-duplicates_example =
    run_worker-duplicates decimal ℕ clogged job result world clogged-IsReliable never_flushes refl
