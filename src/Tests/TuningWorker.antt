-- ===== src/Tests/TuningWorker.antt =====
-- The tuning worker of src/llmops/workers/tuning_worker.py at concrete inputs.
use llmops_platform.Prelude.{
  ℕ, ◌+◌, ◌*◌, ◌≡◌, ◌≤◌, codes, Bool, true, none, some, [], ◌∷◌, arith, leb, ltb, if◌then◌else◌,
  Exc,
}
use llmops_platform.Prelude.Float.{decimal}
use llmops_platform.Tuning.Base.{ExperimentModel, running, ab_test}
use llmops_platform.Tuning.Rows.{TuningDb}
use llmops_platform.Workers.Tuning
use llmops_platform.Workers.Tuning.{World, Environment, check_all, run_worker}
use llmops_platform.Workers.Tuning.Checks.{CheckedAll, check_all-CheckedAll}
use llmops_platform.Workers.Tuning.Shutdown.{Ends, experiments, run_worker-Ends}

abbrev experiment : ExperimentModel decimal
experiment = record {
  id = 1;
  name = codes "e";
  description = [];
  status = running;
  allocation_strategy = ab_test;
  parameter_space = [];
  variants = [];
  scoring_pipeline_id = none;
  traffic_percentage = 1000000;
  winner_variant_id = none;
  concluded_at = none;
  created_at = 0;
}

abbrev db : TuningDb decimal
db = record { experiments = experiment ∷ []; trials = [] }

-- The first two attempts are broken off.
abbrev env : Environment decimal
env = record {
  attempt_breaks = λ n. if ltb n 2 then some Exc.other else none;
  select_breaks = λ t. none;
}

abbrev start : World decimal
start = record { log = []; time = 0; attempts = 0; checks = [] }

check_all-CheckedAll_example :
    CheckedAll decimal env db
      (Tuning.running decimal env db)
      start
      (check_all decimal env db (Tuning.running decimal env db) start)
check_all-CheckedAll_example = check_all-CheckedAll decimal env db start

abbrev shutdown : ℕ → Bool
shutdown t = leb 2 t

stays : (t : ℕ) → 2 ≤ t → shutdown t ≡ true
stays t h = ground arith

run_worker-Ends_example :
    Ends decimal env db shutdown
      (2 + 35 * experiments decimal env db shutdown)
      start
      (run_worker decimal env db shutdown 3 start)
run_worker-Ends_example =
    run_worker-Ends decimal env db shutdown 2 3 start stays (omega arith) (omega arith)
