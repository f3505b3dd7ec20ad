-- ===== src/Tests/Tuning.antt =====
-- Experiments of src/llmops/core/tuning at concrete inputs, on decimal numbers.
use llmops_platform.Prelude.{
  ℕ, ◌≡◌, refl, ◌⊎◌, ◌+◌, str_eq, Str, codes, true, false, Option, none, some, List, [], ◌∷◌, arith,
  ok, length, All, leb,
}
use llmops_platform.Prelude.Float.{decimal}
use llmops_platform.Prelude.Tx.{after}
use llmops_platform.Tuning.Base.{
  continuous, ExperimentStatus, AllocationStrategy, ParameterRange, ParameterSet, ExperimentModel,
  ExperimentTrialModel,
}
use llmops_platform.Tuning.AbTest.{AbTestAllocator, allocate, variant_at}
use llmops_platform.Tuning.Space.{expand_range, step_of}
use llmops_platform.Tuning.Space.Range.{expand_range_diverges}
use llmops_platform.Tuning.Results.{Scored, variant_results, select_scored}
use llmops_platform.Tuning.Results.Grouping.{IsComplete, variant_results-IsComplete}
use llmops_platform.Tuning.Results.Ranking.{IsTotalOrder, IsBest}
use llmops_platform.Tuning.Rows.{TuningDb}
use llmops_platform.Tuning.Experiment.{conclude, concluded, allocate_variant, get_experiment}
use llmops_platform.Tuning.Experiment.Lifecycle.{
  Op, start_op, conclude_op, cancel_op, run_all, find_experiment,
}
use llmops_platform.Tuning.Experiment.Stability.{IsForward, run_all-IsForward, sticky_allocation}
use llmops_platform.Tuning.Experiment.Winner.{conclude-IsBest}

abbrev variant_a : ParameterSet decimal
variant_a = record { variant_id = codes "a"; values = [] }

abbrev variant_b : ParameterSet decimal
variant_b = record { variant_id = codes "b"; values = [] }

abbrev hash : Str → ℕ
hash s = length s

abbrev half : AbTestAllocator decimal hash
half = record { variants = variant_a ∷ variant_b ∷ []; traffic_percentage = 500000 }

abbrev full : AbTestAllocator decimal hash
full = record { variants = variant_a ∷ variant_b ∷ []; traffic_percentage = 1000000 }

abbrev key : Str
key = codes "user"

abbrev flat_range : ParameterRange decimal
flat_range = record {
  name = codes "temperature";
  type = continuous;
  min_value = some 7000;
  max_value = some 7000;
  values = none;
  step = none;
}

sub_self : (x : ℕ) → decimal.sub x x ≡ decimal.of_ℕ 0
sub_self x = omega arith

add_zero : (x : ℕ) → decimal.add x (decimal.of_ℕ 0) ≡ x
add_zero x = omega arith

le_self : (x : ℕ) → leb x x ≡ true
le_self x = ground arith

expand_range_diverges_example : expand_range decimal 100 flat_range ≡ none
unfolding step_of
expand_range_diverges_example =
    expand_range_diverges decimal sub_self refl add_zero le_self flat_range 7000 refl refl refl refl
      100

abbrev some_range : ParameterRange decimal
some_range = record {
  name = codes "top_k";
  type = continuous;
  min_value = some 1000;
  max_value = some 9000;
  values = none;
  step = none;
}

abbrev index : ℕ → ℕ
index n = n

abbrev uniform : ℕ → ℕ → ℕ → ℕ
uniform n lo hi = lo + n

abbrev trial : ℕ → Str → Option ℕ → ExperimentTrialModel decimal
trial id v s = record {
  id = id;
  experiment_id = 1;
  variant_id = v;
  trace_id = codes "t";
  parameters = [];
  input_text = codes "in";
  output_text = codes "out";
  score = s;
}

abbrev trials : List (ExperimentTrialModel decimal)
trials =
    trial 1 (codes "a") (some 4000)
    ∷ trial 2 (codes "b") (some 9000)
    ∷ trial 3 (codes "a") none
    ∷ trial 4 (codes "a") (some 6000)
    ∷ []

abbrev experiment : ExperimentModel decimal
experiment = record {
  id = 1;
  name = codes "tone";
  description = codes "";
  status = ExperimentStatus.running;
  allocation_strategy = AllocationStrategy.ab_test;
  parameter_space = [];
  variants = variant_a ∷ variant_b ∷ [];
  scoring_pipeline_id = none;
  traffic_percentage = 1000000;
  winner_variant_id = none;
  concluded_at = none;
  created_at = 10;
}

abbrev db : TuningDb decimal
db = record { experiments = experiment ∷ []; trials = trials }

abbrev points_of : List (Scored decimal)
points_of =
    record { variant_id = codes "a"; parameters = []; score = 4000 }
    ∷ record { variant_id = codes "b"; parameters = []; score = 9000 }
    ∷ record { variant_id = codes "a"; parameters = []; score = 6000 }
    ∷ []

variant_results-IsComplete_example :
    All (IsComplete decimal points_of) (variant_results decimal points_of)
variant_results-IsComplete_example = variant_results-IsComplete decimal points_of

leb_total : (x y : ℕ) → leb x y ≡ false → leb y x ≡ true
leb_total x y h = ground arith

leb_trans : (x y z : ℕ) → leb x y ≡ true → leb y z ≡ true → leb x z ≡ true
leb_trans x y z h k = ground arith

order : IsTotalOrder decimal.le
order = record { total = leb_total; trans = leb_trans }

abbrev scores : List ℕ
scores = 4000 ∷ 9000 ∷ 6000 ∷ []

abbrev ops : List (Op decimal)
ops = start_op 1 ∷ conclude_op 1 20 none ∷ cancel_op 1 ∷ []

run_all-IsForward_example :
    (e' : ExperimentModel decimal) × (find_experiment decimal 1 (run_all decimal ops db) ≡ some e')
    × IsForward decimal experiment e'
run_all-IsForward_example = run_all-IsForward decimal ops db 1 experiment refl

sticky_allocation_example :
    let db' = run_all decimal ops db in
    (allocate_variant decimal hash 1 key db' ≡ ok (some variant_a, db'))
    ⊎ (allocate_variant decimal hash 1 key db' ≡ ok (none, db'))
unfolding allocate_variant get_experiment allocate variant_at
sticky_allocation_example =
    sticky_allocation decimal hash ops db 1 key experiment variant_a refl refl

conclude-IsBest_example :
    (w : Str) × (find_experiment decimal 1 (after (conclude decimal 20 1 none) db)
      ≡ some (concluded decimal (some w) 20 experiment))
    × IsBest decimal order (select_scored decimal 1 db.trials) w
unfolding select_scored str_eq
conclude-IsBest_example =
    conclude-IsBest decimal order 20 1 db experiment (codes "b") refl refl refl
