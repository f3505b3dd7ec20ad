-- ===== src/Tests/Scoring.antt =====
-- The scoring engine of src/llmops/core/scoring at concrete inputs.
use llmops_platform.Prelude.{
  ℕ, ◌+◌, ◌≡◌, refl, ◌⊎◌, Str, codes, Bool, true, false, none, some, Option, List, [], ◌∷◌, Result,
  ok, err, Exc, length, leb, ◌&&◌,
}
use llmops_platform.Prelude.Float.{decimal}
use llmops_platform.Scoring.Base.{Sample, ScorerConfig, Scorer, ScorerRegistry}
use llmops_platform.Scoring.Rules
use llmops_platform.Scoring.Rules.{Rule, min_length, contains, failed_of, score, score_total}
use llmops_platform.Scoring.Judge.{
  ScoreField, number, Judged, parse_judge_response, parse_judge_response-Judged,
}
use llmops_platform.Scoring.Pipeline.{
  run_pipeline, IsUnknown, successes, weighted_from, sum_weights, run_pipeline-cases,
}

abbrev same_case : Str → Str
same_case s = s

abbrev never_found : Str → Str → Result Bool
never_found p s = ok false

abbrev no_json : Str → Bool
no_json s = false

abbrev report : ℕ → ℕ → List Str → Str
report passed total failed = codes "rules"

abbrev sample : Sample
sample = record { input_text = codes "q"; output_text = codes "answer"; reference = none }

abbrev rules : List Rule
rules = min_length (some 3) ∷ min_length (some 50) ∷ []

score_total_example :
    (passed : ℕ) × (passed
        + length (failed_of decimal same_case never_found no_json rules (codes "answer"))
      ≡ 2)
    × (score decimal same_case never_found no_json report sample rules
        ≡ ok (record {
          name = codes "rule_based";
          value = decimal.round (decimal.div (decimal.of_ℕ passed) (decimal.of_ℕ 2)) 4;
          comment = some (
              report passed 2
                (failed_of decimal same_case never_found no_json rules (codes "answer")));
        }))
unfolding Rules.evaluate_rule
score_total_example =
    score_total decimal same_case never_found no_json report sample rules refl
      ((true, refl), ((false, refl), tt))

abbrev is_digit : ℕ → Bool
is_digit c = leb 48 c && leb c 57

abbrev loads : Str → Option (ScoreField ℕ × Str)
loads s = some (number 70000, codes "good")

abbrev float : Str → ℕ
float s = 5000

abbrev answer : Str
answer = codes "I say {7} out of 10"

parse_judge_response-Judged_example :
    Judged is_digit decimal loads float answer
      (parse_judge_response is_digit decimal loads float answer)
parse_judge_response-Judged_example =
    parse_judge_response-Judged is_digit decimal loads float answer

abbrev good_scorer : Scorer decimal ℕ
good_scorer s c = ok (record { name = codes "good"; value = c; comment = none })

abbrev bad_scorer : Scorer decimal ℕ
bad_scorer s c = err Exc.other

abbrev registry : ScorerRegistry decimal ℕ
registry = (codes "good", good_scorer) ∷ (codes "bad", bad_scorer) ∷ []

abbrev config : Str → ℕ → ℕ → ScorerConfig decimal ℕ
config strategy weight c = record { strategy = strategy; weight = weight; config = c }

abbrev configs : List (ScorerConfig decimal ℕ)
configs = config (codes "good") 10000 8000 ∷ config (codes "bad") 10000 0 ∷ []

run_pipeline-cases_example :
    ((e : Exc) × (run_pipeline decimal registry configs sample ≡ err e)
      × IsUnknown decimal registry configs e)
    ⊎ (run_pipeline decimal registry configs sample
        ≡ ok (record {
          individual_scores = successes decimal registry sample configs;
          aggregate_score =
              weighted_from decimal registry sample
                (sum_weights decimal registry 0 configs)
                0
                configs;
        }))
run_pipeline-cases_example = run_pipeline-cases decimal registry configs sample
