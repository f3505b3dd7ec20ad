-- ===== src/Tests/Evaluation.antt =====
-- The scoring endpoints of src/llmops/api/v1/scoring.py, and composite scorers, at concrete inputs.
use llmops_platform.Prelude.{
  ℕ, ◌≡◌, refl, Str, codes, true, Option, none, some, List, [], ◌∷◌, string_eq, str_eq, In, ok, Exc,
}
use llmops_platform.Prelude.Dict.{lookup, insert}
use llmops_platform.Prelude.Float.{decimal}
use llmops_platform.Scoring.Base.{
  Sample, ScorerConfig, Scorer, ScorerRegistry, list_scorers, register_scorer,
}
use llmops_platform.Scoring.Pipeline.{run_pipeline, successes, weighted_from, sum_weights}
use llmops_platform.Scoring.Pipeline.First.{first_unknown}
use llmops_platform.Scoring.Composite.{
  Config, config, SubScorers, nil, cons, scorer_configs, composite, registry,
}
use llmops_platform.Scoring.Composite.Nesting.{nested_run, composite-nested_run}
use llmops_platform.Scoring.Rows.{ScoreDb, insert_pipeline, pipeline_conflict}
use llmops_platform.Api.Scoring.{
  CreatePipelineRequest, PipelineResponse, EvaluateRequest, EvaluateResponse, Submission, World,
  validate, create_pipeline, get_pipeline, list_pipelines, pipeline_to_response, row_of_request,
  evaluate,
}
use llmops_platform.Api.Scoring.Created.{get_pipeline-create_pipeline}
use llmops_platform.Api.Scoring.Evaluated.{Evaluated, evaluate-Evaluated, evaluate-create_pipeline}
use llmops_platform.Api.Scoring.Nested.{nesting, nested_unknown_lost}

abbrev Plain : Type 0
Plain = Config decimal ℕ

abbrev show : ℕ → Str
show n = codes "n"

-- A scorer that gives the number of its configuration.
abbrev fixed : Scorer decimal Plain
fixed sample (config n subs) = ok (record { name = codes "fixed"; value = n; comment = none })

abbrev others : ScorerRegistry decimal Plain
others = (codes "fixed", fixed) ∷ []

abbrev reg : ScorerRegistry decimal Plain
reg = registry decimal ℕ show others

abbrev two : SubScorers decimal ℕ
two =
    cons (codes "fixed") 10000 (config 4000 nil) (cons (codes "fixed") 30000 (config 8000 nil) nil)

abbrev sample : Sample
sample = record { input_text = codes "q"; output_text = codes "a"; reference = none }

composite-nested_run_example :
    composite decimal ℕ show others (config 0 two) sample
    ≡ nested_run decimal ℕ show others (scorer_configs decimal ℕ two) sample
composite-nested_run_example = composite-nested_run decimal ℕ show others 0 two sample

abbrev unknown : SubScorers decimal ℕ
unknown = cons (codes "no") 10000 (config 0 nil) nil

abbrev fixed_config : ScorerConfig decimal Plain
fixed_config = record { strategy = codes "fixed"; weight = 10000; config = config 6000 nil }

is_unknown :
    first_unknown decimal reg (scorer_configs decimal ℕ unknown)
    ≡ some (Exc.unknown_strategy (codes "no") (list_scorers decimal reg))
unfolding registry register_scorer lookup insert str_eq
is_unknown = refl

is_known : first_unknown decimal reg (fixed_config ∷ []) ≡ none
unfolding registry register_scorer lookup insert str_eq
is_known = refl

nested_unknown_lost_example :
    (validate decimal reg (nesting decimal ℕ show others 10000 0 unknown ∷ fixed_config ∷ [])
      ≡ validate decimal reg (fixed_config ∷ []))
    × (run_pipeline decimal reg
          (nesting decimal ℕ show others 10000 0 unknown ∷ fixed_config ∷ [])
          sample
        ≡ ok (record {
          individual_scores = successes decimal reg sample (fixed_config ∷ []);
          aggregate_score =
              weighted_from decimal reg sample
                (sum_weights decimal reg 0
                  (nesting decimal ℕ show others 10000 0 unknown ∷ fixed_config ∷ []))
                0
                (fixed_config ∷ []);
        }))
nested_unknown_lost_example =
    nested_unknown_lost decimal ℕ show others 10000 0 unknown
      (Exc.unknown_strategy (codes "no") (list_scorers decimal reg)) (fixed_config ∷ []) sample
      is_unknown is_known

abbrev request : CreatePipelineRequest decimal reg
request = record { name = codes "p"; description = []; scorers = fixed_config ∷ [] }

abbrev empty_db : ScoreDb decimal Plain
empty_db = record { pipelines = []; results = [] }

abbrev created_db : ScoreDb decimal Plain
created_db = record { pipelines = row_of_request decimal reg 1 5 request ∷ []; results = [] }

abbrev created_response : PipelineResponse decimal reg
created_response = record {
  id = 1;
  name = codes "p";
  description = [];
  scorers = fixed_config ∷ [];
  is_active = true;
  created_at = 5;
}

created : create_pipeline decimal reg 1 5 request empty_db ≡ ok (created_response, created_db)
unfolding create_pipeline validate list_scorers insert_pipeline pipeline_conflict
    pipeline_to_response registry register_scorer insert str_eq
created = refl

get_pipeline-create_pipeline_example :
    (created_response ≡ record {
      id = 1;
      name = codes "p";
      description = [];
      scorers = fixed_config ∷ [];
      is_active = true;
      created_at = 5;
    })
    × (get_pipeline decimal reg 1 created_db ≡ ok (created_response, created_db))
    × ((rs : List (PipelineResponse decimal reg)) × (list_pipelines decimal reg created_db
          ≡ ok (rs, created_db))
        × In created_response rs)
    × ((j : ℕ) (old : PipelineResponse decimal reg)
        → get_pipeline decimal reg j empty_db ≡ ok (old, empty_db)
        → get_pipeline decimal reg j created_db ≡ ok (old, created_db))
get_pipeline-create_pipeline_example =
    get_pipeline-create_pipeline decimal reg 1 5 request empty_db created_db created_response
      created

abbrev evaluation : EvaluateRequest decimal reg
evaluation = record {
  trace_id = codes "t";
  pipeline_id = 1;
  input_text = codes "q";
  output_text = codes "a";
  reference_text = none;
}

abbrev accepts : Submission decimal reg → Option Exc
accepts s = none

abbrev world : World decimal reg
world = record { db = created_db; submitted = [] }

evaluate-Evaluated_example :
    Evaluated decimal reg accepts 7 6 evaluation world
      (evaluate decimal reg accepts 7 6 evaluation world)
evaluate-Evaluated_example = evaluate-Evaluated decimal reg accepts 7 6 evaluation world

evaluate-create_pipeline_example :
    (answered : EvaluateResponse decimal reg) × ((evaluate decimal reg accepts 7 5 evaluation
        world).0
      ≡ ok answered)
evaluate-create_pipeline_example =
    evaluate-create_pipeline decimal reg accepts 1 5 request created_response 7 evaluation
      (record { db = empty_db; submitted = [] }) created_db created refl refl (λ s. refl)
