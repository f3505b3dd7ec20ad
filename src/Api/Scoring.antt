-- ===== src/Api/Scoring.antt =====
-- api/v1/scoring.py with the requests and responses of api/schemas/scoring.py: the endpoints of the
-- scoring engine. They query and insert by themselves, without the repository. A configuration that is
-- written is read back as it was, with its weight.
pub mod Created
pub mod Evaluated
pub mod Nested
use llmops_platform.Prelude.{
  ℕ, Str, codes, Bool, true, false, Option, none, some, List, [], ◌∷◌, ◌++◌, ◌==◌, nat_eq,
  string_eq, contains, find, filter, map, Result, ok, err, Exc,
}
use llmops_platform.Prelude.Float.{Float}
use llmops_platform.Prelude.Tx.{Tx, pure, gets, lift, some_or, ◌>>=◌, ◌>>◌}
use llmops_platform.Scoring.Base.{
  Sample, ScoreResult, PipelineResult, ScorerConfig, ScorerRegistry, list_scorers,
}
use llmops_platform.Scoring.Pipeline.{run_pipeline}
use llmops_platform.Scoring.Rows.{
  ScoringPipelineModel, ScoreResultModel, ScoreDb, insert_pipeline, insert_result,
}

module _ (fl : Float) {C : Type 0} (registry : ScorerRegistry fl C) where
  open fl use {F}

  pub record CreatePipelineRequest : Type 0 where
    pub name : Str
    pub description : Str
    pub scorers : List (ScorerConfig fl C)

  pub record PipelineResponse : Type 0 where
    pub id : ℕ
    pub name : Str
    pub description : Str
    pub scorers : List (ScorerConfig fl C)
    pub is_active : Bool
    pub created_at : ℕ

  pub record EvaluateRequest : Type 0 where
    pub trace_id : Str
    pub pipeline_id : ℕ
    pub input_text : Str
    pub output_text : Str
    pub reference_text : Option Str

  pub record EvaluateResponse : Type 0 where
    pub trace_id : Str
    pub pipeline_id : ℕ
    pub aggregate_score : F
    pub individual_scores : List (ScoreResult fl)

  -- A record of the answer of `get_results`.
  pub record ResultEntry : Type 0 where
    pub pipeline_id : ℕ
    pub aggregate_score : F
    pub individual_scores : List (ScoreResult fl)
    pub created_at : ℕ

  -- `_pipeline_to_response`
  unfoldable pub pipeline_to_response : ScoringPipelineModel fl C → PipelineResponse
  pipeline_to_response p = record {
    id = p.id;
    name = p.name;
    description = p.description;
    scorers = p.scorers_config;
    is_active = p.is_active;
    created_at = p.created_at;
  }

  -- `list_strategies`
  unfoldable pub list_strategies : List Str
  unfolding list_scorers
  list_strategies = list_scorers fl registry

  validate_one : Bool → Str → Result (Unit {0}) → Result (Unit {0})
  validate_one true strategy rest = rest
  validate_one false strategy rest =
      err (Exc.http 400 (Exc.unknown_strategy strategy (list_scorers fl registry)))

  -- `for s in req.scorers`
  unfoldable pub validate : List (ScorerConfig fl C) → Result (Unit {0})
  unfolding validate_one
  validate [] = ok tt
  validate (s ∷ ss) =
      validate_one (contains (list_scorers fl registry) s.strategy) s.strategy (validate ss)

  abbrev pub row_of_request : ℕ → ℕ → CreatePipelineRequest → ScoringPipelineModel fl C
  row_of_request id now req = record {
    id = id;
    name = req.name;
    description = req.description;
    scorers_config = req.scorers;
    is_active = true;
    created_at = now;
  }

  -- `create_pipeline`, with the id that is drawn and the time
  unfoldable pub create_pipeline :
      ℕ → ℕ → CreatePipelineRequest → Tx (ScoreDb fl C) PipelineResponse
  unfolding validate insert_pipeline pipeline_to_response
  create_pipeline id now req = do
    lift (validate req.scorers)
    pipeline ← insert_pipeline fl C (row_of_request id now req)
    pure (pipeline_to_response pipeline)

  -- `list_pipelines`
  unfoldable pub list_pipelines : Tx (ScoreDb fl C) (List PipelineResponse)
  unfolding pipeline_to_response
  list_pipelines = gets (λ (db : ScoreDb fl C).
      map pipeline_to_response
        (filter (λ (p : ScoringPipelineModel fl C). p.is_active) db.pipelines))

  abbrev pub find_pipeline :
      ℕ → List (ScoringPipelineModel fl C) → Option (ScoringPipelineModel fl C)
  find_pipeline id rows = find (λ (p : ScoringPipelineModel fl C). p.id == id) rows

  abbrev pub load_pipeline : ℕ → Tx (ScoreDb fl C) (ScoringPipelineModel fl C)
  load_pipeline id = do
    found ← gets (λ (db : ScoreDb fl C). find_pipeline id db.pipelines)
    some_or found (Exc.http 404 Exc.pipeline_not_found)

  -- `get_pipeline`
  unfoldable pub get_pipeline : ℕ → Tx (ScoreDb fl C) PipelineResponse
  unfolding pipeline_to_response
  get_pipeline pipeline_id = do
    pipeline ← load_pipeline pipeline_id
    pure (pipeline_to_response pipeline)

  abbrev pub sample_of : EvaluateRequest → Sample
  sample_of req = record {
    input_text = req.input_text;
    output_text = req.output_text;
    reference = req.reference_text;
  }

  abbrev pub result_row :
      ℕ
      → ℕ
      → ScoringPipelineModel fl C
      → EvaluateRequest
      → PipelineResult fl
      → ScoreResultModel fl C
  result_row id now p req r = record {
    id = id;
    pipeline_id = p.id;
    trace_id = req.trace_id;
    input_text = req.input_text;
    output_text = req.output_text;
    reference_text = req.reference_text;
    aggregate_score = r.aggregate_score;
    individual_scores = r.individual_scores;
    created_at = now;
  }

  -- The part of `evaluate` up to its commit, with the id that is drawn and the time.
  unfoldable pub evaluate_and_store :
      ℕ → ℕ → EvaluateRequest → Tx (ScoreDb fl C) (ScoringPipelineModel fl C × PipelineResult fl)
  unfolding run_pipeline insert_result
  evaluate_and_store id now req = do
    pipeline_model ← load_pipeline req.pipeline_id
    pipeline_result ← lift (run_pipeline fl registry pipeline_model.scorers_config (sample_of req))
    insert_result fl C (result_row id now pipeline_model req pipeline_result)
    pure (pipeline_model, pipeline_result)

  -- A call of `observability.score`.
  pub record Submission : Type 0 where
    pub trace_id : Str
    pub name : Str
    pub value : F
    pub comment : Option Str

  pub record World : Type 0 where
    pub db : ScoreDb fl C
    pub submitted : List Submission

  abbrev pub submission_of : Str → ScoreResult fl → Submission
  submission_of trace_id s = record {
    trace_id = trace_id;
    name = s.name;
    value = s.value;
    comment = s.comment;
  }

  abbrev pub aggregate_submission :
      ScoringPipelineModel fl C → EvaluateRequest → PipelineResult fl → Submission
  aggregate_submission p req r = record {
    trace_id = req.trace_id;
    name = codes "aggregate";
    value = r.aggregate_score;
    comment = some (codes "Pipeline: " ++ p.name);
  }

  -- What the endpoint submits: the scores, and the aggregate behind them.
  abbrev pub submissions :
      ScoringPipelineModel fl C → EvaluateRequest → PipelineResult fl → List Submission
  submissions p req r =
      map (submission_of req.trace_id) r.individual_scores ++ aggregate_submission p req r ∷ []

  -- `refuses` says which calls of the backend raise, and with what.
  module _ (refuses : Submission → Option Exc) where
    -- The calls of the backend, one after the other, up to one that raises.
    unfoldable pub submit_all : List Submission → World → Result (Unit {0}) × World
    submit_all [] w = (ok tt, w)
    submit_all (s ∷ ss) w = elim (refuses s) [
      | some e ↦ (err e, w)
      | none ↦ submit_all ss (record w { submitted = w.submitted ++ s ∷ [] })
    ]

    abbrev pub response_of :
        ScoringPipelineModel fl C → EvaluateRequest → PipelineResult fl → EvaluateResponse
    response_of p req r = record {
      trace_id = req.trace_id;
      pipeline_id = p.id;
      aggregate_score = r.aggregate_score;
      individual_scores = r.individual_scores;
    }

    answer : EvaluateResponse → Result (Unit {0}) × World → Result EvaluateResponse × World
    answer response (ok u, w) = (ok response, w)
    answer response (err e, w) = (err e, w)

    after_commit :
        EvaluateRequest
        → Result ((ScoringPipelineModel fl C × PipelineResult fl) × ScoreDb fl C)
        → World
        → Result EvaluateResponse × World
    unfolding submit_all answer
    after_commit req (err e) w = (err e, w)
    after_commit req (ok ((p, r), db)) w =
        answer (response_of p req r) (submit_all (submissions p req r) (record w { db = db }))

    -- `evaluate`
    unfoldable pub evaluate : ℕ → ℕ → EvaluateRequest → World → Result EvaluateResponse × World
    unfolding after_commit evaluate_and_store
    evaluate id now req w = after_commit req (evaluate_and_store id now req w.db) w

  abbrev pub entry_of : ScoreResultModel fl C → ResultEntry
  entry_of r = record {
    pipeline_id = r.pipeline_id;
    aggregate_score = r.aggregate_score;
    individual_scores = r.individual_scores;
    created_at = r.created_at;
  }

  -- `get_results`
  unfoldable pub get_results : Str → Tx (ScoreDb fl C) (List ResultEntry)
  get_results trace_id = gets (λ (db : ScoreDb fl C).
      map entry_of (filter (λ (r : ScoreResultModel fl C). r.trace_id == trace_id) db.results))
