-- ===== src/Scoring/Repository.antt =====
-- db/repositories/score.py: `ScoreRepository`. An insert is flushed with the constraints of its table.
use llmops_platform.Prelude.{ℕ, Str, Option, List, ◌==◌, nat_eq, string_eq, find, filter}
use llmops_platform.Prelude.Float.{Float}
use llmops_platform.Prelude.Tx.{Tx, gets}
use llmops_platform.Scoring.Rows.{
  ScoringPipelineModel, ScoreResultModel, ScoreDb, insert_pipeline, insert_result,
}

module _ (fl : Float) {C : Type 0} where
  unfoldable pub get_pipeline_by_id : ℕ → Tx (ScoreDb fl C) (Option (ScoringPipelineModel fl C))
  get_pipeline_by_id pipeline_id = gets (λ (db : ScoreDb fl C).
      find (λ (p : ScoringPipelineModel fl C). p.id == pipeline_id) db.pipelines)

  unfoldable pub get_pipeline_by_name : Str → Tx (ScoreDb fl C) (Option (ScoringPipelineModel fl C))
  get_pipeline_by_name name =
      gets (λ (db : ScoreDb fl C).
        find (λ (p : ScoringPipelineModel fl C). p.name == name) db.pipelines)

  unfoldable pub list_active_pipelines : Tx (ScoreDb fl C) (List (ScoringPipelineModel fl C))
  list_active_pipelines =
      gets (λ (db : ScoreDb fl C).
        filter (λ (p : ScoringPipelineModel fl C). p.is_active) db.pipelines)

  unfoldable pub create_pipeline :
      ScoringPipelineModel fl C → Tx (ScoreDb fl C) (ScoringPipelineModel fl C)
  unfolding insert_pipeline
  create_pipeline p = insert_pipeline fl C p

  unfoldable pub get_results_by_trace : Str → Tx (ScoreDb fl C) (List (ScoreResultModel fl C))
  get_results_by_trace trace_id = gets (λ (db : ScoreDb fl C).
      filter (λ (r : ScoreResultModel fl C). r.trace_id == trace_id) db.results)

  unfoldable pub create_result : ScoreResultModel fl C → Tx (ScoreDb fl C) (ScoreResultModel fl C)
  unfolding insert_result
  create_result r = insert_result fl C r
