-- ===== src/Scoring/Rows.antt =====
-- db/models/score.py: the two tables of the scoring engine, with the constraints that they declare. The
-- metadata of a result are left out; `C` are the configurations of scorers.
use llmops_platform.Prelude.{
  ℕ, Str, Bool, not, ◌||◌, Option, List, [], ◌∷◌, ◌++◌, ◌==◌, nat_eq, string_eq, any, Exc,
}
use llmops_platform.Prelude.Float.{Float}
use llmops_platform.Prelude.Tx.{Tx, pure, gets, modify, raise_if, ◌>>=◌, ◌>>◌}
use llmops_platform.Scoring.Base.{ScorerConfig, ScoreResult}

module _ (fl : Float) (C : Type 0) where
  pub record ScoringPipelineModel : Type 0 where
    pub id : ℕ
    pub name : Str
    pub description : Str
    pub scorers_config : List (ScorerConfig fl C)
    pub is_active : Bool
    pub created_at : ℕ

  pub record ScoreResultModel : Type 0 where
    pub id : ℕ
    pub pipeline_id : ℕ
    pub trace_id : Str
    pub input_text : Str
    pub output_text : Str
    pub reference_text : Option Str
    pub aggregate_score : fl.F
    pub individual_scores : List (ScoreResult fl)
    pub created_at : ℕ

  pub record ScoreDb : Type 0 where
    pub pipelines : List ScoringPipelineModel
    pub results : List ScoreResultModel

  -- The primary key and the unique name.
  unfoldable pub pipeline_conflict : ℕ → Str → List ScoringPipelineModel → Bool
  pipeline_conflict id name rows =
      any (λ (p : ScoringPipelineModel). p.id == id || p.name == name) rows

  -- The primary key, and the foreign key to the pipelines.
  unfoldable pub result_conflict : ℕ → ℕ → ScoreDb → Bool
  result_conflict id pipeline_id db =
      any (λ (r : ScoreResultModel). r.id == id) db.results
      || not (any (λ (p : ScoringPipelineModel). p.id == pipeline_id) db.pipelines)

  unfoldable pub insert_pipeline : ScoringPipelineModel → Tx ScoreDb ScoringPipelineModel
  unfolding pipeline_conflict
  insert_pipeline p = do
    pipelines ← gets (λ (db : ScoreDb). db.pipelines)
    raise_if (pipeline_conflict p.id p.name pipelines) Exc.integrity_error
    modify (λ (db : ScoreDb). record db { pipelines = db.pipelines ++ p ∷ [] })
    pure p

  unfoldable pub insert_result : ScoreResultModel → Tx ScoreDb ScoreResultModel
  unfolding result_conflict
  insert_result r = do
    db ← gets (λ (db : ScoreDb). db)
    raise_if (result_conflict r.id r.pipeline_id db) Exc.integrity_error
    modify (λ (db : ScoreDb). record db { results = db.results ++ r ∷ [] })
    pure r
