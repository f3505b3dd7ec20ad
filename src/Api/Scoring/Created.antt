-- ===== src/Api/Scoring/Created.antt =====
-- What becomes of a pipeline that `create_pipeline` has accepted.
use llmops_platform.Prelude.{
  ℕ, ◌≡◌, refl, Str, true, false, none, some, List, [], ◌∷◌, ◌++◌, ◌==◌, nat_eq, string_eq, eq_iff,
  arith, contains, contains-In, In, find-append, filter, map, ok, Option-cases, Bool-cases,
  Result-cases, inl, inr, In-map, In-append_right, In-filter,
}
use llmops_platform.Prelude.Dict.{lookup}
use llmops_platform.Prelude.Float.{Float}
use llmops_platform.Scoring.Base.{ScorerConfig, ScorerRegistry, list_scorers}
use llmops_platform.Scoring.Pipeline.First.{first_unknown}
use llmops_platform.Scoring.Rows.{ScoringPipelineModel, ScoreDb, insert_pipeline, pipeline_conflict}
use llmops_platform.Api.Scoring.{
  CreatePipelineRequest, PipelineResponse, pipeline_to_response, validate_one, validate,
  row_of_request, create_pipeline, list_pipelines, find_pipeline, get_pipeline,
}

module _ (fl : Float) {C : Type 0} (registry : ScorerRegistry fl C) where
  In-names-lookup :
      (s : Str) (r : ScorerRegistry fl C) → In s (list_scorers fl r) → lookup s r ≡ none → ⊥
  unfolding list_scorers lookup
  In-names-lookup s [] m h = m
  In-names-lookup s ((j, v) ∷ r) (inl e) h = ground (arith, eq_iff s j)
  In-names-lookup s ((j, v) ∷ r) (inr m) h = ground (arith, In-names-lookup s r m)

  -- What is validated has no strategy that is not registered.
  pub validate-first_unknown :
      (ss : List (ScorerConfig fl C))
      → validate fl registry ss ≡ ok tt
      → first_unknown fl registry ss ≡ none
  unfolding validate validate_one
  validate-first_unknown [] h = refl
  validate-first_unknown (s ∷ ss) h =
      elim (Bool-cases (contains (list_scorers fl registry) s.strategy)) [
        | inr e ↦ absurd (ground arith)
        | inl e ↦ elim (Option-cases (lookup s.strategy registry)) [
          | inl missing ↦ absurd (
              In-names-lookup s.strategy registry
                (contains-In (list_scorers fl registry) s.strategy e) missing)
          | inr (scorer, found) ↦ ground (arith, validate-first_unknown ss)
        ]
      ]

  -- A call of `create_pipeline` that returns has validated the scorers and added its row.
  pub create_pipeline-row :
      (id now : ℕ) (req : CreatePipelineRequest fl registry) (db db' : ScoreDb fl C)
      (response : PipelineResponse fl registry)
      → create_pipeline fl registry id now req db ≡ ok (response, db')
      → let p = row_of_request fl registry id now req in
        (validate fl registry req.scorers ≡ ok tt)
        × (pipeline_conflict fl C id req.name db.pipelines ≡ false)
        × (response ≡ pipeline_to_response fl registry p)
        × (db' ≡ record db { pipelines = db.pipelines ++ p ∷ [] })
  unfolding create_pipeline insert_pipeline
  create_pipeline-row id now req db db' response h =
      elim (Result-cases (validate fl registry req.scorers)) [
        | inl (x, bad) ↦ absurd (ground arith)
        | inr (u, good) ↦ elim (Bool-cases (pipeline_conflict fl C id req.name db.pipelines)) [
          | inl taken ↦ absurd (ground arith)
          | inr free ↦ (good, free, ground arith, ground arith)
        ]
      ]

  pub no_conflict-find :
      (id : ℕ) (name : Str) (rows : List (ScoringPipelineModel fl C))
      → pipeline_conflict fl C id name rows ≡ false
      → find_pipeline fl registry id rows ≡ none
  unfolding pipeline_conflict
  no_conflict-find id name [] h = refl
  no_conflict-find id name (p ∷ rows) h = ground (arith, no_conflict-find id name rows)

  -- A pipeline that is created is read back under its id with the name, the description and the
  -- scorers of the request, in their order, and is active; it is listed. Whatever pipeline was there
  -- before is read as before.
  pub get_pipeline-create_pipeline :
      (id now : ℕ) (req : CreatePipelineRequest fl registry) (db db' : ScoreDb fl C)
      (response : PipelineResponse fl registry)
      → create_pipeline fl registry id now req db ≡ ok (response, db')
      → (response ≡ record {
        id = id;
        name = req.name;
        description = req.description;
        scorers = req.scorers;
        is_active = true;
        created_at = now;
      })
        × (get_pipeline fl registry id db' ≡ ok (response, db'))
        × ((rs : List (PipelineResponse fl registry)) × (list_pipelines fl registry db'
              ≡ ok (rs, db'))
            × In response rs)
        × ((j : ℕ) (old : PipelineResponse fl registry)
            → get_pipeline fl registry j db ≡ ok (old, db)
            → get_pipeline fl registry j db' ≡ ok (old, db'))
  unfolding get_pipeline list_pipelines pipeline_to_response
  get_pipeline-create_pipeline id now req db db' response h =
      let p = row_of_request fl registry id now req in
      let (good, free, same, added) = create_pipeline-row id now req db db' response h in
      let found : find_pipeline fl registry id db'.pipelines ≡ some p = ground (
        arith,
        no_conflict-find id req.name db.pipelines free,
        find-append (λ (q : ScoringPipelineModel fl C). q.id == id) db.pipelines (p ∷ []),
      ) in
      (
        same,
        ground arith,
        (
          map (pipeline_to_response fl registry)
              (filter (λ (q : ScoringPipelineModel fl C). q.is_active) db'.pipelines),
          refl,
          rw same (
              rw added (
                In-map (pipeline_to_response fl registry) p
                  (filter (λ (q : ScoringPipelineModel fl C). q.is_active) (db.pipelines ++ p ∷ []))
                  (In-filter (λ (q : ScoringPipelineModel fl C). q.is_active) p
                    (db.pipelines ++ p ∷ []) (In-append_right db.pipelines (p ∷ []) p (inl refl))
                    refl))),
        ),
        λ j old was. elim (Option-cases (find_pipeline fl registry j db.pipelines)) [
          | inl e ↦ absurd (ground arith)
          | inr (q, e) ↦ ground (
            arith,
            find-append (λ (q : ScoringPipelineModel fl C). q.id == j) db.pipelines (p ∷ []),
          )
        ],
      )
