-- ===== src/Api/Scoring/Evaluated.antt =====
-- What an evaluation stores, submits and answers.
use llmops_platform.Prelude.{
  ℕ, ◌≡◌, refl, sym, ap, subst, ◌∙◌, ◌⊎◌, Bool, true, false, Option, none, some, List, [], ◌∷◌,
  ◌++◌, ◌==◌, nat_eq, string_eq, eq_iff, arith, find-append, any, Result, ok, err, Exc,
  Option-cases, Bool-cases, Result-cases, inl, inr, append_assoc, append-nil,
}
use llmops_platform.Prelude.Float.{Float}
use llmops_platform.Scoring.Base.{PipelineResult, ScorerRegistry}
use llmops_platform.Scoring.Pipeline.{run_pipeline}
use llmops_platform.Scoring.Pipeline.First.{outcome, run_pipeline-outcome}
use llmops_platform.Scoring.Rows.{
  ScoringPipelineModel, ScoreResultModel, ScoreDb, insert_result, result_conflict,
}
use llmops_platform.Api.Scoring.{
  CreatePipelineRequest, PipelineResponse, EvaluateRequest, EvaluateResponse, row_of_request,
  create_pipeline, find_pipeline, evaluate_and_store, sample_of, result_row, Submission, World,
  submissions, submit_all, response_of, answer, after_commit, evaluate,
}
use llmops_platform.Api.Scoring.Created.{
  validate-first_unknown, create_pipeline-row, no_conflict-find,
}

module _ (fl : Float) {C : Type 0} (registry : ScorerRegistry fl C)
    (refuses : Submission fl registry → Option Exc) where
  -- What becomes of calls of the backend: all are taken, or those before the first that raises.
  abbrev pub Submitted :
      List (Submission fl registry)
      → World fl registry
      → Result (Unit {0}) × World fl registry
      → Type 0
  Submitted ss w out =
      (out ≡ (ok tt, record w { submitted = w.submitted ++ ss }))
      ⊎ ((e : Exc) × (s : Submission fl registry) × (taken : List (Submission fl registry))
          × (left : List (Submission fl registry)) × (out
              ≡ (err e, record w { submitted = w.submitted ++ taken }))
          × (ss ≡ taken ++ s ∷ left)
          × (refuses s ≡ some e))

  submit_all-Submitted :
      (ss : List (Submission fl registry)) (w : World fl registry)
      → Submitted ss w (submit_all fl registry refuses ss w)
  unfolding submit_all
  submit_all-Submitted [] w = inl (ground (arith, append-nil w.submitted))
  submit_all-Submitted (s ∷ ss) w = elim (Option-cases (refuses s)) [
    | inr (e, bad) ↦ inr (e, s, [], ss, ground (arith, append-nil w.submitted), refl, bad)
    | inl good ↦
        let w' : World fl registry = record w { submitted = w.submitted ++ s ∷ [] } in
        let glue = append_assoc w.submitted (s ∷ []) in
        elim (submit_all-Submitted ss w') [
          | inl done ↦ inl (ground (arith, glue ss))
          | inr (e, t, taken, left, stopped, split, bad) ↦
              inr (e, t, s ∷ taken, left, ground (arith, glue taken), ap (λ ts. s ∷ ts) split, bad)
        ]
  ]

  -- What an evaluation leaves and answers: nothing is written where it raises before its commit;
  -- behind the commit, the row is there whatever the backend does.
  abbrev pub Evaluated :
      ℕ
      → ℕ
      → EvaluateRequest fl registry
      → World fl registry
      → Result (EvaluateResponse fl registry) × World fl registry
      → Type 0
  Evaluated id now req w out =
      ((e : Exc) × (out ≡ (err e, w)))
      ⊎ ((p : ScoringPipelineModel fl C) × (r : PipelineResult fl) × (find_pipeline fl registry
              req.pipeline_id w.db.pipelines
            ≡ some p)
          × (run_pipeline fl registry p.scorers_config (sample_of fl registry req) ≡ ok r)
          × (out.1.db ≡ record w.db {
            results = w.db.results ++ result_row fl registry id now p req r ∷ [];
          })
          × (((out.0 ≡ ok (response_of fl registry refuses p req r))
                × (out.1.submitted ≡ w.submitted ++ submissions fl registry p req r))
              ⊎ ((e : Exc) × (s : Submission fl registry) × (taken : List (Submission fl registry))
                  × (left : List (Submission fl registry)) × (out.0 ≡ err e)
                  × (out.1.submitted ≡ w.submitted ++ taken)
                  × (submissions fl registry p req r ≡ taken ++ s ∷ left)
                  × (refuses s ≡ some e))))

  after_commit-Evaluated :
      (id now : ℕ) (req : EvaluateRequest fl registry) (w : World fl registry)
      (p : ScoringPipelineModel fl C) (r : PipelineResult fl) (db : ScoreDb fl C)
      → find_pipeline fl registry req.pipeline_id w.db.pipelines ≡ some p
      → run_pipeline fl registry p.scorers_config (sample_of fl registry req) ≡ ok r
      → db ≡ record w.db { results = w.db.results ++ result_row fl registry id now p req r ∷ [] }
      → Evaluated id now req w (after_commit fl registry refuses req (ok ((p, r), db)) w)
  unfolding after_commit answer
  after_commit-Evaluated id now req w p r db found ran stored =
      let answered = λ (out : Result (Unit {0}) × World fl registry).
        Evaluated id now req w
          (answer fl registry refuses (response_of fl registry refuses p req r) out) in
      elim (submit_all-Submitted (submissions fl registry p req r) (record w { db = db })) [
        | inl done ↦ subst answered (sym done) (inr (p, r, found, ran, stored, inl (refl, refl)))
        | inr (e, s, taken, left, stopped, split, bad) ↦
            subst answered (sym stopped)
              (inr (p, r, found, ran, stored, inr (e, s, taken, left, refl, refl, split, bad)))
      ]

  store-cases :
      (id now : ℕ) (req : EvaluateRequest fl registry) (db : ScoreDb fl C)
      → ((e : Exc) × (evaluate_and_store fl registry id now req db ≡ err e))
        ⊎ ((p : ScoringPipelineModel fl C) × (r : PipelineResult fl) × (find_pipeline fl registry
                req.pipeline_id db.pipelines
              ≡ some p)
            × (run_pipeline fl registry p.scorers_config (sample_of fl registry req) ≡ ok r)
            × (evaluate_and_store fl registry id now req db
                ≡ ok (
                  (p, r),
                  record db { results = db.results ++ result_row fl registry id now p req r ∷ [] },
                )))
  unfolding evaluate_and_store insert_result
  store-cases id now req db =
      elim (Option-cases (find_pipeline fl registry req.pipeline_id db.pipelines)) [
        | inl missing ↦ inl (Exc.http 404 Exc.pipeline_not_found, ground arith)
        | inr (p, found) ↦
            elim (Result-cases
              (run_pipeline fl registry p.scorers_config (sample_of fl registry req))) [
                | inl (e, bad) ↦ inl (e, ground arith)
                | inr (r, ran) ↦ elim (Bool-cases (result_conflict fl C id p.id db)) [
                  | inl taken ↦ inl (Exc.integrity_error, ground arith)
                  | inr free ↦ inr (p, r, found, ran, ground arith)
                ]
              ]
      ]

  -- An evaluation that raises before its commit, for a pipeline that is not there or for any other
  -- reason, changes nothing and submits nothing. Otherwise the pipeline has been found and run, and
  -- one row with its result is added, whatever follows. Then either every score and behind them the
  -- aggregate are submitted, in their order, and the answer has the same scores as the row; or the
  -- backend raises at one of them, those before it are submitted, and the caller gets the exception
  -- while the row stays.
  pub evaluate-Evaluated :
      (id now : ℕ) (req : EvaluateRequest fl registry) (w : World fl registry)
      → Evaluated id now req w (evaluate fl registry refuses id now req w)
  unfolding evaluate after_commit
  evaluate-Evaluated id now req w =
      let reached = λ (x : Result ((ScoringPipelineModel fl C × PipelineResult fl) × ScoreDb fl C)).
        Evaluated id now req w (after_commit fl registry refuses req x w) in
      elim (store-cases id now req w.db) [
        | inl (e, bad) ↦ subst reached (sym bad) (inl (e, refl))
        | inr (p, r, found, ran, good) ↦ subst reached (sym good) (
            after_commit-Evaluated id now req w p r
              (record w.db { results = w.db.results ++ result_row fl registry id now p req r ∷ [] })
              found ran refl)
      ]

  accepted-Submitted :
      (ss : List (Submission fl registry)) (w : World fl registry)
      → ((s : Submission fl registry) → refuses s ≡ none)
      → submit_all fl registry refuses ss w ≡ (ok tt, record w { submitted = w.submitted ++ ss })
  accepted-Submitted ss w accepts = elim (submit_all-Submitted ss w) [
    | inl done ↦ done
    | inr (e, s, taken, left, stopped, split, bad) ↦ let good = accepts s in absurd (cc)
  ]

  any-append_self :
      {A : Type 0} (q : A → Bool) (xs : List A) (a : A) → q a ≡ true → any q (xs ++ a ∷ []) ≡ true
  any-append_self q [] a h = ground arith
  any-append_self q (x ∷ xs) a h = ground (arith, any-append_self q xs a h)

  -- A pipeline that `create_pipeline` has accepted can be evaluated at once, with the same scorers
  -- registered and a backend that takes every score: it is never refused for a strategy. The id that
  -- is drawn for the row is assumed to be free.
  pub evaluate-create_pipeline :
      (id now : ℕ) (created : CreatePipelineRequest fl registry)
      (response : PipelineResponse fl registry) (rid : ℕ) (req : EvaluateRequest fl registry)
      (w : World fl registry) (db' : ScoreDb fl C)
      → create_pipeline fl registry id now created w.db ≡ ok (response, db')
      → req.pipeline_id ≡ id
      → any (λ (r : ScoreResultModel fl C). r.id == rid) w.db.results ≡ false
      → ((s : Submission fl registry) → refuses s ≡ none)
      → (answered : EvaluateResponse fl registry) × ((evaluate fl registry refuses rid now req
            (record w { db = db' })).0
          ≡ ok answered)
  unfolding evaluate after_commit answer evaluate_and_store insert_result result_conflict
  evaluate-create_pipeline id now created response rid req w db' h same free accepts =
      let p = row_of_request fl registry id now created in
      let (good, unique, r, added) =
        create_pipeline-row fl registry id now created w.db db' response h in
      let found : find_pipeline fl registry req.pipeline_id db'.pipelines ≡ some p = ground (
        arith,
        eq_iff id id,
        no_conflict-find fl registry id created.name w.db.pipelines unique,
        find-append (λ (q : ScoringPipelineModel fl C). q.id == id) w.db.pipelines (p ∷ []),
      ) in
      let known =
        any-append_self (λ (q : ScoringPipelineModel fl C). q.id == id) w.db.pipelines p
          (ground (arith, eq_iff id id)) in
      let fits : result_conflict fl C rid p.id db' ≡ false = ground arith in
      let o = outcome fl registry in
      let ran =
        run_pipeline-outcome fl registry created.scorers (sample_of fl registry req)
        ∙ ap (λ u. o u created.scorers (sample_of fl registry req))
            (validate-first_unknown fl registry created.scorers good) in
      elim (Result-cases (run_pipeline fl registry created.scorers (sample_of fl registry req))) [
        | inl (e, bad) ↦ absurd (cc)
        | inr (r, ran_ok) ↦
            let db2 : ScoreDb fl C = record db' {
              results = db'.results ++ result_row fl registry rid now p req r ∷ [];
            } in
            let stored : evaluate_and_store fl registry rid now req db' ≡ ok ((p, r), db2) =
              ground arith in
            let taken =
              accepted-Submitted (submissions fl registry p req r) (record w { db = db2 })
                accepts in
            (response_of fl registry refuses p req r, ground arith)
      ]
