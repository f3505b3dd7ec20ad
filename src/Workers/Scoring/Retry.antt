-- ===== src/Workers/Scoring/Retry.antt =====
-- What becomes of one job.
use llmops_platform.Prelude.{
  ℕ, ◌+◌, ◌≡◌, refl, sym, ap, subst, ◌≤◌, ◌<◌, ◌⊎◌, inl, inr, Option, none, some, List, [], ◌∷◌,
  ◌++◌, ltb, arith, Result, ok, err, Exc, Bool-cases, Option-cases,
}
use llmops_platform.Prelude.Float.{Float}
use llmops_platform.Scoring.Base.{ScoreResult, PipelineResult}
use llmops_platform.Workers.Scoring.{
  Job, World, Environment, row_of, submit_one, submit_all, after_commit, after_pipeline,
  process_job, on_failure, retry, give_up, push_or, finish_job, handle_loaded,
  handle_job_with_retry, backoff, sample_of,
}

module _ (fl : Float) (C : Type 0) (env : Environment fl C) where
  -- What an attempt leaves alone.
  abbrev pub Frame : World fl C → World fl C → Type 0
  Frame w w' =
      (w'.queue ≡ w.queue)
      × (w'.dlq ≡ w.dlq)
      × (w'.sleeps ≡ w.sleeps)
      × (w'.attempts ≡ w.attempts)
      × (w'.done ≡ w.done)

  submit_all-Frame :
      (j : Job fl C) (ss : List (ScoreResult fl)) (w : World fl C)
      → Frame w ((submit_all fl C env j ss w).1) × ((submit_all fl C env j ss w).1.rows ≡ w.rows)
  unfolding submit_all submit_one
  submit_all-Frame j [] w = elim (Option-cases (env.flush_fails w.attempts)) [
    | inl e ↦ ground arith
    | inr (x, e) ↦ ground arith
  ]
  submit_all-Frame j (s ∷ ss) w =
      let w' : World fl C = record w {
        submitted = w.submitted ++ record { trace_id = j.trace_id; score = s } ∷ [];
      } in
      let rest = submit_all-Frame j ss w' in
      elim (Option-cases (env.submit_fails w.attempts s)) [
        | inr (x, e) ↦ ground arith
        | inl e ↦ ground (arith, rest)
      ]

  after_commit-Frame :
      (o : Option Exc) (j : Job fl C) (r : PipelineResult fl) (w : World fl C)
      → Frame w ((after_commit fl C env o j r w).1)
  unfolding after_commit
  after_commit-Frame (some e) j r w = ground arith
  after_commit-Frame none j r w =
      let w' : World fl C = record w { rows = w.rows ++ row_of fl C env j r ∷ [] } in
      (submit_all-Frame j r.individual_scores w').0

  after_pipeline-Frame :
      (o : Result (PipelineResult fl)) (j : Job fl C) (w : World fl C)
      → Frame w ((after_pipeline fl C env o j w).1)
  unfolding after_pipeline
  after_pipeline-Frame (err e) j w = ground arith
  after_pipeline-Frame (ok r) j w = after_commit-Frame (env.commit_fails w.attempts) j r w

  pub process_job-Frame : (j : Job fl C) (w : World fl C) → Frame w ((process_job fl C env j w).1)
  unfolding process_job
  process_job-Frame j w =
      after_pipeline-Frame (env.pipeline w.attempts j.scorers_config (sample_of fl C env j)) j w

  abbrev pub retried : Job fl C → Job fl C
  retried j = record j { retry_count = j.retry_count + 1 }

  -- What raises outside the `try` of an attempt.
  abbrev pub EscapesWith : Exc → Type 0
  EscapesWith x = (n : ℕ) × ((env.loads_fails n ≡ some x) ⊎ (env.push_fails n ≡ some x))

  -- Where a job is after an attempt: done, behind the queue with one retry more and a pause of two
  -- seconds that doubles with each retry, or, after three retries, behind the dead letters; or
  -- nowhere, where something raises outside the `try`.
  pub data Handled (j : Job fl C) (w : World fl C) : Result (Unit {0}) × World fl C → Type 0 where
    succeeded :
        (w' : World fl C)
        → w'.attempts ≡ w.attempts + 1
        → w'.queue ≡ w.queue
        → w'.dlq ≡ w.dlq
        → w'.done ≡ w.done ++ j ∷ []
        → w'.sleeps ≡ w.sleeps
        → Handled j w (ok tt, w')
    put_back :
        (w' : World fl C)
        → j.retry_count < 3
        → w'.attempts ≡ w.attempts + 1
        → w'.queue ≡ w.queue ++ retried j ∷ []
        → w'.dlq ≡ w.dlq
        → w'.done ≡ w.done
        → w'.sleeps ≡ w.sleeps ++ backoff fl C env (j.retry_count + 1) ∷ []
        → Handled j w (ok tt, w')
    given_up :
        (w' : World fl C)
        → 3 ≤ j.retry_count
        → w'.attempts ≡ w.attempts + 1
        → w'.queue ≡ w.queue
        → w'.dlq ≡ w.dlq ++ j ∷ []
        → w'.done ≡ w.done
        → w'.sleeps ≡ w.sleeps
        → Handled j w (ok tt, w')
    lost :
        (x : Exc) (w' : World fl C)
        → EscapesWith x
        → w'.queue ≡ w.queue
        → w'.dlq ≡ w.dlq
        → w'.done ≡ w.done
        → Handled j w (err x, w')

  failed-Handled :
      (j : Job fl C) (w w' : World fl C)
      → Frame w w'
      → Handled j w (on_failure fl C env j (record w' { attempts = w'.attempts + 1 }))
  unfolding on_failure retry give_up push_or
  failed-Handled j w w' (q, d, s, a, n) =
      let after : World fl C = record w' { attempts = w'.attempts + 1 } in
      let slept : World fl C = record after {
        sleeps = w'.sleeps ++ backoff fl C env (j.retry_count + 1) ∷ [];
      } in
      let out = on_failure fl C env j after in
      elim (Bool-cases (ltb j.retry_count 3)) [
        | inl more ↦ elim (Option-cases (env.push_fails (w'.attempts + 1))) [
          | inl pushed ↦
              let put : World fl C = record slept { queue = w'.queue ++ retried j ∷ [] } in
              let eq : out ≡ (ok tt, put) = ground arith in
              subst (Handled j w) (sym eq) (
                put_back put (ground arith) (omega (arith, a)) (ap (λ t. t ++ retried j ∷ []) q) d n
                  (ap (λ t. t ++ backoff fl C env (j.retry_count + 1) ∷ []) s))
          | inr (x, bad) ↦
              let eq : out ≡ (err x, slept) = ground arith in
              subst (Handled j w) (sym eq) (lost x slept (w'.attempts + 1, inr bad) q d n)
        ]
        | inr no_more ↦ elim (Option-cases (env.push_fails (w'.attempts + 1))) [
          | inl pushed ↦
              let put : World fl C = record after { dlq = w'.dlq ++ j ∷ [] } in
              let eq : out ≡ (ok tt, put) = ground arith in
              subst (Handled j w) (sym eq)
                (given_up put (ground arith) (omega (arith, a)) q (ap (λ t. t ++ j ∷ []) d) n s)
          | inr (x, bad) ↦
              let eq : out ≡ (err x, after) = ground arith in
              subst (Handled j w) (sym eq) (lost x after (w'.attempts + 1, inr bad) q d n)
        ]
      ]

  finish_job-Handled :
      (j : Job fl C) (w w' : World fl C) (r : Result (Unit {0}))
      → Frame w w'
      → Handled j w (finish_job fl C env j (r, w'))
  unfolding finish_job
  finish_job-Handled j w w' (ok u) (q, d, s, a, n) =
      succeeded (record w' { attempts = w'.attempts + 1; done = w'.done ++ j ∷ [] })
        (omega (arith, a)) q d (ap (λ t. t ++ j ∷ []) n) s
  finish_job-Handled j w w' (err e) frame = failed-Handled j w w' frame

  handle_loaded-Handled :
      (o : Option Exc) (j : Job fl C) (w : World fl C)
      → env.loads_fails w.attempts ≡ o
      → Handled j w (handle_loaded fl C env o j w)
  unfolding handle_loaded
  handle_loaded-Handled (some x) j w bad = lost x w (w.attempts, inl bad) refl refl refl
  handle_loaded-Handled none j w good =
      finish_job-Handled j w ((process_job fl C env j w).1) ((process_job fl C env j w).0)
        (process_job-Frame j w)

  pub handle_job-Handled :
      (j : Job fl C) (w : World fl C) → Handled j w (handle_job_with_retry fl C env j w)
  unfolding handle_job_with_retry
  handle_job-Handled j w = handle_loaded-Handled (env.loads_fails w.attempts) j w refl

  -- No attempt at the job succeeds.
  abbrev pub AlwaysFails : Job fl C → Type 0
  AlwaysFails j =
      (n : ℕ) (w : World fl C)
      → (x : Exc) × ((process_job fl C env (record j { retry_count = n }) w).0 ≡ err x)
