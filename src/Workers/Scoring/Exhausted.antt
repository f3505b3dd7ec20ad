-- ===== src/Workers/Scoring/Exhausted.antt =====
-- A job that fails at every attempt.
use llmops_platform.Prelude.{
  append_four, ℕ, suc, ◌+◌, ◌≡◌, refl, ap, ◌∙◌, ◌≤◌, ◌<◌, none, some, List, [], ◌∷◌, ◌++◌, arith,
  Result, ok, err, Exc,
}
use llmops_platform.Prelude.Float.{Float}
use llmops_platform.Scoring.Base.{ScoreResult, PipelineResult}
use llmops_platform.Workers.Scoring.{
  Job, World, ScoreRow, Environment, process_job, on_failure, retry, give_up, push_or, finish_job,
  handle_loaded, handle_job_with_retry, run_round, run_worker, backoff, row_of, submit_all,
  submit_one, after_commit, after_pipeline, sample_of,
}
use llmops_platform.Workers.Scoring.Retry.{Frame, process_job-Frame, AlwaysFails}
use llmops_platform.Workers.Scoring.Drain.{run_worker_round, go_on}

append_three :
    (xs : List ℕ) (a b c : ℕ) → ((xs ++ a ∷ []) ++ b ∷ []) ++ c ∷ [] ≡ xs ++ a ∷ b ∷ c ∷ []
append_three [] a b c = refl
append_three (x ∷ xs) a b c = ap (λ (ys : List ℕ). x ∷ ys) (append_three xs a b c)

module _ (fl : Float) (C : Type 0) (env : Environment fl C) (j : Job fl C) where
  -- The job after `n` retries.
  abbrev pub at_retry : ℕ → Job fl C
  at_retry n = record j { retry_count = n }

  abbrev rows_after : ℕ → World fl C → List (ScoreRow fl C)
  rows_after n w = (process_job fl C env (at_retry n) (record w { queue = [] })).1.rows

  -- Redis takes and gives every job, and what it gives is a job.
  pub record IsReliable : Type 0 where
    pub pops : (n : ℕ) → env.pop_fails n ≡ none
    pub loads : (n : ℕ) → env.loads_fails n ≡ none
    pub pushes : (n : ℕ) → env.push_fails n ≡ none

  abbrev Counts : World fl C → World fl C → Type 0
  Counts w w' = (w'.done ≡ w.done) × (w'.attempts ≡ w.attempts + 1)

  abbrev Again : ℕ → World fl C → World fl C → Type 0
  Again n w w' =
      (w'.queue ≡ at_retry (n + 1) ∷ [])
      × (w'.dlq ≡ w.dlq)
      × (w'.sleeps ≡ w.sleeps ++ backoff fl C env (n + 1) ∷ [])
      × Counts w w'
      × (w'.rows ≡ rows_after n w)

  abbrev GivenUp : ℕ → World fl C → World fl C → Type 0
  GivenUp n w w' =
      (w'.queue ≡ [])
      × (w'.dlq ≡ w.dlq ++ at_retry n ∷ [])
      × (w'.sleeps ≡ w.sleeps)
      × Counts w w'
      × (w'.rows ≡ rows_after n w)

  finish-Again :
      (n : ℕ) (w w' : World fl C) (r : Result (Unit {0})) (x : Exc)
      → IsReliable
      → n < 3
      → r ≡ err x
      → Frame fl C env (record w { queue = [] }) w'
      → w'.rows ≡ rows_after n w
      → (u : World fl C) × (finish_job fl C env (at_retry n) (r, w') ≡ (ok tt, u)) × Again n w u
  unfolding finish_job on_failure retry push_or
  finish-Again n w w' r x reliable lt e frame rows =
      let pushed = reliable.pushes (w'.attempts + 1) in
      (
        record w' {
          attempts = w'.attempts + 1;
          sleeps = w'.sleeps ++ backoff fl C env (n + 1) ∷ [];
          queue = w'.queue ++ at_retry (n + 1) ∷ [];
        },
        ground arith,
        ground arith,
      )

  finish-GivenUp :
      (n : ℕ) (w w' : World fl C) (r : Result (Unit {0})) (x : Exc)
      → IsReliable
      → 3 ≤ n
      → r ≡ err x
      → Frame fl C env (record w { queue = [] }) w'
      → w'.rows ≡ rows_after n w
      → (u : World fl C) × (finish_job fl C env (at_retry n) (r, w') ≡ (ok tt, u)) × GivenUp n w u
  unfolding finish_job on_failure give_up push_or
  finish-GivenUp n w w' r x reliable le e frame rows =
      let pushed = reliable.pushes (w'.attempts + 1) in
      (
        record w' { attempts = w'.attempts + 1; dlq = w'.dlq ++ at_retry n ∷ [] },
        ground arith,
        ground arith,
      )

  module _ (reliable : IsReliable) (fails : AlwaysFails fl C env j) where
    abbrev round_at : ℕ → World fl C → Result (Unit {0}) × World fl C
    round_at n w = run_round fl C env (at_retry n ∷ []) w

    round_at-finish :
        (n : ℕ) (w : World fl C)
        → round_at n w
          ≡ finish_job fl C env
              (at_retry n)
              (process_job fl C env (at_retry n) (record w { queue = [] }))
    unfolding run_round handle_job_with_retry handle_loaded
    round_at-finish n w =
        ap (λ o. handle_loaded fl C env o (at_retry n) (record w { queue = [] }))
          (reliable.loads w.attempts)

    next-Again :
        (n : ℕ) (w : World fl C)
        → n < 3
        → (u : World fl C) × (round_at n w ≡ (ok tt, u)) × Again n w u
    next-Again n w lt =
        let w0 : World fl C = record w { queue = [] } in
        let (x, e) = fails n w0 in
        let (u, eq, again) =
          finish-Again n w ((process_job fl C env (at_retry n) w0).1)
            ((process_job fl C env (at_retry n) w0).0) x reliable lt e
            (process_job-Frame fl C env (at_retry n) w0) refl in
        (u, round_at-finish n w ∙ eq, again)

    next-GivenUp :
        (n : ℕ) (w : World fl C)
        → 3 ≤ n
        → (u : World fl C) × (round_at n w ≡ (ok tt, u)) × GivenUp n w u
    next-GivenUp n w le =
        let w0 : World fl C = record w { queue = [] } in
        let (x, e) = fails n w0 in
        let (u, eq, given_up) =
          finish-GivenUp n w ((process_job fl C env (at_retry n) w0).1)
            ((process_job fl C env (at_retry n) w0).0) x reliable le e
            (process_job-Frame fl C env (at_retry n) w0) refl in
        (u, round_at-finish n w ∙ eq, given_up)

    one_round :
        (n m : ℕ) (w u : World fl C)
        → w.queue ≡ at_retry m ∷ []
        → round_at m w ≡ (ok tt, u)
        → run_worker fl C env (suc n) w ≡ run_worker fl C env n u
    one_round n m w u e eq =
        run_worker_round fl C env n w (at_retry m ∷ []) (reliable.pops w.attempts) e
        ∙ ap (go_on fl C env n) eq

    -- The four rounds, and the worlds between them.
    record FourRounds (w : World fl C) : Type 0 where
      w1 : World fl C
      w2 : World fl C
      w3 : World fl C
      w4 : World fl C
      again1 : Again 0 w w1
      again2 : Again 1 w1 w2
      again3 : Again 2 w2 w3
      given_up : GivenUp 3 w3 w4
      runs : run_worker fl C env 4 w ≡ (ok tt, w4)

    four_rounds : (w : World fl C) → w.queue ≡ at_retry 0 ∷ [] → FourRounds w
    unfolding run_worker
    four_rounds w e =
        let (u1, e1, h1) = next-Again 0 w (omega arith) in
        let (u2, e2, h2) = next-Again 1 u1 (omega arith) in
        let (u3, e3, h3) = next-Again 2 u2 (omega arith) in
        let (u4, e4, h4) = next-GivenUp 3 u3 (omega arith) in
        record {
          w1 = u1;
          w2 = u2;
          w3 = u3;
          w4 = u4;
          again1 = h1;
          again2 = h2;
          again3 = h3;
          given_up = h4;
          runs =
              one_round 3 0 w u1 e e1
              ∙ one_round 2 1 u1 u2 h1.0 e2
              ∙ one_round 1 2 u2 u3 h2.0 e3
              ∙ one_round 0 3 u3 u4 h3.0 e4;
        }

    -- A new job that is alone on the queue and fails at every attempt is attempted exactly four times,
    -- with pauses of two, four and eight seconds between them, and then lies behind the dead letters,
    -- with three retries counted; it is waiting no more, and not counted as done. It is assumed that
    -- nothing outside the `try` of an attempt raises.
    pub run_worker-exhausted :
        (w : World fl C)
        → w.queue ≡ at_retry 0 ∷ []
        → let (r, w') = run_worker fl C env 4 w in
          (r ≡ ok tt)
          × (w'.queue ≡ [])
          × (w'.dlq ≡ w.dlq ++ at_retry 3 ∷ [])
          × (w'.sleeps ≡ w.sleeps ++ 2 ∷ 4 ∷ 8 ∷ [])
          × (w'.done ≡ w.done)
          × (w'.attempts ≡ w.attempts + 4)
    run_worker-exhausted w e =
        let f = four_rounds w e in
        let (q1, d1, s1, (n1, a1), r1) = f.again1 in
        let (q2, d2, s2, (n2, a2), r2) = f.again2 in
        let (q3, d3, s3, (n3, a3), r3) = f.again3 in
        let (q4, d4, s4, (n4, a4), r4) = f.given_up in
        rw f.runs (
          refl,
          q4,
          d4 ∙ ap (λ d. d ++ at_retry 3 ∷ []) (d3 ∙ d2 ∙ d1),
          s4
              ∙ s3
              ∙ ap (λ (t : List ℕ). t ++ 8 ∷ []) (s2 ∙ ap (λ (t : List ℕ). t ++ 4 ∷ []) s1)
              ∙ append_three w.sleeps 2 4 8,
          n4 ∙ n3 ∙ n2 ∙ n1,
          omega (arith, a1, a2, a3, a4),
        )

    -- Each attempt adds the row to the table.
    abbrev Adds : ScoreRow fl C → Type 0
    Adds row =
        (n : ℕ) (w : World fl C) → (process_job fl C env (at_retry n) w).1.rows ≡ w.rows ++ row ∷ []

    run_worker-rows :
        (w : World fl C) (row : ScoreRow fl C)
        → Adds row
        → w.queue ≡ at_retry 0 ∷ []
        → (run_worker fl C env 4 w).1.rows ≡ w.rows ++ row ∷ row ∷ row ∷ row ∷ []
    run_worker-rows w row adds e =
        let more : List (ScoreRow fl C) → List (ScoreRow fl C) = λ rows. rows ++ row ∷ [] in
        let f = four_rounds w e in
        let r1 = f.again1.4 ∙ adds 0 (record w { queue = [] }) in
        let r2 = f.again2.4 ∙ adds 1 (record f.w1 { queue = [] }) in
        let r3 = f.again3.4 ∙ adds 2 (record f.w2 { queue = [] }) in
        let r4 = f.given_up.4 ∙ adds 3 (record f.w3 { queue = [] }) in
        rw f.runs
          (r4 ∙ ap more (r3 ∙ ap more (r2 ∙ ap more r1)) ∙ append_four w.rows row row row row)

  -- The pipeline always gives the result, the commit goes well and the backend takes the scores,
  -- but cannot flush.
  pub record FlushFails (r : PipelineResult fl) : Type 0 where
    pub scores : (n : ℕ) → env.pipeline n j.scorers_config (sample_of fl C env j) ≡ ok r
    pub commits : (n : ℕ) → env.commit_fails n ≡ none
    pub submits : (n : ℕ) (s : ScoreResult fl) → env.submit_fails n s ≡ none
    pub flush : (n : ℕ) → (x : Exc) × (env.flush_fails n ≡ some x)

  submit_all_lem :
      (i : Job fl C) (r : PipelineResult fl) (f : FlushFails r) (ss : List (ScoreResult fl))
      (w : World fl C)
      → ((x : Exc) × ((submit_all fl C env i ss w).0 ≡ err x))
        × ((submit_all fl C env i ss w).1.rows ≡ w.rows)
  unfolding submit_all submit_one
  submit_all_lem i r f [] w = let (x, e) = f.flush w.attempts in ((x, ground arith), ground arith)
  submit_all_lem i r f (s ∷ ss) w =
      let taken = f.submits w.attempts s in
      let w' : World fl C = record w {
        submitted = w.submitted ++ record { trace_id = i.trace_id; score = s } ∷ [];
      } in
      let ((x, e), rows) = submit_all_lem i r f ss w' in ((x, ground arith), ground arith)

  process_job_lem :
      (r : PipelineResult fl) (f : FlushFails r) (n : ℕ) (w : World fl C)
      → ((x : Exc) × ((process_job fl C env (at_retry n) w).0 ≡ err x))
        × ((process_job fl C env (at_retry n) w).1.rows ≡ w.rows ++ row_of fl C env j r ∷ [])
  unfolding process_job after_pipeline after_commit
  process_job_lem r f n w =
      let scored = f.scores w.attempts in
      let committed = f.commits w.attempts in
      let w' : World fl C = record w { rows = w.rows ++ row_of fl C env j r ∷ [] } in
      let ((x, e), rows) = submit_all_lem (at_retry n) r f r.individual_scores w' in
      ((x, ground arith), ground arith)

  -- The result is committed before the scores go to the backend, and a retry starts again: a new
  -- job that is alone on the queue and whose scores the backend takes but cannot flush is written to
  -- the table four times over, and still ends up behind the dead letters. It is assumed that nothing
  -- outside the `try` of an attempt raises.
  pub run_worker-duplicates :
      (r : PipelineResult fl) (w : World fl C)
      → IsReliable
      → FlushFails r
      → w.queue ≡ at_retry 0 ∷ []
      → let w' = (run_worker fl C env 4 w).1 in
        let row = row_of fl C env j r in
        (w'.rows ≡ w.rows ++ row ∷ row ∷ row ∷ row ∷ []) × (w'.dlq ≡ w.dlq ++ at_retry 3 ∷ [])
  run_worker-duplicates r w reliable f e =
      let fails : AlwaysFails fl C env j = λ n u. (process_job_lem r f n u).0 in
      (
        run_worker-rows reliable fails w (row_of fl C env j r) (λ n u. (process_job_lem r f n u).1)
            e,
        (run_worker-exhausted reliable fails w e).2,
      )
