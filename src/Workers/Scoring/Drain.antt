-- ===== src/Workers/Scoring/Drain.antt =====
-- What becomes of the whole queue.
use llmops_platform.Prelude.{
  ℕ, zero, suc, ◌+◌, ◌-◌, ◌≡◌, refl, ap, sym, subst, ◌∙◌, ◌≤◌, ◌<◌, inl, inr, List, [], ◌∷◌, ◌++◌,
  arith, Result, ok, err, Exc, none, some, Option-cases, sum_by,
}
use llmops_platform.Prelude.Float.{Float}
use llmops_platform.Workers.Scoring.{
  Job, World, Environment, handle_job_with_retry, run_round, run_worker, run_popped,
}
use llmops_platform.Workers.Scoring.Retry.{
  retried, Handled, succeeded, put_back, given_up, lost, EscapesWith, handle_job-Handled,
}

module _ (fl : Float) (C : Type 0) (env : Environment fl C) where
  -- The attempts that a job may still have: one, and one for each retry that is left.
  abbrev pub attempts_left : Job fl C → ℕ
  attempts_left j = suc (3 - j.retry_count)

  abbrev pub work : List (Job fl C) → ℕ
  work q = sum_by attempts_left q

  work-append : (p q : List (Job fl C)) → work (p ++ q) ≡ work p + work q
  work-append [] q = omega arith
  work-append (j ∷ p) q = omega (arith, work-append p q)

  abbrev pub Measure : Type 0
  Measure = Job fl C → ℕ

  -- What does not look at the number of retries.
  abbrev pub IgnoresRetries : Measure → Type 0
  IgnoresRetries f = (j : Job fl C) (n : ℕ) → f (record j { retry_count = n }) ≡ f j

  -- A measure of the jobs that are somewhere: waiting, dead or done.
  abbrev pub total : Measure → World fl C → ℕ
  total f w = sum_by f w.queue + (sum_by f w.dlq + sum_by f w.done)

  -- The jobs are the same, each as often, but for their retries: no measure tells them apart.
  abbrev pub SameJobs : World fl C → World fl C → Type 0
  SameJobs w w' = (f : Measure) → IgnoresRetries f → total f w' ≡ total f w

  -- The same, less one job.
  abbrev pub SameJobsBut : Job fl C → World fl C → World fl C → Type 0
  SameJobsBut j w w' = (f : Measure) → IgnoresRetries f → f j + total f w' ≡ total f w

  sum_by-append :
      (f : Measure) (p q : List (Job fl C)) → sum_by f (p ++ q) ≡ sum_by f p + sum_by f q
  sum_by-append f [] q = omega arith
  sum_by-append f (j ∷ p) q = omega (arith, sum_by-append f p q)

  -- How a round with a job goes.
  data Round (w : World fl C) : Result (Unit {0}) × World fl C → Type 0 where
    went_on :
        (w' : World fl C)
        → SameJobs w w'
        → w'.attempts + work w'.queue ≤ w.attempts + work w.queue
        → work w'.queue < work w.queue
        → Round w (ok tt, w')
    lost_job :
        (j : Job fl C) (x : Exc) (w' : World fl C)
        → EscapesWith fl C env x
        → SameJobsBut j w w'
        → Round w (err x, w')

  Handled-Round :
      (j : Job fl C) (q : List (Job fl C)) (w : World fl C) (out : Result (Unit {0}) × World fl C)
      → w.queue ≡ j ∷ q
      → Handled fl C env j (record w { queue = q }) out
      → Round w out
  Handled-Round j q w _ e (succeeded w' a qe de ne se) =
      went_on w' (λ f same. rw (e, qe, de, ne) (omega (arith, sum_by-append f w.done (j ∷ []))))
        (rw (e, qe) (omega (arith, a))) (rw (e, qe) (omega arith))
  Handled-Round j q w _ e (put_back w' lt a qe de ne se) =
      let again = retried fl C env j in
      went_on w'
        (λ f same.
          rw (e, qe, de, ne)
            (omega (arith, sum_by-append f q (again ∷ []), same j (j.retry_count + 1))))
        (rw (e, qe) (omega (arith, a, work-append q (again ∷ []), lt)))
        (rw (e, qe) (omega (arith, work-append q (again ∷ []), lt)))
  Handled-Round j q w _ e (given_up w' le a qe de ne se) =
      went_on w' (λ f same. rw (e, qe, de, ne) (omega (arith, sum_by-append f w.dlq (j ∷ []))))
        (rw (e, qe) (omega (arith, a))) (rw (e, qe) (omega arith))
  Handled-Round j q w _ e (lost x w' escapes qe de ne) =
      lost_job j x w' escapes (λ f same. rw (e, qe, de, ne) (omega arith))

  -- How the worker ends up: with an empty queue and every job done or dead; or it is ended by an
  -- exception, at the next pop or with the job in hand lost.
  pub data Drained (w : World fl C) : Result (Unit {0}) × World fl C → Type 0 where
    emptied :
        (w' : World fl C)
        → w'.queue ≡ []
        → SameJobs w w'
        → w'.attempts ≤ w.attempts + work w.queue
        → Drained w (ok tt, w')
    ended_at_pop :
        (n : ℕ) (x : Exc) (w' : World fl C)
        → env.pop_fails n ≡ some x
        → SameJobs w w'
        → Drained w (err x, w')
    ended_with_loss :
        (j : Job fl C) (x : Exc) (w' : World fl C)
        → EscapesWith fl C env x
        → SameJobsBut j w w'
        → Drained w (err x, w')

  -- The rounds behind a round that went on.
  Drained-after :
      (w w1 : World fl C) (out : Result (Unit {0}) × World fl C)
      → SameJobs w w1
      → w1.attempts + work w1.queue ≤ w.attempts + work w.queue
      → Drained w1 out
      → Drained w out
  Drained-after w w1 _ same le (emptied w' e more bound) =
      emptied w' e (λ f ig. more f ig ∙ same f ig) (omega (arith, bound, le))
  Drained-after w w1 _ same le (ended_at_pop n x w' bad more) =
      ended_at_pop n x w' bad (λ f ig. more f ig ∙ same f ig)
  Drained-after w w1 _ same le (ended_with_loss j x w' escapes more) =
      ended_with_loss j x w' escapes (λ f ig. more f ig ∙ same f ig)

  -- The loop, from what a round gives.
  abbrev pub go_on : ℕ → Result (Unit {0}) × World fl C → Result (Unit {0}) × World fl C
  go_on n (ok u, w) = run_worker fl C env n w
  go_on n (err x, w) = (err x, w)

  go_on-elim :
      (n : ℕ) (out : Result (Unit {0}) × World fl C)
      → (elim (out.0) [ ok u ↦ run_worker fl C env n (out.1) | err x ↦ (err x, out.1) ])
        ≡ go_on n out
  go_on-elim n (ok u, w) = refl
  go_on-elim n (err x, w) = refl

  run_worker_step :
      (n : ℕ) (w : World fl C)
      → run_worker fl C env (suc n) w ≡ go_on n (run_popped fl C env (env.pop_fails w.attempts) w)
  unfolding run_worker
  run_worker_step n w = go_on-elim n (run_popped fl C env (env.pop_fails w.attempts) w)

  pub run_worker_round :
      (n : ℕ) (w : World fl C) (q : List (Job fl C))
      → env.pop_fails w.attempts ≡ none
      → w.queue ≡ q
      → run_worker fl C env (suc n) w ≡ go_on n (run_round fl C env q w)
  unfolding run_worker run_popped
  run_worker_round n w q popped e =
      let step : run_worker fl C env (suc n) w
          ≡ go_on n (run_popped fl C env (env.pop_fails w.attempts) w) =
        run_worker_step n w in
      step
      ∙ ap (λ o. go_on n (run_popped fl C env o w)) popped
      ∙ ap (λ p. go_on n (run_round fl C env p w)) e

  Round-Drained :
      (n : ℕ) (w : World fl C) (out : Result (Unit {0}) × World fl C)
      → work w.queue ≤ suc n
      → ((w1 : World fl C) → work w1.queue ≤ n → Drained w1 (run_worker fl C env n w1))
      → Round w out
      → Drained w (go_on n out)
  Round-Drained n w _ enough rest (went_on w1 same le less) =
      Drained-after w w1 (run_worker fl C env n w1) same le (rest w1 (omega (arith, less, enough)))
  Round-Drained n w _ enough rest (lost_job j x w' escapes same) =
      ended_with_loss j x w' escapes same

  popped-Drained :
      (n : ℕ) (w : World fl C) (q : List (Job fl C))
      → w.queue ≡ q
      → work w.queue ≤ suc n
      → ((w1 : World fl C) → work w1.queue ≤ n → Drained w1 (run_worker fl C env n w1))
      → Drained w (go_on n (run_round fl C env q w))
  unfolding run_round
  popped-Drained n w [] e enough rest = rest w (ground arith)
  popped-Drained n w (j ∷ q) e enough rest =
      let out = handle_job_with_retry fl C env j (record w { queue = q }) in
      Round-Drained n w out enough rest
        (Handled-Round j q w out e (handle_job-Handled fl C env j (record w { queue = q })))

  Drained-from :
      (n : ℕ) (w : World fl C) (q : List (Job fl C))
      → w.queue ≡ q
      → work w.queue ≤ n
      → Drained w (run_worker fl C env n w)
  unfolding run_worker run_round run_popped
  Drained-from zero w [] e enough = emptied w e (λ f ig. refl) (omega arith)
  Drained-from zero w (j ∷ q) e enough = absurd (ground arith)
  Drained-from (suc n) w q e enough = elim (Option-cases (env.pop_fails w.attempts)) [
    | inr (x, bad) ↦
        let eq : run_worker fl C env (suc n) w ≡ (err x, w) =
          run_worker_step n w ∙ ap (λ o. go_on n (run_popped fl C env o w)) bad in
        subst (Drained w) (sym eq) (ended_at_pop w.attempts x w bad (λ f ig. refl))
    | inl popped ↦
        subst (Drained w) (sym (run_worker_round n w q popped e))
          (popped-Drained n w q e enough (λ w1 le. Drained-from n w1 w1.queue refl le))
  ]

  -- The worker empties its queue: after as many rounds as there are attempts left on it, none is
  -- left waiting, whatever fails in the attempts. Each job is done or among the dead letters, the same
  -- as it was but for its retries, and as often: every measure of jobs that does not look at the
  -- retries has the same total. The attempts are at most those that were left, four for a new job.
  -- Only an exception outside the `try` of an attempt ends the worker before: of `brpop`, and then
  -- nothing is lost, or of `json.loads` or `lpush`, and then exactly the job in hand is lost. A
  -- command of Redis that raises is taken to have had no effect.
  pub run_worker-drains :
      (n : ℕ) (w : World fl C) → work w.queue ≤ n → Drained w (run_worker fl C env n w)
  run_worker-drains n w enough = Drained-from n w w.queue refl enough
