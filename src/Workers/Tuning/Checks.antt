-- ===== src/Workers/Tuning/Checks.antt =====
-- What a check of the running experiments does for each of them.
use llmops_platform.Prelude.{
  ℕ, zero, suc, ◌+◌, ◌-◌, ◌*◌, ◌^◌, ◌≤◌, ◌≡◌, refl, sym, ap, subst, ◌∙◌, ◌⊎◌, inl, inr, Str, true,
  false, Option, none, some, List, [], ◌∷◌, ◌++◌, ◌==◌, nat_eq, nat_beq, arith, if◌then◌else◌, ok,
  Exc, In, filter-In, eq_iff, Option-cases, Result-cases, string_eq,
}
use llmops_platform.Prelude.Float.{Float}
use llmops_platform.Prelude.Table.{by_id}
use llmops_platform.Tuning.Base.{ExperimentStatus, status_value, ExperimentModel}
use llmops_platform.Tuning.Rows.{TuningDb, ExperimentResults}
use llmops_platform.Tuning.Experiment.{get_experiment, get_results}
use llmops_platform.Workers.Tuning.{
  Entry, experiment_check_failed, experiment_check_retry, World, report, Environment, attempt_or,
  attempt, check_experiment, running, check_all, backoff,
}

module _ (fl : Float) (env : Environment fl) (db : TuningDb fl) where
  find-In :
      (exp : ExperimentModel fl) (rows : List (ExperimentModel fl))
      → In exp rows
      → (q : ExperimentModel fl) × (by_id (λ (e : ExperimentModel fl). e.id) exp.id rows ≡ some q)
  find-In exp [] m = elim m [ ]
  find-In exp (q ∷ rows) (inl e) =
      (q, ground (arith, eq_iff q.id exp.id, ap (λ (e : ExperimentModel fl). e.id) e))
  find-In exp (q ∷ rows) (inr m) =
      let (x, found) = find-In exp rows m in
      elim (nat_beq q.id exp.id)
        as (λ b.
          (y : ExperimentModel fl) × ((if b
              then some q
              else by_id (λ (e : ExperimentModel fl). e.id) exp.id rows)
            ≡ some y)) [ true ↦ (q, refl) | false ↦ (x, found) ]

  get_results-In :
      (exp : ExperimentModel fl)
      → In exp db.experiments
      → (r : ExperimentResults fl) × (get_results fl exp.id db ≡ ok (r, db))
  unfolding get_results get_experiment
  get_results-In exp m =
      let (q, found) = find-In exp db.experiments m in
      elim (Result-cases (get_results fl exp.id db)) [
        | inl (e, bad) ↦ absurd (ground arith)
        | inr ((r, db'), good) ↦ (r, ground arith)
      ]

  -- The `k` attempts from number `a` on are broken off.
  abbrev pub Broken : ℕ → ℕ → Type 0
  Broken a zero = Unit
  Broken a (suc k) = Broken a k × ((e : Exc) × (env.attempt_breaks (a + k) ≡ some e))

  -- The log with the warnings of the first `k` retries, and the seconds that these wait.
  abbrev pub warned : Str → List (Entry fl) → ℕ → List (Entry fl)
  warned name log zero = log
  warned name log (suc k) =
      warned name log k ++ experiment_check_retry name (k + 1) (5 * 2 ^ k) ∷ []

  abbrev pub waited : ℕ → ℕ
  waited zero = 0
  waited (suc k) = waited k + 5 * 2 ^ k

  -- A check of one experiment: the first attempt that is not broken off, out of four at most,
  -- reports its results; if all four are, this is logged.
  abbrev pub Checked : ExperimentModel fl → World fl → World fl → Type 0
  Checked exp w w' =
      (w'.checks ≡ w.checks)
      × (((k : ℕ) × (k ≤ 3)
            × Broken w.attempts k
            × (env.attempt_breaks (w.attempts + k) ≡ none)
            × ((r : ExperimentResults fl) × (get_results fl exp.id db ≡ ok (r, db))
                × (w'.log ≡ warned exp.name w.log k ++ report fl exp.name r))
            × (w'.time ≡ w.time + waited k)
            × (w'.attempts ≡ w.attempts + suc k))
          ⊎ (Broken w.attempts 4
              × (w'.log ≡ warned exp.name w.log 3 ++ experiment_check_failed exp.name 4 ∷ [])
              × (w'.time ≡ w.time + 35)
              × (w'.attempts ≡ w.attempts + 4)))

  move : {o : Option Exc} {i j : ℕ} → i ≡ j → env.attempt_breaks i ≡ o → env.attempt_breaks j ≡ o
  move e h = ap env.attempt_breaks (sym e) ∙ h

  -- The world behind `k` attempts that were broken off.
  abbrev after_retries : Str → World fl → ℕ → World fl
  after_retries name w zero = w
  after_retries name w (suc k) =
      let v = after_retries name w k in
      record v {
        log = v.log ++ experiment_check_retry name (k + 1) (5 * 2 ^ k) ∷ [];
        time = v.time + 5 * 2 ^ k;
        attempts = v.attempts + 1;
      }

  after_retries-fields :
      (name : Str) (w : World fl) (k : ℕ)
      → let v = after_retries name w k in
        (v.log ≡ warned name w.log k)
        × (v.time ≡ w.time + waited k)
        × (v.attempts ≡ w.attempts + k)
        × (v.checks ≡ w.checks)
  after_retries-fields name w zero = (refl, omega arith, omega arith, refl)
  after_retries-fields name w (suc k) =
      let (l, t, a, c) = after_retries-fields name w k in
      (
        ap (λ es. es ++ experiment_check_retry name (k + 1) (5 * 2 ^ k) ∷ []) l,
        omega arith,
        omega arith,
        c,
      )

  check-report :
      (fuel k : ℕ) (exp : ExperimentModel fl) (w : World fl) (r : ExperimentResults fl)
      → k ≤ 3
      → env.attempt_breaks w.attempts ≡ none
      → get_results fl exp.id db ≡ ok (r, db)
      → check_experiment fl env db (suc fuel) k exp w ≡ record w {
        log = w.log ++ report fl exp.name r;
        time = w.time + 0;
        attempts = w.attempts + 1;
      }
  unfolding check_experiment attempt attempt_or
  check-report fuel k exp w r le whole good = ground arith

  check-retry :
      (fuel k : ℕ) (exp : ExperimentModel fl) (w : World fl) (e : Exc)
      → k ≤ 2
      → env.attempt_breaks w.attempts ≡ some e
      → check_experiment fl env db (suc fuel) k exp w
        ≡ check_experiment fl env db fuel (k + 1) exp (record w {
          log = w.log ++ experiment_check_retry exp.name (k + 1) (backoff fl (k + 1)) ∷ [];
          time = w.time + backoff fl (k + 1);
          attempts = w.attempts + 1;
        })
  unfolding check_experiment attempt attempt_or
  check-retry fuel k exp w e le broken = ground arith

  check-failed :
      (fuel : ℕ) (exp : ExperimentModel fl) (w : World fl) (e : Exc)
      → env.attempt_breaks w.attempts ≡ some e
      → check_experiment fl env db (suc (suc fuel)) 3 exp w ≡ record w {
        log = w.log ++ experiment_check_failed exp.name 4 ∷ [];
        time = w.time + 0;
        attempts = w.attempts + 1;
      }
  unfolding check_experiment attempt attempt_or
  check-failed fuel exp w e broken = ground arith

  retried :
      (fuel k : ℕ) (exp : ExperimentModel fl) (w : World fl) (e : Exc)
      → k ≤ 2
      → env.attempt_breaks (after_retries exp.name w k).attempts ≡ some e
      → check_experiment fl env db (suc fuel) k exp (after_retries exp.name w k)
        ≡ check_experiment fl env db fuel (suc k) exp (after_retries exp.name w (suc k))
  retried fuel k exp w e le broken =
      let v = after_retries exp.name w k in
      let one : k + 1 - 1 ≡ k = omega arith in
      let next : k + 1 ≡ suc k = omega arith in
      check-retry fuel k exp v e le broken
      ∙ ap
          (λ (i : ℕ). check_experiment fl env db fuel (k + 1) exp (record v {
            log = v.log ++ experiment_check_retry exp.name (k + 1) (5 * 2 ^ i) ∷ [];
            time = v.time + 5 * 2 ^ i;
            attempts = v.attempts + 1;
          }))
          one
      ∙ ap (λ (i : ℕ). check_experiment fl env db fuel i exp (after_retries exp.name w (suc k)))
          next

  -- The attempt behind `k` retries is not broken off.
  check-whole :
      (fuel k : ℕ) (exp : ExperimentModel fl) (w : World fl)
      → In exp db.experiments
      → k ≤ 3
      → Broken w.attempts k
      → env.attempt_breaks (after_retries exp.name w k).attempts ≡ none
      → Checked exp w (check_experiment fl env db (suc fuel) k exp (after_retries exp.name w k))
  check-whole fuel k exp w m le broken whole =
      let v = after_retries exp.name w k in
      let (l, t, a, c) = after_retries-fields exp.name w k in
      let (r, good) = get_results-In exp m in
      subst (Checked exp w) (sym (check-report fuel k exp v r le whole good)) (
        c,
        inl (
          k,
          le,
          broken,
          move a whole,
          (r, good, ap (λ es. es ++ report fl exp.name r) l),
          omega arith,
          omega arith,
        ),
      )

  -- All four attempts are broken off.
  check-four :
      (exp : ExperimentModel fl) (w : World fl) (e : Exc)
      → Broken w.attempts 3
      → env.attempt_breaks (after_retries exp.name w 3).attempts ≡ some e
      → Checked exp w (check_experiment fl env db 2 3 exp (after_retries exp.name w 3))
  check-four exp w e broken bad =
      let v = after_retries exp.name w 3 in
      let (l, t, a, c) = after_retries-fields exp.name w 3 in
      subst (Checked exp w) (sym (check-failed 0 exp v e bad)) (
        c,
        inr (
          (broken, (e, move a bad)),
          ap (λ es. es ++ experiment_check_failed exp.name 4 ∷ []) l,
          omega arith,
          omega arith,
        ),
      )

  check-from :
      (n k : ℕ) (exp : ExperimentModel fl) (w : World fl)
      → In exp db.experiments
      → n + k ≡ 3
      → Broken w.attempts k
      → Checked exp w (check_experiment fl env db (suc (suc n)) k exp (after_retries exp.name w k))
  check-from zero k exp w m sum broken =
      let three : 3 ≡ k = omega arith in
      subst
        (λ (k : ℕ).
          Broken w.attempts k
          → Checked exp w (check_experiment fl env db 2 k exp (after_retries exp.name w k)))
        three
        (λ broken. elim (Option-cases (env.attempt_breaks (after_retries exp.name w 3).attempts)) [
          | inl whole ↦ check-whole 1 3 exp w m (omega arith) broken whole
          | inr (e, bad) ↦ check-four exp w e broken bad
        ])
        broken
  check-from (suc n) k exp w m sum broken =
      let (l, t, a, c) = after_retries-fields exp.name w k in
      elim (Option-cases (env.attempt_breaks (after_retries exp.name w k).attempts)) [
        | inl whole ↦ check-whole (suc (suc n)) k exp w m (omega arith) broken whole
        | inr (e, bad) ↦
            subst (Checked exp w) (sym (retried (suc (suc n)) k exp w e (omega arith) bad))
              (check-from n (suc k) exp w m (omega arith) (broken, (e, move a bad)))
      ]

  check_experiment-Checked :
      (exp : ExperimentModel fl) (w : World fl)
      → In exp db.experiments
      → Checked exp w (check_experiment fl env db 5 0 exp w)
  check_experiment-Checked exp w m = check-from 3 0 exp w m refl tt

  -- The checks of experiments, one after the other.
  abbrev pub CheckedAll : List (ExperimentModel fl) → World fl → World fl → Type 0
  CheckedAll [] w w' = w' ≡ w
  CheckedAll (exp ∷ exps) w w' = (v : World fl) × Checked exp w v × CheckedAll exps v w'

  check_all-In :
      (exps : List (ExperimentModel fl)) (w : World fl)
      → ((exp : ExperimentModel fl) → In exp exps → In exp db.experiments)
      → CheckedAll exps w (check_all fl env db exps w)
  unfolding check_all
  check_all-In [] w sub = refl
  check_all-In (exp ∷ exps) w sub = (
    check_experiment fl env db 5 0 exp w,
    check_experiment-Checked exp w (sub exp (inl refl)),
    check_all-In exps (check_experiment fl env db 5 0 exp w) (λ x m. sub x (inr m)),
  )

  -- A check goes through all running experiments in their order, whatever fails: for each, the first
  -- attempt that the database does not break off reports the results of the experiment, with their
  -- leader if there are any; it has at most four attempts, with warnings and pauses of five, ten and
  -- twenty seconds in between, and only if all four are broken off it is logged as failed. Nothing
  -- but the database fails.
  pub check_all-CheckedAll :
      (w : World fl) → CheckedAll (running fl env db) w (check_all fl env db (running fl env db) w)
  check_all-CheckedAll w = check_all-In (running fl env db) w (λ exp m.
      (filter-In
        (λ (e : ExperimentModel fl). status_value e.status == status_value ExperimentStatus.running)
        exp db.experiments m).0)
