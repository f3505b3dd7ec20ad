-- ===== src/Workers/Tuning/Shutdown.antt =====
-- How the worker ends.
use llmops_platform.Prelude.{
  ℕ, zero, suc, ◌+◌, ◌-◌, ◌*◌, ◌≤◌, ◌<◌, ◌≡◌, refl, sym, ap, subst, ◌∙◌, ◌⊎◌, inl, inr, Bool, true,
  false, Option, some, List, [], ◌∷◌, ◌++◌, arith, ltb, length, All, append_assoc, append-nil,
  Bool-cases, Option-cases,
}
use llmops_platform.Prelude.Float.{Float}
use llmops_platform.Tuning.Base.{ExperimentModel}
use llmops_platform.Tuning.Rows.{TuningDb}
use llmops_platform.Workers.Tuning.{
  World, Environment, tuning_worker_error, running, check_all, check_or_error,
  check_running_experiments, poll, poll_interval, run_worker,
}
use llmops_platform.Workers.Tuning.Checks.{waited, Checked, CheckedAll, check_all-CheckedAll}

module _ (fl : Float) (env : Environment fl) (db : TuningDb fl) (shutdown : ℕ → Bool) where
  waited-le : (k : ℕ) → k ≤ 3 → waited fl env db k ≤ 35
  waited-le zero h = omega arith
  waited-le (suc zero) h = omega arith
  waited-le (suc (suc zero)) h = omega arith
  waited-le (suc (suc (suc zero))) h = omega arith
  waited-le (suc (suc (suc (suc k)))) h = absurd (omega arith)

  -- A check takes its pauses, and no more than 35 seconds for each experiment.
  abbrev Took : ℕ → World fl → World fl → Type 0
  Took n w w' = (w'.checks ≡ w.checks) × (w.time ≤ w'.time) × (w'.time ≤ w.time + 35 * n)

  Checked-Took :
      (exp : ExperimentModel fl) (w w' : World fl) → Checked fl env db exp w w' → Took 1 w w'
  Checked-Took exp w w' (c, inl (k, le, broken, whole, r, time, attempts)) =
      let bound = waited-le k le in (c, omega arith, omega arith)
  Checked-Took exp w w' (c, inr (broken, log, time, attempts)) = (c, omega arith, omega arith)

  CheckedAll-Took :
      (exps : List (ExperimentModel fl)) (w w' : World fl)
      → CheckedAll fl env db exps w w'
      → Took (length exps) w w'
  CheckedAll-Took [] w w' e = rw e (refl, omega arith, omega arith)
  CheckedAll-Took (exp ∷ exps) w w' (v, one, rest) =
      let (c, lo, hi) = Checked-Took exp w v one in
      let (c', lo', hi') = CheckedAll-Took exps v w' rest in (c' ∙ c, omega arith, omega arith)

  abbrev pub experiments : ℕ
  experiments = length (running fl env db)

  check-Took :
      (w : World fl)
      → Took experiments
          (record w { checks = w.checks ++ w.time ∷ [] })
          (check_running_experiments fl env db w)
  unfolding check_running_experiments check_or_error
  check-Took w = elim (Option-cases (env.select_breaks w.time)) [
    | inl whole ↦
        let v : World fl = record w { checks = w.checks ++ w.time ∷ [] } in
        let went : check_running_experiments fl env db w
            ≡ check_all fl env db (running fl env db) v =
          ground arith in
        subst (Took experiments v) (sym went) (
          CheckedAll-Took (running fl env db) v (check_all fl env db (running fl env db) v)
            (check_all-CheckedAll fl env db v))
    | inr (e, broken) ↦
        let v : World fl = record w { checks = w.checks ++ w.time ∷ [] } in
        let went : check_running_experiments fl env db w
            ≡ record v { log = v.log ++ tuning_worker_error ∷ [] } =
          ground arith in
        subst (Took experiments v) (sym went) (refl, omega arith, omega arith)
  ]

  -- While it polls, the worker waits until the flag is set, and not beyond `end`, from which on it
  -- is set.
  abbrev Waited : ℕ → World fl → World fl → Type 0
  Waited end w w' =
      (w'.checks ≡ w.checks) × (w.time ≤ w'.time) × ((w'.time ≡ w.time) ⊎ (w'.time ≤ end))

  before_end : (end t : ℕ) → ((t : ℕ) → end ≤ t → shutdown t ≡ true) → shutdown t ≡ false → t < end
  before_end end t set e = elim (Bool-cases (ltb t end)) [
    | inl lt ↦ ground arith
    | inr ge ↦ let on = set t (ground arith) in absurd (cc)
  ]

  poll-stopped :
      (n : ℕ) (w : World fl) → shutdown w.time ≡ true → poll fl env db shutdown (suc n) w ≡ w
  unfolding poll
  poll-stopped n w e = ground arith

  poll-further :
      (n : ℕ) (w : World fl)
      → shutdown w.time ≡ false
      → poll fl env db shutdown (suc n) w
        ≡ poll fl env db shutdown n (record w { time = w.time + 1 })
  unfolding poll
  poll-further n w e = ground arith

  poll-Waited :
      (end n : ℕ) (w : World fl)
      → ((t : ℕ) → end ≤ t → shutdown t ≡ true)
      → Waited end w (poll fl env db shutdown n w)
  unfolding poll
  poll-Waited end zero w set = (refl, omega arith, inl refl)
  poll-Waited end (suc n) w set = elim (Bool-cases (shutdown w.time)) [
    | inl e ↦ subst (Waited end w) (sym (poll-stopped n w e)) (refl, omega arith, inl refl)
    | inr e ↦
        let early = before_end end w.time set e in
        let (c, lo, hi) = poll-Waited end n (record w { time = w.time + 1 }) set in
        subst (Waited end w) (sym (poll-further n w e))
          (c, omega arith, inr (elim hi [ inl same ↦ omega arith | inr le ↦ le ]))
  ]

  poll-advances :
      (end n : ℕ) (w : World fl)
      → ((t : ℕ) → end ≤ t → shutdown t ≡ true)
      → shutdown w.time ≡ false
      → w.time < (poll fl env db shutdown (suc n) w).time
  poll-advances end n w set e =
      let (c, lo, hi) = poll-Waited end n (record w { time = w.time + 1 }) set in
      subst (λ (v : World fl). w.time < v.time) (sym (poll-further n w e)) (omega arith)

  -- The worker ends, not later than `last`, with the flag set; every check since `w` has begun while
  -- it was not set.
  abbrev pub Ends : ℕ → World fl → Option (World fl) → Type 0
  Ends last w out =
      (w' : World fl) × (out ≡ some w')
      × (shutdown w'.time ≡ true)
      × (w'.time ≤ last)
      × ((new : List ℕ) × (w'.checks ≡ w.checks ++ new) × All (λ t. shutdown t ≡ false) new)

  run_worker-stopped :
      (last n : ℕ) (w : World fl)
      → shutdown w.time ≡ true
      → w.time ≤ last
      → 0 < n
      → Ends last w (run_worker fl env db shutdown n w)
  unfolding run_worker
  run_worker-stopped last zero w e le h = absurd (omega arith)
  run_worker-stopped last (suc n) w e le h =
      (w, ground arith, e, le, ([], sym (append-nil w.checks), tt))

  abbrev round : World fl → World fl
  round w = poll fl env db shutdown poll_interval (check_running_experiments fl env db w)

  -- A round that has begun before the end.
  Round : ℕ → World fl → World fl → Type 0
  Round end w w' =
      (w'.checks ≡ w.checks ++ w.time ∷ [])
      × (w'.time ≤ end + 35 * experiments)
      × ((shutdown w'.time ≡ true) ⊎ (w.time < w'.time))

  round-Round :
      (end : ℕ) (w : World fl)
      → ((t : ℕ) → end ≤ t → shutdown t ≡ true)
      → w.time < end
      → Round end w (round w)
  unfolding Round
  round-Round end w set early =
      let v = check_running_experiments fl env db w in
      let (c, lo, hi) = check-Took w in
      let (c', lo', hi') = poll-Waited end 30 v set in
      (
        c' ∙ c,
        elim hi' [ inl same ↦ omega arith | inr le ↦ omega arith ],
        elim (Bool-cases (shutdown v.time)) [
          | inl e ↦ inl (rw (poll-stopped 29 v e) e)
          | inr e ↦ let later = poll-advances end 29 v set e in inr (omega arith)
        ],
      )

  prepend_check :
      (last : ℕ) (w v : World fl) (out : Option (World fl))
      → v.checks ≡ w.checks ++ w.time ∷ []
      → shutdown w.time ≡ false
      → Ends last v out
      → Ends last w out
  prepend_check last w v out c e (w', same, on, le, (new, cs, off)) = (
    w',
    same,
    on,
    le,
    (w.time ∷ new, cs ∙ ap (λ ts. ts ++ new) c ∙ append_assoc w.checks (w.time ∷ []) new, (e, off)),
  )

  run_worker-further :
      (last n : ℕ) (w : World fl)
      → shutdown w.time ≡ false
      → (round w).checks ≡ w.checks ++ w.time ∷ []
      → Ends last (round w) (run_worker fl env db shutdown n (round w))
      → Ends last w (run_worker fl env db shutdown (suc n) w)
  unfolding run_worker
  run_worker-further last n w e c h =
      let more : run_worker fl env db shutdown (suc n) w
          ≡ run_worker fl env db shutdown n (round w) =
        ground arith in
      subst (Ends last w) (sym more)
        (prepend_check last w (round w) (run_worker fl env db shutdown n (round w)) c e h)

  -- Once the signal to stop has been received, at the second `end` at the latest, the worker ends:
  -- it begins no further check, stops polling at once, and is gone after the check that is under way,
  -- 35 seconds for each running experiment at most. Until the signal it goes on. One round for each
  -- second that is left until `end`, and one more, is fuel enough.
  pub run_worker-Ends :
      (end n : ℕ) (w : World fl)
      → ((t : ℕ) → end ≤ t → shutdown t ≡ true)
      → w.time ≤ end + 35 * experiments
      → end - w.time < n
      → Ends (end + 35 * experiments) w (run_worker fl env db shutdown n w)
  unfolding Round
  run_worker-Ends end zero w set le h = absurd (omega arith)
  run_worker-Ends end (suc n) w set le h = elim (Bool-cases (shutdown w.time)) [
    | inl e ↦ run_worker-stopped (end + 35 * experiments) (suc n) w e le (omega arith)
    | inr e ↦
        let early = before_end end w.time set e in
        let (c, hi, next) = round-Round end w set early in
        run_worker-further (end + 35 * experiments) n w e c (elim next [
          | inr later ↦ run_worker-Ends end n (round w) set hi (omega arith)
          | inl on ↦ run_worker-stopped (end + 35 * experiments) n (round w) on hi (omega arith)
        ])
  ]
