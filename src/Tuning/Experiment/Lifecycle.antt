-- ===== src/Tuning/Experiment/Lifecycle.antt =====
-- The life of an experiment under any operations: its status moves forward, what it assigns by
-- never changes, and so a key that had a variant never gets another one.
use llmops_platform.Prelude.{
  ◌||◌, ℕ, ◌≡◌, refl, ◌⊎◌, inl, inr, Str, Option, some, List, [], ◌∷◌, arith, ok, Option-cases,
  Bool-cases, nat_beq, nat_beq_iff, ◌≢◌, ◌∙◌, sym, ap, false≢true,
}
use llmops_platform.Prelude.Float.{Float}
use llmops_platform.Prelude.Table.{
  by_id, update, by_id-update_self, by_id-update_ne, by_id-append, map_some,
}
use llmops_platform.Prelude.Tx.{after}
use llmops_platform.Tuning.Base.{draft, running, ExperimentConfig, ParameterSet, ExperimentModel}
use llmops_platform.Tuning.Results.{variant_results, select_scored}
use llmops_platform.Tuning.Rows.{TuningDb, TrialArgs}
use llmops_platform.Tuning.Experiment.{
  is_too_long, too_long?, is_draft, is_running, create, start, record_trial, conclude, cancel,
  choose_winner, get_results, leader, is_unset, save, get_experiment, started, concluded,
  cancelled_of, new_experiment, experiment_id_of,
}

module _ (fl : Float) where
  -- A call of a method that writes.
  pub data Op : Type 0 where
    create_op : ℕ → ℕ → ExperimentConfig fl → List (ParameterSet fl) → Op
    start_op : ℕ → Op
    record_op : ℕ → ℕ → TrialArgs fl → Op
    conclude_op : ℕ → ℕ → Option Str → Op
    cancel_op : ℕ → Op

  unfoldable pub run : Op → TuningDb fl → TuningDb fl
  run (create_op id now config variants) = after (create fl id now config variants)
  run (start_op id) = after (start fl id)
  run (record_op id experiment_id a) = after (record_trial fl id experiment_id a)
  run (conclude_op now id w) = after (conclude fl now id w)
  run (cancel_op id) = after (cancel fl id)

  unfoldable pub run_all : List Op → TuningDb fl → TuningDb fl
  run_all [] db = db
  run_all (op ∷ ops) db = run_all ops (run op db)

  -- One step in the life of an experiment.
  pub data Evolves (e : ExperimentModel fl) : ExperimentModel fl → Type 0 where
    same : Evolves e e
    begins : e.status ≡ draft → Evolves e (started fl e)
    ends : (w : Option Str) (now : ℕ) → e.status ≡ running → Evolves e (concluded fl w now e)
    cancels : Evolves e (cancelled_of fl e)

  pub data Becomes (e : ExperimentModel fl) : ExperimentModel fl → Type 0 where
    here : Becomes e e
    next : {f g : ExperimentModel fl} → Becomes e f → Evolves f g → Becomes e g

  abbrev pub find_experiment : ℕ → TuningDb fl → Option (ExperimentModel fl)
  find_experiment id db = by_id (experiment_id_of fl) id db.experiments

  abbrev saved_in : ℕ → (ExperimentModel fl → ExperimentModel fl) → TuningDb fl → TuningDb fl
  saved_in id f db = record db { experiments = update (experiment_id_of fl) id f db.experiments }

  -- What a call that writes one row did: nothing, or one step of the row's life.
  abbrev Effect : ℕ → TuningDb fl → TuningDb fl → Type 0
  Effect id db db' =
      (db' ≡ db)
      ⊎ ((f : ExperimentModel fl → ExperimentModel fl) × (exp : ExperimentModel fl)
          × ((r : ExperimentModel fl) → (f r).id ≡ r.id)
          × (find_experiment id db ≡ some exp)
          × Evolves exp (f exp)
          × (db' ≡ saved_in id f db))

  abbrev Kept : ℕ → TuningDb fl → ExperimentModel fl → Type 0
  Kept j db e = (e' : ExperimentModel fl) × (find_experiment j db ≡ some e') × Evolves e e'

  saved-Kept :
      (id j : ℕ) (f : ExperimentModel fl → ExperimentModel fl) (db : TuningDb fl)
      (exp e : ExperimentModel fl)
      → ((r : ExperimentModel fl) → (f r).id ≡ r.id)
      → find_experiment id db ≡ some exp
      → Evolves exp (f exp)
      → find_experiment j db ≡ some e
      → Kept j (saved_in id f db) e
  saved-Kept id j f db exp e keeps at_id step found = elim (Bool-cases (nat_beq j id)) [
    | inl eq ↦
        let ji : j ≡ id = (nat_beq_iff j id).0 eq in
        let ee : e ≡ exp = ground arith in
        (
          f exp,
          rw ji (
              by_id-update_self (experiment_id_of fl) id f db.experiments keeps
              ∙ ap (map_some (experiment_id_of fl) f) at_id),
          rw ee step,
        )
    | inr ne ↦
        let apart : j ≢ id = λ q. false≢true (sym ne ∙ (nat_beq_iff j id).1 q) in
        (e, by_id-update_ne (experiment_id_of fl) id j f db.experiments keeps apart ∙ found, same)
  ]

  Effect-Kept :
      (id j : ℕ) (db db' : TuningDb fl) (e : ExperimentModel fl)
      → Effect id db db'
      → find_experiment j db ≡ some e
      → Kept j db' e
  Effect-Kept id j db db' e (inl eq) found = (e, rw eq found, same)
  Effect-Kept id j db db' e (inr (f, exp, keeps, at_id, step, eq)) found =
      rw eq (saved-Kept id j f db exp e keeps at_id step found)

  start-Effect : (id : ℕ) (db : TuningDb fl) → Effect id db (after (start fl id) db)
  unfolding start get_experiment save
  start-Effect id db = elim (Option-cases (find_experiment id db)) [
    | inl missing ↦ inl (ground arith)
    | inr (exp, found) ↦ elim (Bool-cases (is_draft exp.status)) [
      | inl yes_draft ↦
          let d : exp.status ≡ draft = ground arith in
          inr (started fl, exp, λ r. refl, found, begins d, ground arith)
      | inr other ↦ inl (ground arith)
    ]
  ]

  cancel-Effect : (id : ℕ) (db : TuningDb fl) → Effect id db (after (cancel fl id) db)
  unfolding cancel get_experiment save
  cancel-Effect id db = elim (Option-cases (find_experiment id db)) [
    | inl missing ↦ inl (ground arith)
    | inr (exp, found) ↦ inr (cancelled_of fl, exp, λ r. refl, found, cancels, ground arith)
  ]

  -- The winner is chosen without a write, and cannot fail for an experiment that is there.
  pub choose_winner_total :
      (id : ℕ) (w : Option Str) (db : TuningDb fl) (exp : ExperimentModel fl)
      → find_experiment id db ≡ some exp
      → (w' : Option Str) × (choose_winner fl id w db ≡ ok (w', db))
  unfolding choose_winner get_results get_experiment
  choose_winner_total id w db exp found = elim (Bool-cases (is_unset w)) [
    | inl unset ↦ (leader fl (variant_results fl (select_scored fl id db.trials)) w, ground arith)
    | inr given ↦ (w, ground arith)
  ]

  conclude-Effect :
      (now id : ℕ) (w : Option Str) (db : TuningDb fl)
      → Effect id db (after (conclude fl now id w) db)
  unfolding conclude get_experiment save
  conclude-Effect now id w db = elim (Option-cases (find_experiment id db)) [
    | inl missing ↦ inl (ground arith)
    | inr (exp, found) ↦ elim (Bool-cases (is_running exp.status)) [
      | inl yes_running ↦
          let d : exp.status ≡ running = ground arith in
          let (w', chosen) = choose_winner_total id w db exp found in
          elim (Bool-cases (too_long? fl w)) [
            | inl long ↦ inl (ground arith)
            | inr short ↦
                inr (concluded fl w' now, exp, λ r. refl, found, ends w' now d, ground arith)
          ]
      | inr other ↦ inl (ground arith)
    ]
  ]

  create-Kept :
      (id now : ℕ) (config : ExperimentConfig fl) (variants : List (ParameterSet fl))
      (db : TuningDb fl) (j : ℕ) (e : ExperimentModel fl)
      → find_experiment j db ≡ some e
      → Kept j (after (create fl id now config variants) db) e
  unfolding create
  create-Kept id now config variants db j e h = (
    e,
    ground (
      arith,
      by_id-append (experiment_id_of fl) j db.experiments
          (new_experiment fl id now config variants ∷ []) e h,
    ),
    same,
  )

  experiments-record_trial :
      (id experiment_id : ℕ) (a : TrialArgs fl) (db : TuningDb fl)
      → (after (record_trial fl id experiment_id a) db).experiments ≡ db.experiments
  unfolding record_trial
  experiments-record_trial id experiment_id a db =
      elim (Bool-cases (is_too_long fl a.variant_id || is_too_long fl a.trace_id)) [
        | inl long ↦ ground arith
        | inr short ↦ ground arith
      ]

  -- Every call that writes, on whatever experiment and failing or not, leaves every experiment in
  -- the table, and takes it through one step of its life or none: draft to running, running to
  -- completed, or anything to cancelled, with all its other fields unchanged but the winner and
  -- the time of the conclusion.
  pub run-Evolves :
      (op : Op) (db : TuningDb fl) (j : ℕ) (e : ExperimentModel fl)
      → find_experiment j db ≡ some e
      → (e' : ExperimentModel fl) × (find_experiment j (run op db) ≡ some e') × Evolves e e'
  unfolding run
  run-Evolves (create_op id now config variants) db j e h =
      create-Kept id now config variants db j e h
  run-Evolves (start_op id) db j e h = Effect-Kept id j db _ e (start-Effect id db) h
  run-Evolves (record_op id experiment_id a) db j e h =
      (e, rw (experiments-record_trial id experiment_id a db) h, same)
  run-Evolves (conclude_op now id w) db j e h =
      Effect-Kept id j db _ e (conclude-Effect now id w db) h
  run-Evolves (cancel_op id) db j e h = Effect-Kept id j db _ e (cancel-Effect id db) h

  run_all-Becomes_from :
      (ops : List Op) (db : TuningDb fl) (j : ℕ) (e f : ExperimentModel fl)
      → Becomes e f
      → find_experiment j db ≡ some f
      → (e' : ExperimentModel fl) × (find_experiment j (run_all ops db) ≡ some e') × Becomes e e'
  unfolding run_all
  run_all-Becomes_from [] db j e f past h = (f, h, past)
  run_all-Becomes_from (op ∷ ops) db j e f past h =
      let (g, at, step) = run-Evolves op db j f h in
      run_all-Becomes_from ops (run op db) j e g (next past step) at

  -- After any calls an experiment is still in the table, and has come there by steps of its life.
  pub run_all-Becomes :
      (ops : List Op) (db : TuningDb fl) (j : ℕ) (e : ExperimentModel fl)
      → find_experiment j db ≡ some e
      → (e' : ExperimentModel fl) × (find_experiment j (run_all ops db) ≡ some e') × Becomes e e'
  run_all-Becomes ops db j e h = run_all-Becomes_from ops db j e e here h
