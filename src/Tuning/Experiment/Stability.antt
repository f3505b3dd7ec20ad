-- ===== src/Tuning/Experiment/Stability.antt =====
-- What the life of an experiment keeps: its rank never falls, a conclusion is final, and a key
-- stays with its variant.
use llmops_platform.Prelude.{
  ℕ, ◌≤◌, ◌≡◌, refl, ◌⊎◌, inl, inr, Str, none, some, List, arith, ok, err, Result, Bool-cases,
  if◌then◌else◌, sym, ◌∙◌,
}
use llmops_platform.Prelude.Float.{Float}
use llmops_platform.Prelude.Tx.{lift}
use llmops_platform.Tuning.Base.{ExperimentStatus, ParameterSet, ExperimentModel}
use llmops_platform.Tuning.AbTest.{allocate}
use llmops_platform.Tuning.Rows.{TuningDb}
use llmops_platform.Tuning.Experiment.{is_running, get_experiment, allocate_variant, allocator_of}
use llmops_platform.Tuning.Experiment.Lifecycle.{
  Op, run_all, Evolves, same, begins, ends, cancels, Becomes, here, next, find_experiment,
  run_all-Becomes,
}

abbrev pub rank : ExperimentStatus → ℕ
rank ExperimentStatus.draft = 0
rank ExperimentStatus.running = 1
rank ExperimentStatus.completed = 2
rank ExperimentStatus.cancelled = 3

module _ (fl : Float) where
  -- What an experiment assigns its variants by.
  abbrev pub SameDesign : ExperimentModel fl → ExperimentModel fl → Type 0
  SameDesign e f =
      (f.variants ≡ e.variants)
      × (f.traffic_percentage ≡ e.traffic_percentage)
      × (f.parameter_space ≡ e.parameter_space)
      × (f.name ≡ e.name)

  -- The outcome of a conclusion is never changed again.
  abbrev pub KeepsOutcome : ExperimentModel fl → ExperimentModel fl → Type 0
  KeepsOutcome e f =
      2 ≤ rank e.status
      → (f.winner_variant_id ≡ e.winner_variant_id) × (f.concluded_at ≡ e.concluded_at)

  abbrev pub IsForward : ExperimentModel fl → ExperimentModel fl → Type 0
  IsForward e f = SameDesign e f × (rank e.status ≤ rank f.status) × KeepsOutcome e f

  Evolves-IsForward : (e f : ExperimentModel fl) → Evolves fl e f → IsForward e f
  Evolves-IsForward e f same = ((refl, refl, refl, refl), omega arith, λ h. (refl, refl))
  Evolves-IsForward e f (begins d) = ((refl, refl, refl, refl), ground arith, λ h. (refl, refl))
  Evolves-IsForward e f (ends w now r) = ((refl, refl, refl, refl), ground arith, λ h. ground arith)
  Evolves-IsForward e f cancels = ((refl, refl, refl, refl), ground arith, λ h. (refl, refl))

  IsForward-trans : (e f g : ExperimentModel fl) → IsForward e f → IsForward f g → IsForward e g
  IsForward-trans e f g (d, r, k) (d', r', k') = (
    (d'.0 ∙ d.0, d'.1 ∙ d.1, d'.2 ∙ d.2, d'.3 ∙ d.3),
    omega arith,
    λ h. let (w, c) = k h in let (w', c') = k' (omega arith) in (w' ∙ w, c' ∙ c),
  )

  Becomes-IsForward : (e f : ExperimentModel fl) → Becomes fl e f → IsForward e f
  Becomes-IsForward e f here = ((refl, refl, refl, refl), omega arith, λ h. (refl, refl))
  Becomes-IsForward e g (next {f = f} past step) =
      IsForward-trans e f g (Becomes-IsForward e f past) (Evolves-IsForward f g step)

  -- Whatever calls are made, in whatever order: an experiment keeps its name, its variants, its
  -- traffic percentage and its parameter space; its status never moves back in the order draft,
  -- running, completed, cancelled; and once it is completed or cancelled, its winner and its time
  -- of conclusion stay as they are.
  pub run_all-IsForward :
      (ops : List (Op fl)) (db : TuningDb fl) (j : ℕ) (e : ExperimentModel fl)
      → find_experiment fl j db ≡ some e
      → (e' : ExperimentModel fl) × (find_experiment fl j (run_all fl ops db) ≡ some e')
        × IsForward e e'
  run_all-IsForward ops db j e h =
      let (e', at, past) = run_all-Becomes fl ops db j e h in (e', at, Becomes-IsForward e e' past)

  module _ (sha : Str → ℕ) where
    allocate_variant_lem :
        (j : ℕ) (key : Str) (db : TuningDb fl) (e : ExperimentModel fl)
        → find_experiment fl j db ≡ some e
        → allocate_variant fl sha j key db
          ≡ lift
              (if is_running e.status then allocate fl sha (allocator_of fl sha e) key else ok none)
              db
    unfolding allocate_variant get_experiment
    allocate_variant_lem j key db e h = ground arith

    lift-ok :
        {A : Type 0} (r : Result A) (db : TuningDb fl) (a : A) → lift r db ≡ ok (a, db) → r ≡ ok a
    lift-ok (ok b) db a h = ground arith
    lift-ok (err x) db a h = absurd (cc)

    -- A key that has been given a variant is later given the same one, or none if the experiment no
    -- longer runs, whatever calls were made in between.
    pub sticky_allocation :
        (ops : List (Op fl)) (db : TuningDb fl) (j : ℕ) (key : Str) (e : ExperimentModel fl)
        (v : ParameterSet fl)
        → find_experiment fl j db ≡ some e
        → allocate_variant fl sha j key db ≡ ok (some v, db)
        → let db' = run_all fl ops db in
          (allocate_variant fl sha j key db' ≡ ok (some v, db'))
          ⊎ (allocate_variant fl sha j key db' ≡ ok (none, db'))
    sticky_allocation ops db j key e v h a =
        let (e', at, forward) = run_all-IsForward ops db j e h in
        let db' = run_all fl ops db in
        let given : (if is_running e.status
              then allocate fl sha (allocator_of fl sha e) key
              else ok none)
            ≡ ok (some v) =
          lift-ok _ db (some v) (sym (allocate_variant_lem j key db e h) ∙ a) in
        let same_allocator : allocator_of fl sha e' ≡ allocator_of fl sha e = ground arith in
        elim (Bool-cases (is_running e'.status)) [
          | inl r ↦
              inl (allocate_variant_lem j key db' e' at ∙ rw (r, same_allocator) (ground arith))
          | inr r ↦ inr (allocate_variant_lem j key db' e' at ∙ rw r)
        ]
