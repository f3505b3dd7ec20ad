-- ===== src/Tuning/Experiment/Winner.antt =====
-- The winner that a conclusion writes.
use llmops_platform.Prelude.{
  ℕ, ◌≡◌, refl, ◌∙◌, Str, false, Option, none, some, List, [], ◌∷◌, arith, ok, is_nil, In,
}
use llmops_platform.Prelude.Float.{Float}
use llmops_platform.Prelude.Table.{by_id-update_self}
use llmops_platform.Prelude.Tx.{after}
use llmops_platform.Tuning.Base.{running, ExperimentModel, VariantResult}
use llmops_platform.Tuning.Results.{select_scored, variant_results}
use llmops_platform.Tuning.Results.Grouping.{scores_of, variant_results-covers}
use llmops_platform.Tuning.Results.Ranking.{IsTotalOrder, IsBest, first-IsBest}
use llmops_platform.Tuning.Rows.{TuningDb}
use llmops_platform.Tuning.Experiment.{
  conclude, choose_winner, get_results, get_experiment, save, concluded, leader, experiment_id_of,
}
use llmops_platform.Tuning.Experiment.Lifecycle.{find_experiment}

module _ (fl : Float) where
  conclude_chosen :
      (now id : ℕ) (w' : Option Str) (db : TuningDb fl) (e : ExperimentModel fl)
      → find_experiment fl id db ≡ some e
      → e.status ≡ running
      → choose_winner fl id none db ≡ ok (w', db)
      → find_experiment fl id (after (conclude fl now id none) db) ≡ some (concluded fl w' now e)
  unfolding conclude get_experiment save
  conclude_chosen now id w' db e found run chosen = ground (
    arith,
    by_id-update_self (experiment_id_of fl) id (concluded fl w' now) db.experiments (λ r. refl),
  )

  choose_winner-none :
      (id : ℕ) (db : TuningDb fl) (e : ExperimentModel fl)
      → find_experiment fl id db ≡ some e
      → choose_winner fl id none db
        ≡ ok (leader fl (variant_results fl (select_scored fl id db.trials)) none, db)
  unfolding choose_winner get_results get_experiment
  choose_winner-none id db e found = ground arith

  -- A running experiment with a scored trial that is concluded with no winner named is written as
  -- completed at that time, and its winner is a variant with scored trials whose average, rounded
  -- to four digits, is at least that of every other variant with scored trials. What is used of
  -- floats: `<=` is a total order, as it is without NaN.
  pub conclude-IsBest :
      (order : IsTotalOrder fl.le) (now id : ℕ) (db : TuningDb fl) (e : ExperimentModel fl)
      (v : Str)
      → find_experiment fl id db ≡ some e
      → e.status ≡ running
      → is_nil (scores_of fl v (select_scored fl id db.trials)) ≡ false
      → (w : Str) × (find_experiment fl id (after (conclude fl now id none) db)
          ≡ some (concluded fl (some w) now e))
        × IsBest fl order (select_scored fl id db.trials) w
  conclude-IsBest order now id db e v found run scored =
      let ts = select_scored fl id db.trials in
      let (r0, m, _) = variant_results-covers fl ts v scored in
      by_results (variant_results fl ts) refl r0 m
    where
      by_results :
          (rs : List (VariantResult fl))
          → variant_results fl (select_scored fl id db.trials) ≡ rs
          → (r0 : VariantResult fl) → In r0 (variant_results fl (select_scored fl id db.trials))
          → (w : Str) × (find_experiment fl id (after (conclude fl now id none) db)
              ≡ some (concluded fl (some w) now e))
            × IsBest fl order (select_scored fl id db.trials) w
      by_results [] eq r0 m = absurd (rw eq at m)
      by_results (r ∷ rs) eq r0 m = (
        r.variant_id,
        conclude_chosen now id (some r.variant_id) db e found run
            (choose_winner-none id db e found ∙ rw eq),
        first-IsBest fl order (select_scored fl id db.trials) r rs eq,
      )
