-- ===== src/Tuning/Results.antt =====
-- core/tuning/experiment.py: `ExperimentRunner.get_results`, the aggregation of trials.
pub mod Grouping
pub mod Ranking
use llmops_platform.Prelude.{
  ℕ, Str, Bool, true, false, Option, none, some, List, [], ◌∷◌, ◌++◌, map, if◌then◌else◌, ◌==◌,
  nat_eq, string_eq, length, is_nil,
}
use llmops_platform.Prelude.Dict.{Dict, lookup, insert}
use llmops_platform.Prelude.Float.{Float}
use llmops_platform.Prelude.Sort.{sort_desc}
use llmops_platform.Tuning.Base.{Json, VariantResult, ExperimentTrialModel}

module _ (fl : Float) where
  open fl use {F, le, mean, round, of_ℕ}

  -- What the loop reads of a trial whose score is not null.
  pub record Scored : Type 0 where
    pub variant_id : Str
    pub parameters : Dict Str (Json F)
    pub score : F

  scored : Option F → ExperimentTrialModel fl → List Scored → List Scored
  scored none t rest = rest
  scored (some s) t rest =
      record { variant_id = t.variant_id; parameters = t.parameters; score = s } ∷ rest

  -- The query: the trials of the experiment with `score.isnot(None)`.
  unfoldable pub select_scored : ℕ → List (ExperimentTrialModel fl) → List Scored
  unfolding scored
  select_scored id [] = []
  select_scored id (t ∷ ts) =
      let rest = select_scored id ts in
      if t.experiment_id == id then scored t.score t rest else rest

  -- `variant_trials` and `variant_params`
  pub record Groups : Type 0 where
    pub trials : Dict Str (List F)
    pub params : Dict Str (Dict Str (Json F))

  abbrev pub no_groups : Groups
  no_groups = record { trials = []; params = [] }

  add_to : Option (List F) → Scored → Groups → Groups
  add_to none t g = record {
    trials = insert t.variant_id (t.score ∷ []) g.trials;
    params = insert t.variant_id t.parameters g.params;
  }
  add_to (some scores) t g = record g {
    trials = insert t.variant_id (scores ++ t.score ∷ []) g.trials;
  }

  -- One round of `for trial in trials`.
  unfoldable pub add_trial : Groups → Scored → Groups
  unfolding add_to
  add_trial g t = add_to (lookup t.variant_id g.trials) t g

  unfoldable pub group : Groups → List Scored → Groups
  group g [] = g
  group g (t ∷ ts) = group (add_trial g t) ts

  -- `min(scores)` and `max(scores)`, with `0.0` for no scores
  unfoldable pub min_of : List F → F
  min_of [] = of_ℕ 0
  min_of (x ∷ []) = x
  min_of (x ∷ y ∷ ys) = let m = min_of (y ∷ ys) in if le x m then x else m

  unfoldable pub max_of : List F → F
  max_of [] = of_ℕ 0
  max_of (x ∷ []) = x
  max_of (x ∷ y ∷ ys) = let m = max_of (y ∷ ys) in if le m x then x else m

  unfoldable pub avg_of : List F → F
  avg_of [] = of_ℕ 0
  avg_of (x ∷ xs) = round (mean (x ∷ xs)) 4

  abbrev or_empty : Option (Dict Str (Json F)) → Dict Str (Json F)
  or_empty none = []
  or_empty (some d) = d

  -- `VariantResult(…)` of one item of `variant_trials`
  unfoldable pub variant_result : Groups → Str × List F → VariantResult fl
  unfolding min_of max_of avg_of
  variant_result g (vid, scores) = record {
    variant_id = vid;
    parameters = or_empty (lookup vid g.params);
    sample_count = length scores;
    avg_score = avg_of scores;
    min_score = min_of scores;
    max_score = max_of scores;
    scores = scores;
  }

  -- The list `variant_results`, sorted by `avg_score` descending.
  unfoldable pub variant_results : List Scored → List (VariantResult fl)
  unfolding group variant_result
  variant_results trials =
      let g = group no_groups trials in
      sort_desc le (λ (r : VariantResult fl). r.avg_score) (map (variant_result g) g.trials)
