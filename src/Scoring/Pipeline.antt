-- ===== src/Scoring/Pipeline.antt =====
-- core/scoring/pipeline.py: `ScoringPipeline`. The scorers run side by side and do not share state, so
-- `asyncio.gather` with `return_exceptions` is the list of their results in the order of the scorers.
pub mod First
use llmops_platform.Prelude.{
  ◌≡◌, refl, ◌⊎◌, inl, inr, Option, none, some, List, [], ◌∷◌, ◌++◌, arith, if◌then◌else◌,
  string_eq, Result, ok, err, Exc, ◌>>=◌, Option-cases, Result-cases, In, append_assoc, append-nil,
}
use llmops_platform.Prelude.Dict.{lookup}
use llmops_platform.Prelude.Float.{Float}
use llmops_platform.Scoring.Base.{
  Sample, ScoreResult, PipelineResult, ScorerConfig, Scorer, ScorerRegistry, get_scorer,
  list_scorers,
}

module _ (fl : Float) {C : Type 0} (registry : ScorerRegistry fl C) where
  open fl use {F, lt, add, mul, div, round, of_ℕ}

  -- An element of `_scorers`.
  pub record WeightedScorer : Type 0 where
    pub scorer : Scorer fl C
    pub weight : F
    pub config : C

  unfoldable pub sum_weights : F → List (ScorerConfig fl C) → F
  sum_weights s [] = s
  sum_weights s (c ∷ cs) = sum_weights (add s c.weight) cs

  abbrev pub normalized : F → F → F
  normalized total_weight w = if lt (of_ℕ 0) total_weight then div w total_weight else of_ℕ 0

  -- `for sc in scorer_configs`
  unfoldable pub build : F → List (ScorerConfig fl C) → Result (List WeightedScorer)
  unfolding get_scorer
  build total_weight [] = ok []
  build total_weight (sc ∷ cs) = do
    scorer ← get_scorer fl sc.strategy registry
    rest ← build total_weight cs
    ok (
        record { scorer = scorer; weight = normalized total_weight sc.weight; config = sc.config }
        ∷ rest)

  -- `ScoringPipeline.__init__`
  unfoldable pub new_pipeline : List (ScorerConfig fl C) → Result (List WeightedScorer)
  unfolding build sum_weights
  new_pipeline cs = build (sum_weights (of_ℕ 0) cs) cs

  unfoldable pub gather : Sample → List WeightedScorer → List (Result (ScoreResult fl))
  gather sample [] = []
  gather sample (s ∷ ss) = s.scorer sample s.config ∷ gather sample ss

  -- `individual_scores` and `weighted_sum`
  pub record Totals : Type 0 where
    pub individual_scores : List (ScoreResult fl)
    pub weighted_sum : F

  add_result : F → Result (ScoreResult fl) → Totals → Totals
  add_result weight (err e) t = t
  add_result weight (ok r) t = record {
    individual_scores = t.individual_scores ++ r ∷ [];
    weighted_sum = add t.weighted_sum (mul r.value weight);
  }

  -- `for (_, weight, _), result in zip(self._scorers, results)`
  unfoldable pub sum_results :
      List WeightedScorer → List (Result (ScoreResult fl)) → Totals → Totals
  unfolding add_result
  sum_results [] rs t = t
  sum_results (s ∷ ss) [] t = t
  sum_results (s ∷ ss) (r ∷ rs) t = sum_results ss rs (add_result s.weight r t)

  -- `ScoringPipeline.run`
  unfoldable pub run : Sample → List WeightedScorer → PipelineResult fl
  unfolding gather sum_results
  run sample ss =
      let t =
        sum_results ss (gather sample ss)
          (record { individual_scores = []; weighted_sum = of_ℕ 0 }) in
      record { individual_scores = t.individual_scores; aggregate_score = round t.weighted_sum 4 }

  -- The construction of a pipeline and its run, as all its callers make them.
  unfoldable pub run_pipeline : List (ScorerConfig fl C) → Sample → Result (PipelineResult fl)
  unfolding new_pipeline run
  run_pipeline cs sample = do ss ← new_pipeline cs; ok (run sample ss)

  -- What one configuration gives: nothing if its scorer is not there or raises.
  abbrev pub result_of : Sample → ScorerConfig fl C → Option (ScoreResult fl)
  result_of sample c = elim (lookup c.strategy registry) [
    | none ↦ none
    | some scorer ↦ elim (scorer sample c.config) [ ok r ↦ some r | err e ↦ none ]
  ]

  abbrev pub successes : Sample → List (ScorerConfig fl C) → List (ScoreResult fl)
  successes sample [] = []
  successes sample (c ∷ cs) = elim (result_of sample c) [
    | none ↦ successes sample cs
    | some r ↦ r ∷ successes sample cs
  ]

  -- The values of the scorers that succeed, times their weights' shares of the total `w`, added up
  -- from `s` in their order.
  abbrev pub weighted_from : Sample → F → F → List (ScorerConfig fl C) → F
  weighted_from sample w s [] = s
  weighted_from sample w s (c ∷ cs) =
      weighted_from sample w
        (elim (result_of sample c) [
          | none ↦ s
          | some r ↦ add s (mul r.value (normalized w c.weight))
        ])
        cs

  abbrev totals_of : Sample → F → List (ScorerConfig fl C) → Totals → Totals
  totals_of sample w cs t = record {
    individual_scores = t.individual_scores ++ successes sample cs;
    weighted_sum = weighted_from sample w t.weighted_sum cs;
  }

  abbrev Sums : F → List (ScorerConfig fl C) → List WeightedScorer → Type 0
  Sums w cs ss =
      (sample : Sample) (t : Totals) → sum_results ss (gather sample ss) t ≡ totals_of sample w cs t

  -- A configuration whose strategy is not registered, and the exception that it is refused with.
  abbrev pub IsUnknown : List (ScorerConfig fl C) → Exc → Type 0
  IsUnknown cs e =
      (c : ScorerConfig fl C) × In c cs
      × (lookup c.strategy registry ≡ none)
      × (e ≡ Exc.unknown_strategy c.strategy (list_scorers fl registry))

  Sums-cons :
      (w : F) (c : ScorerConfig fl C) (cs : List (ScorerConfig fl C)) (ss : List WeightedScorer)
      (scorer : Scorer fl C)
      → lookup c.strategy registry ≡ some scorer
      → Sums w cs ss
      → Sums w
          (c ∷ cs)
          (record { scorer = scorer; weight = normalized w c.weight; config = c.config } ∷ ss)
  unfolding sum_results gather add_result
  Sums-cons w c cs ss scorer found sums = λ sample t. elim (Result-cases (scorer sample c.config)) [
    | inl (e, k) ↦ ground (arith, sums sample t)
    | inr (r, k) ↦
        let t' : Totals = record {
          individual_scores = t.individual_scores ++ r ∷ [];
          weighted_sum = add t.weighted_sum (mul r.value (normalized w c.weight));
        } in
        ground
          (arith, sums sample t', append_assoc t.individual_scores (r ∷ []) (successes sample cs))
  ]

  build-cases :
      (w : F) (cs : List (ScorerConfig fl C))
      → ((e : Exc) × (build w cs ≡ err e) × IsUnknown cs e)
        ⊎ ((ss : List WeightedScorer) × (build w cs ≡ ok ss) × Sums w cs ss)
  unfolding build get_scorer sum_results gather
  build-cases w [] = inr ([], refl, λ sample t. rw (append-nil t.individual_scores))
  build-cases w (c ∷ cs) = elim (Option-cases (lookup c.strategy registry)) [
    | inl missing ↦ inl (
      Exc.unknown_strategy c.strategy (list_scorers fl registry),
      ground arith,
      (c, inl refl, missing, refl),
    )
    | inr (scorer, found) ↦ elim (build-cases w cs) [
      | inl (e, refused, (u, m, missing, same)) ↦ inl (e, ground arith, (u, inr m, missing, same))
      | inr (ss, built, sums) ↦ inr (
        record { scorer = scorer; weight = normalized w c.weight; config = c.config } ∷ ss,
        ground arith,
        Sums-cons w c cs ss scorer found sums,
      )
    ]
  ]

  -- A pipeline is refused only with the name of a strategy of its own that is not registered.
  -- Otherwise it gives back the results of exactly the scorers that succeed, in the order of their
  -- configurations, and for the aggregate the sum of their values times their weights' shares of
  -- the weight of all configurations, rounded to four digits: a scorer that raises counts as zero
  -- and keeps its share.
  pub run_pipeline-cases :
      (cs : List (ScorerConfig fl C)) (sample : Sample)
      → ((e : Exc) × (run_pipeline cs sample ≡ err e) × IsUnknown cs e)
        ⊎ (run_pipeline cs sample
            ≡ ok (record {
              individual_scores = successes sample cs;
              aggregate_score =
                  round (weighted_from sample (sum_weights (of_ℕ 0) cs) (of_ℕ 0) cs) 4;
            }))
  unfolding run_pipeline new_pipeline run
  run_pipeline-cases cs sample = elim (build-cases (sum_weights (of_ℕ 0) cs) cs) [
    | inl (e, refused, unknown) ↦ inl (e, ground arith, unknown)
    | inr (ss, built, sums) ↦
        let zero_totals : Totals = record { individual_scores = []; weighted_sum = of_ℕ 0 } in
        let sum = sums sample zero_totals in inr (rw built (ground arith))
  ]
