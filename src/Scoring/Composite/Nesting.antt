-- ===== src/Scoring/Composite/Nesting.antt =====
-- A composite scorer is the run of a pipeline in the registry that it stands in itself.
use llmops_platform.Prelude.{
  ℕ, ◌≡◌, refl, sym, ap, ap₂, ◌∙◌, Str, codes, Bool, true, false, Option, none, some, List, [], ◌∷◌,
  ◌==◌, string_eq, if◌then◌else◌, arith, length, map, Result, ok, err, Exc, Option-cases,
  Bool-cases, inl, inr,
}
use llmops_platform.Prelude.Dict.{Dict, lookup, insert, lookup-insert}
use llmops_platform.Prelude.Float.{Float}
use llmops_platform.Scoring.Base.{
  Sample, ScoreResult, ScorerConfig, Scorer, ScorerRegistry, register_scorer, list_scorers,
}
use llmops_platform.Scoring.Pipeline.{
  run_pipeline, result_of, successes, weighted_from, sum_weights, normalized,
}
use llmops_platform.Scoring.Pipeline.First.{first_unknown, outcome, run_pipeline-outcome}
use llmops_platform.Scoring.Composite.{
  Config, config, SubScorers, nil, cons, scorer_configs, no_scorers, of_run, Prepared, on_prepared,
  composite, prepared, registry,
}

lookup-map :
    {V W : Type 0} (f : V → W) (k : Str) (d : Dict Str V)
    → lookup k (map (λ (e : Str × V). (e.0, f (e.1))) d)
      ≡ elim (lookup k d) [ none ↦ none | some v ↦ some (f v) ]
unfolding lookup
lookup-map f k [] = refl
lookup-map f k ((j, v) ∷ d) = ground (arith, lookup-map f k d)

names-map :
    {V W : Type 0} (f : V → W) (d : Dict Str V)
    → map (λ (e : Str × W). e.0) (map (λ (e : Str × V). (e.0, f (e.1))) d)
      ≡ map (λ (e : Str × V). e.0) d
names-map f [] = refl
names-map f ((j, v) ∷ d) = ap (λ ks. j ∷ ks) (names-map f d)

names-insert :
    {V W : Type 0} (f : V → W) (k : Str) (v : V) (w : W) (d : Dict Str V)
    → map (λ (e : Str × W). e.0) (insert k w (map (λ (e : Str × V). (e.0, f (e.1))) d))
      ≡ map (λ (e : Str × V). e.0) (insert k v d)
unfolding insert
names-insert f k v w [] = refl
names-insert f k v w ((j, x) ∷ d) = elim (Bool-cases (k == j)) [
  | inl e ↦ rw e (ap (λ ks. j ∷ ks) (names-map f d))
  | inr e ↦ rw e (ap (λ ks. j ∷ ks) (names-insert f k v w d))
]

module _ (fl : Float) (B : Type 0) (show : ℕ → Str) (others : ScorerRegistry fl (Config fl B)) where
  open fl use {F, of_ℕ, add, mul, round}

  abbrev reg : ScorerRegistry fl (Config fl B)
  reg = registry fl B show others

  abbrev reg' : ScorerRegistry fl (Prepared fl B show others)
  reg' = on_prepared fl B show others

  -- A scorer that takes a prepared configuration and reads the configuration in it.
  abbrev adapted : Scorer fl (Config fl B) → Scorer fl (Prepared fl B show others)
  adapted s sample c = s sample c.0

  abbrev run_ready : Scorer fl (Prepared fl B show others)
  run_ready sample c = c.1 sample

  abbrev run_composite : Scorer fl (Config fl B)
  run_composite sample c = composite fl B show others c sample

  names : list_scorers fl reg' ≡ list_scorers fl reg
  unfolding list_scorers registry register_scorer
  names = names-insert adapted (codes "composite") run_composite run_ready others

  abbrev plain : Str → F → Config fl B → ScorerConfig fl (Config fl B)
  plain s w c = record { strategy = s; weight = w; config = c }

  abbrev ready : Str → F → Config fl B → ScorerConfig fl (Prepared fl B show others)
  ready s w c = record {
    strategy = s;
    weight = w;
    config = (c, λ sample. composite fl B show others c sample);
  }

  lookup-reg :
      (s : Str)
      → lookup s reg ≡ (if s == codes "composite" then some run_composite else lookup s others)
  unfolding registry register_scorer
  lookup-reg s = lookup-insert (codes "composite") s run_composite others

  lookup-reg' :
      (s : Str)
      → lookup s reg' ≡ (
          if s == codes "composite"
          then some run_ready
          else elim (lookup s others) [ none ↦ none | some v ↦ some (adapted v) ])
  lookup-reg' s =
      lookup-insert (codes "composite") s run_ready
        (map (λ (e : Str × Scorer fl (Config fl B)). (e.0, adapted (e.1))) others)
      ∙ ap
          (λ (o : Option (Scorer fl (Prepared fl B show others))).
            if s == codes "composite" then some run_ready else o)
          (lookup-map adapted s others)

  abbrev attempt : {C : Type 0} → Option (Scorer fl C) → Sample → C → Option (ScoreResult fl)
  attempt none sample c = none
  attempt (some scorer) sample c = elim (scorer sample c) [ ok r ↦ some r | err e ↦ none ]

  attempt-result_of :
      {C : Type 0} (r : ScorerRegistry fl C) (sample : Sample) (c : ScorerConfig fl C)
      → result_of fl r sample c ≡ attempt (lookup c.strategy r) sample c.config
  attempt-result_of r sample c = elim (Option-cases (lookup c.strategy r)) [
    | inl e ↦ ground arith
    | inr (v, e) ↦ ground arith
  ]

  both_attempts :
      (b : Bool) (o : Option (Scorer fl (Config fl B))) (sample : Sample) (c : Config fl B)
      → attempt
          (if b then some run_ready else elim o [ none ↦ none | some v ↦ some (adapted v) ])
          sample
          (c, λ sample. composite fl B show others c sample)
        ≡ attempt (if b then some run_composite else o) sample c
  both_attempts true o sample c = refl
  both_attempts false none sample c = refl
  both_attempts false (some v) sample c = refl

  result_of-ready :
      (sample : Sample) (s : Str) (w : F) (c : Config fl B)
      → result_of fl reg' sample (ready s w c) ≡ result_of fl reg sample (plain s w c)
  result_of-ready sample s w c =
      attempt-result_of reg' sample (ready s w c)
      ∙ ap (λ o. attempt o sample (c, λ sample. composite fl B show others c sample))
          (lookup-reg' s)
      ∙ both_attempts (s == codes "composite") (lookup s others) sample c
      ∙ ap (λ o. attempt o sample c) (sym (lookup-reg s))
      ∙ sym (attempt-result_of reg sample (plain s w c))

  abbrev missing : {C : Type 0} → ScorerRegistry fl C → Str → Option Exc → Option Exc
  missing r s rest = elim (lookup s r) [
    | none ↦ some (Exc.unknown_strategy s (list_scorers fl r))
    | some scorer ↦ rest
  ]

  missing-ready : (s : Str) (rest : Option Exc) → missing reg' s rest ≡ missing reg s rest
  missing-ready s rest = elim (Bool-cases (s == codes "composite")) [
    | inl e ↦ ground (arith, lookup-reg s, lookup-reg' s)
    | inr e ↦ elim (Option-cases (lookup s others)) [
      | inl f ↦ ground (arith, lookup-reg s, lookup-reg' s, names)
      | inr (v, f) ↦ ground (arith, lookup-reg s, lookup-reg' s)
    ]
  ]

  first_unknown-ready :
      (subs : SubScorers fl B)
      → first_unknown fl reg' (prepared fl B show others subs)
        ≡ first_unknown fl reg (scorer_configs fl B subs)
  unfolding prepared
  first_unknown-ready nil = refl
  first_unknown-ready (cons s w c rest) =
      ap (missing reg' s) (first_unknown-ready rest)
      ∙ missing-ready s (first_unknown fl reg (scorer_configs fl B rest))

  abbrev prepend : Option (ScoreResult fl) → List (ScoreResult fl) → List (ScoreResult fl)
  prepend none rs = rs
  prepend (some r) rs = r ∷ rs

  successes-cons :
      {C : Type 0} (r : ScorerRegistry fl C) (sample : Sample) (c : ScorerConfig fl C)
      (cs : List (ScorerConfig fl C))
      → successes fl r sample (c ∷ cs)
        ≡ prepend (result_of fl r sample c) (successes fl r sample cs)
  successes-cons r sample c cs = elim (Option-cases (result_of fl r sample c)) [
    | inl e ↦ ground arith
    | inr (v, e) ↦ ground arith
  ]

  successes-ready :
      (sample : Sample) (subs : SubScorers fl B)
      → successes fl reg' sample (prepared fl B show others subs)
        ≡ successes fl reg sample (scorer_configs fl B subs)
  unfolding prepared
  successes-ready sample nil = refl
  successes-ready sample (cons s w c rest) =
      successes-cons reg' sample (ready s w c) (prepared fl B show others rest)
      ∙ ap₂ prepend (result_of-ready sample s w c) (successes-ready sample rest)
      ∙ sym (successes-cons reg sample (plain s w c) (scorer_configs fl B rest))

  abbrev add_share : F → Option (ScoreResult fl) → F → F
  add_share t none share = t
  add_share t (some r) share = add t (mul r.value share)

  weighted_from-cons :
      {C : Type 0} (r : ScorerRegistry fl C) (sample : Sample) (total t : F) (c : ScorerConfig fl C)
      (cs : List (ScorerConfig fl C))
      → weighted_from fl r sample total t (c ∷ cs)
        ≡ weighted_from fl r sample total
            (add_share t (result_of fl r sample c) (normalized fl r total c.weight))
            cs
  weighted_from-cons r sample total t c cs = elim (Option-cases (result_of fl r sample c)) [
    | inl e ↦ ground arith
    | inr (v, e) ↦ ground arith
  ]

  weighted_from-ready :
      (sample : Sample) (total t : F) (subs : SubScorers fl B)
      → weighted_from fl reg' sample total t (prepared fl B show others subs)
        ≡ weighted_from fl reg sample total t (scorer_configs fl B subs)
  unfolding prepared
  weighted_from-ready sample total t nil = refl
  weighted_from-ready sample total t (cons s w c rest) =
      let share = normalized fl reg total w in
      weighted_from-cons reg' sample total t (ready s w c) (prepared fl B show others rest)
      ∙ ap
          (λ o.
            weighted_from fl reg' sample total (add_share t o share)
              (prepared fl B show others rest))
          (result_of-ready sample s w c)
      ∙ weighted_from-ready sample total (add_share t (result_of fl reg sample (plain s w c)) share)
          rest
      ∙ sym (weighted_from-cons reg sample total t (plain s w c) (scorer_configs fl B rest))

  sum_weights-ready :
      (t : F) (subs : SubScorers fl B)
      → sum_weights fl reg' t (prepared fl B show others subs)
        ≡ sum_weights fl reg t (scorer_configs fl B subs)
  unfolding prepared sum_weights
  sum_weights-ready t nil = refl
  sum_weights-ready t (cons s w c rest) = sum_weights-ready (add t w) rest

  outcome-ready :
      (o : Option Exc) (subs : SubScorers fl B) (sample : Sample)
      → outcome fl reg' o (prepared fl B show others subs) sample
        ≡ outcome fl reg o (scorer_configs fl B subs) sample
  outcome-ready (some e) subs sample = refl
  outcome-ready none subs sample =
      let total = sum_weights fl reg (of_ℕ 0) (scorer_configs fl B subs) in
      ap₂ (λ rs x. ok (record { individual_scores = rs; aggregate_score = round x 4 }))
        (successes-ready sample subs)
        (ap (λ w. weighted_from fl reg' sample w (of_ℕ 0) (prepared fl B show others subs))
            (sum_weights-ready (of_ℕ 0) subs)
          ∙ weighted_from-ready sample total (of_ℕ 0) subs)

  run_pipeline-ready :
      (subs : SubScorers fl B) (sample : Sample)
      → run_pipeline fl reg' (prepared fl B show others subs) sample
        ≡ run_pipeline fl reg (scorer_configs fl B subs) sample
  run_pipeline-ready subs sample =
      run_pipeline-outcome fl reg' (prepared fl B show others subs) sample
      ∙ ap (λ o. outcome fl reg' o (prepared fl B show others subs) sample)
          (first_unknown-ready subs)
      ∙ outcome-ready (first_unknown fl reg (scorer_configs fl B subs)) subs sample
      ∙ sym (run_pipeline-outcome fl reg (scorer_configs fl B subs) sample)

  length-ready :
      (subs : SubScorers fl B)
      → length (prepared fl B show others subs) ≡ length (scorer_configs fl B subs)
  unfolding prepared
  length-ready nil = refl
  length-ready (cons s w c rest) = ap ℕ.suc (length-ready rest)

  -- What a composite scorer gives, by its sub-scorers.
  abbrev pub nested_run : List (ScorerConfig fl (Config fl B)) → Sample → Result (ScoreResult fl)
  nested_run [] sample = ok (no_scorers fl B show)
  nested_run (c ∷ cs) sample =
      of_run fl B show (length (c ∷ cs)) (run_pipeline fl reg (c ∷ cs) sample)

  -- The composite scorer gives exactly what a pipeline of its sub-scorers gives in the registry that
  -- the composite scorer is registered in itself, to whatever depth they nest: its aggregate for the
  -- value, and an error if the pipeline is refused. Without sub-scorers it gives zero.
  pub composite-nested_run :
      (rest : B) (subs : SubScorers fl B) (sample : Sample)
      → composite fl B show others (config rest subs) sample
        ≡ nested_run (scorer_configs fl B subs) sample
  unfolding composite
  composite-nested_run rest nil sample = refl
  composite-nested_run rest (cons s w c subs) sample =
      ap₂ (of_run fl B show) (length-ready (cons s w c subs))
        (run_pipeline-ready (cons s w c subs) sample)
