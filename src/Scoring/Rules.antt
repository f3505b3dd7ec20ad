-- ===== src/Scoring/Rules.antt =====
-- core/scoring/strategies/rule_based.py: `RuleBasedScorer`. `lower`, `re_search` and `json_valid` are
-- methods of Python's library: `str.lower`, whether `re.search` finds the pattern, and whether
-- `json.loads` takes the text.
use llmops_platform.Prelude.{
  ℕ, ◌+◌, ◌≡◌, refl, sym, ◌∙◌, Str, codes, Bool, true, false, not, Option, none, some, List, [],
  ◌∷◌, ◌++◌, arith, leb, length, append_assoc, append-nil, all, is_nil, Result, ok, err, ◌>>=◌,
}
use llmops_platform.Prelude.Float.{Float}
use llmops_platform.Prelude.Substring.{is_within}
use llmops_platform.Scoring.Base.{ScoreResult, Scorer, Sample}

-- A rule: its type with the options that the type reads, each `none` where the key is missing;
-- `other` is any type that the `match` does not name.
pub data Rule : Type 0 where
  min_length : Option ℕ → Rule
  max_length : Option ℕ → Rule
  contains : Option (List Str) → Rule
  not_contains : Option (List Str) → Rule
  regex_match : Option Str → Rule
  json_valid : Rule
  other : Str → Rule

unfoldable pub type_of : Rule → Str
type_of (min_length n) = codes "min_length"
type_of (max_length n) = codes "max_length"
type_of (contains ks) = codes "contains"
type_of (not_contains ks) = codes "not_contains"
type_of (regex_match p) = codes "regex_match"
type_of json_valid = codes "json_valid"
type_of (other t) = t

abbrev pub or_default : {A : Type 0} → A → Option A → A
or_default d none = d
or_default d (some a) = a

module _ (fl : Float) (lower : Str → Str) (re_search : Str → Str → Result Bool)
    (loads : Str → Bool) where
  open fl use {F, div, round, of_ℕ}

  -- `_evaluate_rule`; a pattern that does not compile raises.
  unfoldable pub evaluate_rule : Rule → Str → Result Bool
  unfolding is_within
  evaluate_rule (min_length n) text = ok (leb (or_default 0 n) (length text))
  evaluate_rule (max_length none) text = ok true
  evaluate_rule (max_length (some n)) text = ok (leb (length text) n)
  evaluate_rule (contains ks) text =
      ok (all (λ kw. is_within (lower kw) (lower text)) (or_default [] ks))
  evaluate_rule (not_contains ks) text =
      ok (all (λ kw. not (is_within (lower kw) (lower text))) (or_default [] ks))
  evaluate_rule (regex_match p) text = re_search (or_default [] p) text
  evaluate_rule json_valid text = ok (loads text)
  evaluate_rule (other t) text = ok true

  -- `passed` and `failed_rules`
  pub record Tally : Type 0 where
    pub passed : ℕ
    pub failed_rules : List Str

  abbrev pub count_rule : Rule → Bool → Tally → Tally
  count_rule r true t = record t { passed = t.passed + 1 }
  count_rule r false t = record t { failed_rules = t.failed_rules ++ type_of r ∷ [] }

  -- `for rule in rules`
  unfoldable pub tally : List Rule → Str → Tally → Result Tally
  unfolding type_of
  tally [] text t = ok t
  tally (r ∷ rs) text t = do holds ← evaluate_rule r text; tally rs text (count_rule r holds t)

  abbrev pub no_tally : Tally
  no_tally = record { passed = 0; failed_rules = [] }

  -- What `score` makes of the tally; `report` writes the comment.
  scored : (ℕ → ℕ → List Str → Str) → ℕ → Tally → ScoreResult fl
  scored report total t = record {
    name = codes "rule_based";
    value = round (div (of_ℕ t.passed) (of_ℕ total)) 4;
    comment = some (report t.passed total t.failed_rules);
  }

  -- `RuleBasedScorer.score`, with `config["rules"]`
  unfoldable pub score : (ℕ → ℕ → List Str → Str) → Scorer fl (List Rule)
  unfolding tally scored
  score report sample [] = ok (record {
    name = codes "rule_based";
    value = of_ℕ 1;
    comment = some (codes "No rules configured, default pass");
  })
  score report sample (r ∷ rs) = do
    t ← tally (r ∷ rs) sample.output_text no_tally
    ok (scored report (length (r ∷ rs)) t)

  -- The types of the rules that fail, in their order, if all rules can be evaluated.
  abbrev pub failed_of : List Rule → Str → List Str
  failed_of [] text = []
  failed_of (r ∷ rs) text = elim (evaluate_rule r text) [
    | ok true ↦ failed_of rs text
    | ok false ↦ type_of r ∷ failed_of rs text
    | err e ↦ failed_of rs text
  ]

  abbrev pub Evaluates : List Rule → Str → Type 0
  Evaluates [] text = Unit
  Evaluates (r ∷ rs) text = ((b : Bool) × (evaluate_rule r text ≡ ok b)) × Evaluates rs text

  tally_from :
      (rs : List Rule) (text : Str) (t : Tally)
      → Evaluates rs text
      → (t' : Tally) × (tally rs text t ≡ ok t')
        × (t'.failed_rules ≡ t.failed_rules ++ failed_of rs text)
        × (t'.passed + length (failed_of rs text) ≡ t.passed + length rs)
  unfolding tally
  tally_from [] text t h = (t, refl, sym (append-nil t.failed_rules), refl)
  tally_from (r ∷ rs) text t ((true, e), h) =
      let (t', run, failed, n) = tally_from rs text (count_rule r true t) h in
      let eq : failed_of (r ∷ rs) text ≡ failed_of rs text = ground arith in
      (t', rw e run, rw eq failed, rw eq (omega (arith, n)))
  tally_from (r ∷ rs) text t ((false, e), h) =
      let (t', run, failed, n) = tally_from rs text (count_rule r false t) h in
      let eq : failed_of (r ∷ rs) text ≡ type_of r ∷ failed_of rs text = ground arith in
      (
        t',
        rw e run,
        rw eq (failed ∙ append_assoc t.failed_rules (type_of r ∷ []) (failed_of rs text)),
        rw eq (omega (arith, n)),
      )

  -- The score of rules that can all be evaluated, at least one of them: the share of the rules that
  -- hold, rounded to four digits, with a comment on the types of those that fail, in their order;
  -- together these are all the rules.
  pub score_total :
      (report : ℕ → ℕ → List Str → Str) (sample : Sample) (rs : List Rule)
      → is_nil rs ≡ false
      → Evaluates rs sample.output_text
      → (passed : ℕ) × (passed + length (failed_of rs sample.output_text) ≡ length rs)
        × (score report sample rs
            ≡ ok (record {
              name = codes "rule_based";
              value = round (div (of_ℕ passed) (of_ℕ (length rs))) 4;
              comment = some (report passed (length rs) (failed_of rs sample.output_text));
            }))
  unfolding score scored
  score_total report sample [] some_rule h = absurd (cc)
  score_total report sample (r ∷ rs) some_rule h =
      let (t, run, failed, n) = tally_from (r ∷ rs) sample.output_text no_tally h in
      (t.passed, omega (arith, n), ground arith)
