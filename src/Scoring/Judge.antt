-- ===== src/Scoring/Judge.antt =====
-- core/scoring/strategies/llm_judge.py: `LLMJudgeScorer`. Of Python's library, `json.loads`, `float` and
-- the character class `\d` are parameters, and so is `str.format`.
use llmops_platform.Prelude.{
  ℕ, zero, suc, ◌≡◌, refl, ◌⊎◌, inl, inr, Str, codes, Bool, true, false, Option, none, some, [],
  ◌∷◌, ◌++◌, if◌then◌else◌, nat_beq, is_empty, Result, ok, err, Exc, ◌>>=◌, Bool-cases,
}
use llmops_platform.Prelude.Float.{Float}
use llmops_platform.Gateway.Schemas.{Role, ChatRequest, content}
use llmops_platform.Gateway.Registry.{ProviderRegistry, resolve}
use llmops_platform.Scoring.Base.{Scorer}

-- `data.get("score", 0.5)` as `float` takes it: missing, a number, or a value for which `float`
-- raises a `ValueError`, a `TypeError`, or, an integer beyond its range, an `OverflowError`; or an
-- object that is nested too deeply, at which `json.loads` raises a `RecursionError`.
pub data ScoreField (F : Type 0) : Type 0 where
  missing bad_value bad_type too_large too_deep : ScoreField F
  number : F → ScoreField F

abbrev pub take : ℕ → Str → Str
take zero s = []
take (suc n) [] = []
take (suc n) (c ∷ s) = c ∷ take n s

-- The text up to the first `}`, if there is one.
unfoldable pub until_brace : Str → Option Str
until_brace [] = none
until_brace (c ∷ s) =
    let rest = until_brace s in
    if nat_beq c b'}' then some (c ∷ []) else elim rest [ none ↦ none | some t ↦ some (c ∷ t) ]

abbrev body_at : Str → Option Str
body_at [] = none
body_at (c ∷ s) = if nat_beq c b'}' then none else until_brace (c ∷ s)

-- `re.search(r"\{[^}]+\}", text)`
unfoldable pub search_object : Str → Option Str
unfolding until_brace
search_object [] = none
search_object (c ∷ s) =
    let rest = search_object s in
    if nat_beq c b'{' then elim (body_at s) [ none ↦ rest | some t ↦ some (c ∷ t) ] else rest

module _ (is_digit : ℕ → Bool) where
  unfoldable pub digits : Str → Str
  digits [] = []
  digits (c ∷ s) = let rest = digits s in if is_digit c then c ∷ rest else []

  unfoldable pub after_digits : Str → Str
  after_digits [] = []
  after_digits (c ∷ s) = let rest = after_digits s in if is_digit c then rest else c ∷ s

  fraction : Str → Str
  unfolding digits
  fraction [] = []
  fraction (c ∷ s) = if nat_beq c b'.' then c ∷ digits s else []

  -- the first match of `re.findall(r"(\d+\.?\d*)", text)`
  unfoldable pub first_number : Str → Option Str
  unfolding fraction digits after_digits
  first_number [] = none
  first_number (c ∷ s) =
      let rest = first_number s in
      if is_digit c then some (digits (c ∷ s) ++ fraction (after_digits (c ∷ s))) else rest

  module _ (fl : Float) (loads : Str → Option (ScoreField fl.F × Str)) (float : Str → fl.F) where
    open fl use {F, lt, le, div, of_ℕ}

    abbrev pub one : F
    one = of_ℕ 1

    -- `max(0.0, min(1.0, score))`
    unfoldable pub clamp : F → F
    clamp x = let m = if lt x one then x else one in if lt (of_ℕ 0) m then m else of_ℕ 0

    abbrev pub half : F
    half = div one (of_ℕ 2)

    rescaled : F → F
    rescaled x =
        if lt one x then (if le x (of_ℕ 10) then div x (of_ℕ 10) else div x (of_ℕ 100)) else x

    from_number : Str → Option Str → F × Str
    unfolding clamp rescaled
    from_number text none = (half, codes "Could not parse judge output: " ++ take 200 text)
    from_number text (some n) = (clamp (rescaled (float n)), take 200 text)

    -- the fallback
    fallback : Str → F × Str
    unfolding from_number first_number
    fallback text = from_number text (first_number text)

    from_field : Str → ScoreField F → Str → Result (F × Str)
    unfolding fallback clamp
    from_field text missing reason = ok (clamp half, reason)
    from_field text (number x) reason = ok (clamp x, reason)
    from_field text bad_value reason = ok (fallback text)
    from_field text bad_type reason = err Exc.other
    from_field text too_large reason = err Exc.other
    from_field text too_deep reason = err Exc.other

    from_loaded : Str → Option (ScoreField F × Str) → Result (F × Str)
    unfolding from_field fallback
    from_loaded text none = ok (fallback text)
    from_loaded text (some (score, reason)) = from_field text score reason

    from_match : Str → Option Str → Result (F × Str)
    unfolding from_loaded fallback
    from_match text none = ok (fallback text)
    from_match text (some object) = from_loaded text (loads object)

    -- `_parse_judge_response`
    unfoldable pub parse_judge_response : Str → Result (F × Str)
    unfolding from_match search_object
    parse_judge_response text = from_match text (search_object text)

    -- 0, 1, a number strictly between them, or a half.
    abbrev pub IsScore : F → Type 0
    IsScore v =
        (v ≡ of_ℕ 0) ⊎ (((lt (of_ℕ 0) v ≡ true) × ((v ≡ one) ⊎ (lt v one ≡ true))) ⊎ (v ≡ half))

    clamp-IsScore : (x : F) → IsScore (clamp x)
    unfolding clamp
    clamp-IsScore x = elim (Bool-cases (lt x one)) [
      | inl below ↦ elim (Bool-cases (lt (of_ℕ 0) x)) [
        | inl above ↦ rw (below, above) (inr (inl (above, inr below)))
        | inr e ↦ rw (below, e) (inl refl)
      ]
      | inr e ↦ elim (Bool-cases (lt (of_ℕ 0) one)) [
        | inl above ↦ rw (e, above) (inr (inl (above, inl refl)))
        | inr k ↦ rw (e, k) (inl refl)
      ]
    ]

    from_number-IsScore : (text : Str) (o : Option Str) → IsScore ((from_number text o).0)
    unfolding from_number
    from_number-IsScore text none = inr (inr refl)
    from_number-IsScore text (some n) = clamp-IsScore (rescaled (float n))

    -- The score of an answer lies in its range; an answer raises only for a JSON object whose score
    -- is of a wrong type or an integer that is too large, or that is nested too deeply.
    abbrev pub Judged : Str → Result (F × Str) → Type 0
    Judged text (ok r) = IsScore (r.0)
    Judged text (err e) =
        (object : Str) × (reason : Str) × (search_object text ≡ some object)
        × ((loads object ≡ some (bad_type, reason))
            ⊎ ((loads object ≡ some (too_large, reason))
                ⊎ (loads object ≡ some (too_deep, reason))))

    from_loaded-Judged :
        (text object : Str) (o : Option (ScoreField F × Str))
        → search_object text ≡ some object
        → loads object ≡ o
        → Judged text (from_loaded text o)
    unfolding from_loaded from_field fallback
    from_loaded-Judged text object none h k = from_number-IsScore text (first_number text)
    from_loaded-Judged text object (some (missing, reason)) h k = clamp-IsScore half
    from_loaded-Judged text object (some (number x, reason)) h k = clamp-IsScore x
    from_loaded-Judged text object (some (bad_value, reason)) h k =
        from_number-IsScore text (first_number text)
    from_loaded-Judged text object (some (bad_type, reason)) h k = (object, reason, h, inl k)
    from_loaded-Judged text object (some (too_large, reason)) h k = (object, reason, h, inr (inl k))
    from_loaded-Judged text object (some (too_deep, reason)) h k = (object, reason, h, inr (inr k))

    from_match-Judged :
        (text : Str) (o : Option Str) → search_object text ≡ o → Judged text (from_match text o)
    unfolding from_match fallback
    from_match-Judged text none h = from_number-IsScore text (first_number text)
    from_match-Judged text (some object) h = from_loaded-Judged text object (loads object) h refl

    -- Whatever the judge answers, the score that is read from it is 0, 1, a number strictly between
    -- them, or the default of a half; it raises only where the answer has a JSON object that
    -- is nested too deeply for `json.loads`, or whose score `float` refuses with a `TypeError` or, an
    -- integer beyond its range, with an `OverflowError`. No law of floats is used, so this holds for
    -- infinite scores and for NaN too.
    pub parse_judge_response-Judged : (text : Str) → Judged text (parse_judge_response text)
    unfolding parse_judge_response
    parse_judge_response-Judged text = from_match-Judged text (search_object text) refl

    -- The options of a judge, each `none` where the key is missing.
    pub record JudgeConfig : Type 0 where
      pub model : Option Str
      pub rubric : Option Str
      pub template : Option Str

    abbrev or_text : Str → Option Str → Str
    or_text d none = d
    or_text d (some s) = s

    -- `reference or "N/A"`
    abbrev or_na : Option Str → Str
    or_na none = codes "N/A"
    or_na (some s) = if is_empty s then codes "N/A" else s

    -- `format template input_text output_text reference rubric` is `template.format(…)`.
    module _ (format : Str → Str → Str → Str → Str → Result Str) (default_rubric : Str)
        (registry : ProviderRegistry fl) where
      abbrev pub judge_request : Str → Str → ChatRequest fl
      judge_request model prompt = record {
        model = model;
        messages = record { role = Role.user; content = prompt } ∷ [];
        temperature = of_ℕ 0;
        max_tokens = 256;
        top_p = one;
        stop = none;
        stream = false;
        metadata = [];
      }

      -- `LLMJudgeScorer.score`
      unfoldable pub score : Scorer fl JudgeConfig
      unfolding parse_judge_response resolve content
      score sample config = do
        prompt ←
            format (or_text default_rubric config.template) sample.input_text sample.output_text
              (or_na sample.reference)
              (or_text (codes "Rate the overall quality, accuracy, and helpfulness.") config.rubric)
        provider ← resolve fl registry (or_text (codes "gemini-2.0-flash") config.model)
        response ←
            provider.chat (judge_request (or_text (codes "gemini-2.0-flash") config.model) prompt)
        judged ← parse_judge_response (content response)
        ok (record { name = codes "llm_judge"; value = judged.0; comment = some (judged.1) })
