-- ===== src/Scoring/Embedding.antt =====
-- core/scoring/strategies/embedding.py: `EmbeddingSimilarityScorer`. `str.lower` and `math.sqrt` are
-- parameters; `report` writes the comment. The order in which a set is run over does not show in a
-- sum of integers.
pub mod Overlap
use llmops_platform.Prelude.{
  ℕ, ◌+◌, ◌*◌, Str, codes, Bool, true, false, not, ◌||◌, Option, none, some, List, [], ◌∷◌, ◌++◌,
  map, filter, contains, nat_eq, string_eq, is_empty, is_nil, if◌then◌else◌, sum_by, Result, ok,
}
use llmops_platform.Prelude.Dict.{Dict, lookup, insert}
use llmops_platform.Prelude.Float.{Float}
use llmops_platform.Middleware.Strings.{is_space}
use llmops_platform.Scoring.Base.{ScoreResult, Scorer, Sample}

abbrev cons_word : Str → List Str → List Str
cons_word [] ws = ws
cons_word (c ∷ w) ws = (c ∷ w) ∷ ws

-- `text.split()`; `w` is the word that has begun
unfoldable pub split_words : Str → Str → List Str
unfolding is_space
split_words w [] = cons_word w []
split_words w (c ∷ s) =
    if is_space c then cons_word w (split_words [] s) else split_words (w ++ c ∷ []) s

abbrev pub punctuation : Str
punctuation = codes ".,!?;:'\"()[]{}"

unfoldable pub drop_front : Str → Str
drop_front [] = []
drop_front (c ∷ s) = if contains punctuation c then drop_front s else c ∷ s

unfoldable pub drop_back : Str → Str
drop_back [] = []
drop_back (c ∷ s) =
    let r = drop_back s in
    if is_empty r then (if contains punctuation c then [] else c ∷ []) else c ∷ r

-- `w.strip(".,!?;:'\"()[]{}")`
unfoldable pub strip_punctuation : Str → Str
unfolding drop_front drop_back
strip_punctuation w = drop_back (drop_front w)

-- `freq.get(w, 0)`
abbrev pub count : Str → Dict Str ℕ → ℕ
count w freq = elim (lookup w freq) [ none ↦ 0 | some n ↦ n ]

abbrev pub keys : Dict Str ℕ → List Str
keys d = map (λ e. e.0) d

abbrev pub has_key : Dict Str ℕ → Str → Bool
has_key d k = elim (lookup k d) [ none ↦ false | some n ↦ true ]

-- `set(vec_a.keys()) | set(vec_b.keys())`
abbrev pub all_keys : Dict Str ℕ → Dict Str ℕ → List Str
all_keys a b = keys a ++ filter (λ k. not (has_key a k)) (keys b)

-- `dot`, and the sum under a root
unfoldable pub dot : Dict Str ℕ → Dict Str ℕ → ℕ
dot a b = sum_by (λ k. count k a * count k b) (all_keys a b)

unfoldable pub squares : Dict Str ℕ → ℕ
squares d = sum_by (λ e. e.1 * e.1) d

module _ (lower : Str → Str) where
  unfoldable pub add_word : Str → Dict Str ℕ → Dict Str ℕ
  unfolding strip_punctuation
  add_word w freq =
      let v = lower (strip_punctuation w) in
      if is_empty v then freq else insert v (count v freq + 1) freq

  unfoldable pub count_words : List Str → Dict Str ℕ → Dict Str ℕ
  unfolding add_word
  count_words [] freq = freq
  count_words (w ∷ ws) freq = count_words ws (add_word w freq)

  -- `_simple_tokenize`
  unfoldable pub simple_tokenize : Str → Dict Str ℕ
  unfolding count_words split_words
  simple_tokenize text = count_words (split_words [] (lower text)) []

  module _ (fl : Float) (sqrt : fl.F → fl.F) where
    open fl use {F, eqb, mul, div, round, of_ℕ}

    -- `_cosine_similarity`
    unfoldable pub cosine_similarity : Dict Str ℕ → Dict Str ℕ → F
    unfolding dot squares
    cosine_similarity a b =
        let norm_a = sqrt (of_ℕ (squares a)) in
        let norm_b = sqrt (of_ℕ (squares b)) in
        if is_nil (all_keys a b)
        then of_ℕ 0
        else if eqb norm_a (of_ℕ 0) || eqb norm_b (of_ℕ 0)
        then of_ℕ 0
        else div (of_ℕ (dot a b)) (mul norm_a norm_b)

    tf_similarity : Str → Str → F
    unfolding cosine_similarity simple_tokenize
    tf_similarity a b = cosine_similarity (simple_tokenize a) (simple_tokenize b)

    abbrev or_tf : Option Str → Str
    or_tf none = codes "tf"
    or_tf (some m) = m

    no_reference : ScoreResult fl
    no_reference = record {
      name = codes "embedding";
      value = of_ℕ 0;
      comment = some (codes "No reference text provided for similarity comparison");
    }

    -- `EmbeddingSimilarityScorer.score`, with `config.get("method")`
    unfoldable pub score : (Str → F → Str) → Scorer fl (Option Str)
    unfolding tf_similarity no_reference
    score report sample method = elim sample.reference [
      | none ↦ ok no_reference
      | some reference ↦
          let similarity = tf_similarity sample.output_text reference in
          if is_empty reference
          then ok no_reference
          else ok (record {
            name = codes "embedding";
            value = round similarity 4;
            comment = some (report (or_tf method) similarity);
          })
    ]
