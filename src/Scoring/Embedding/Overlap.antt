-- ===== src/Scoring/Embedding/Overlap.antt =====
-- When two texts have nothing in common.
use native.Mathlib.Numerals.{unary_clauses}
use llmops_platform.Prelude.{
  ℕ, zero, suc, ◌+◌, ◌*◌, ◌≤◌, ◌<◌, ◌≡◌, refl, ◌⊎◌, inl, inr, ◌↔◌, Str, none, some, List, [], ◌∷◌,
  arith, string_eq, eq_iff, is_empty, In, In-map, In-append_left, sum_by, Bool-cases, Option-cases,
}
use llmops_platform.Prelude.Dict.{Dict, lookup, insert, lookup-insert, lookup-In}
use llmops_platform.Scoring.Embedding.{
  count, keys, all_keys, dot, add_word, count_words, simple_tokenize, strip_punctuation,
  split_words,
}

-- No word is counted zero times.
abbrev IsPositive : Dict Str ℕ → Type 0
IsPositive d = (k : Str) (n : ℕ) → lookup k d ≡ some n → 0 < n

-- No word is in both.
abbrev pub IsDisjoint : Dict Str ℕ → Dict Str ℕ → Type 0
IsDisjoint a b = (k : Str) → (lookup k a ≡ none) ⊎ (lookup k b ≡ none)

sum_by-zero : (f : Str → ℕ) (ks : List Str) → ((k : Str) → f k ≡ 0) → sum_by f ks ≡ 0
sum_by-zero f [] h = refl
sum_by-zero f (k ∷ ks) h = omega (arith, h k, sum_by-zero f ks h)

sum_by-In : (f : Str → ℕ) (ks : List Str) (k : Str) → In k ks → f k ≤ sum_by f ks
sum_by-In f [] k m = elim m [ ]
sum_by-In f (j ∷ ks) k (inl e) = rw e (omega arith)
sum_by-In f (j ∷ ks) k (inr m) = omega (arith, sum_by-In f ks k m)

product_pos : (x y : ℕ) → 0 < x → 0 < y → x * y ≡ 0 → ⊥
product_pos zero y p q h = elim p [ ]
product_pos (suc a) zero p q h = elim q [ ]
product_pos (suc a) (suc b) p q h =
    let z : suc (suc a * b + a) ≡ 0 = simp unary_clauses at h in omega (arith, z)

module _ (lower : Str → Str) where
  add_word-IsPositive : (w : Str) (d : Dict Str ℕ) → IsPositive d → IsPositive (add_word lower w d)
  unfolding add_word
  add_word-IsPositive w d pos =
      let v = lower (strip_punctuation w) in
      elim (Bool-cases (is_empty v)) [ inl e ↦ rw e pos | inr e ↦ rw e (insert_pos v d pos) ]
    where
      insert_pos :
          (v : Str) (d : Dict Str ℕ) → IsPositive d → IsPositive (insert v (count v d + 1) d)
      insert_pos v d pos k n h =
          ground (arith, lookup-insert v k (count v d + 1) d, eq_iff k v, pos k n)

  count_words-IsPositive :
      (ws : List Str) (d : Dict Str ℕ) → IsPositive d → IsPositive (count_words lower ws d)
  unfolding count_words
  count_words-IsPositive [] d pos = pos
  count_words-IsPositive (w ∷ ws) d pos =
      count_words-IsPositive ws (add_word lower w d) (add_word-IsPositive w d pos)

  simple_tokenize-IsPositive : (s : Str) → IsPositive (simple_tokenize lower s)
  unfolding simple_tokenize lookup
  simple_tokenize-IsPositive s =
      count_words-IsPositive (split_words [] (lower s)) [] (λ k n h. absurd (cc))

  dot-IsDisjoint : (a b : Dict Str ℕ) → IsPositive a → IsPositive b → dot a b ≡ 0 → IsDisjoint a b
  unfolding dot
  dot-IsDisjoint a b pos_a pos_b zero_dot k = elim (Option-cases (lookup k a)) [
    | inl e ↦ inl e
    | inr (x, e) ↦ elim (Option-cases (lookup k b)) [
      | inl f ↦ inr f
      | inr (y, f) ↦
          let m : In k (all_keys a b) =
            In-append_left (keys a) _ k
              (In-map (λ (e : Str × ℕ). e.0) (k, x) a (lookup-In k a x e)) in
          let bound = sum_by-In (λ k. count k a * count k b) (all_keys a b) k m in
          let product : x * y ≡ 0 = ground arith in
          absurd (product_pos x y (pos_a k x e) (pos_b k y f) product)
    ]
  ]

  IsDisjoint-dot : (a b : Dict Str ℕ) → IsDisjoint a b → dot a b ≡ 0
  unfolding dot
  IsDisjoint-dot a b apart =
      sum_by-zero (λ k. count k a * count k b) (all_keys a b) (λ k. none_of k (apart k))
    where
      none_of : (k : Str) → (lookup k a ≡ none) ⊎ (lookup k b ≡ none) → count k a * count k b ≡ 0
      none_of k (inl e) = let no_a : count k a ≡ 0 = ground arith in rw no_a (omega arith)
      none_of k (inr e) = let no_b : count k b ≡ 0 = ground arith in rw no_b (omega arith)

  -- The numerator of the similarity of two texts is zero exactly when no word, lower-cased and
  -- without the punctuation around it, is in both: a score is never lost to a word that is there.
  pub dot-simple_tokenize :
      (s t : Str)
      → (dot (simple_tokenize lower s) (simple_tokenize lower t) ≡ 0)
        ↔ IsDisjoint (simple_tokenize lower s) (simple_tokenize lower t)
  dot-simple_tokenize s t =
      let a = simple_tokenize lower s in
      let b = simple_tokenize lower t in
      (
        dot-IsDisjoint a b (simple_tokenize-IsPositive s) (simple_tokenize-IsPositive t),
        IsDisjoint-dot a b,
      )
