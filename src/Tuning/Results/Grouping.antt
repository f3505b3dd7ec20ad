-- ===== src/Tuning/Results/Grouping.antt =====
-- Grouping neither loses nor moves a score.
use llmops_platform.Prelude.{
  ℕ, ◌+◌, ◌≡◌, refl, ap, sym, Str, Option, none, some, List, [], ◌∷◌, ◌++◌, map, if◌then◌else◌,
  ◌==◌, string_eq, eq_iff, arith, length, length-append, Option-cases, inl, inr, append_assoc,
  append-nil, false, sum_by, sum_by-map, is_nil, In, In-map, All, All-of_In, All-map_list, ◌∙◌,
}
use llmops_platform.Prelude.Dict.{
  Dict, lookup, insert, lookup-insert, IsDistinct, insert-IsDistinct, In-lookup, lookup-In,
}
use llmops_platform.Prelude.Float.{Float}
use llmops_platform.Prelude.Sort.{All-sort_desc, In-sort_desc, sum_by-sort_desc}
use llmops_platform.Tuning.Base.{VariantResult}
use llmops_platform.Tuning.Results.{
  Scored, Groups, no_groups, add_to, add_trial, group, variant_result, variant_results, avg_of,
}

module _ (fl : Float) where
  open fl use {F}

  -- The scores of one variant, in the order of the trials.
  abbrev pub scores_of : Str → List (Scored fl) → List F
  scores_of v [] = []
  scores_of v (t ∷ ts) = if v == t.variant_id then t.score ∷ scores_of v ts else scores_of v ts

  abbrev with_more : Option (List F) → List F → Option (List F)
  with_more none [] = none
  with_more none (x ∷ xs) = some (x ∷ xs)
  with_more (some ys) xs = some (ys ++ xs)

  lookup-add_trial :
      (v : Str) (t : Scored fl) (g : Groups fl)
      → lookup v (add_trial fl g t).trials ≡ (
          if v == t.variant_id
          then with_more (lookup v g.trials) (t.score ∷ [])
          else lookup v g.trials)
  unfolding add_trial
  lookup-add_trial v t g = elim (Option-cases (lookup t.variant_id g.trials)) [
    | inl e ↦
        ground (arith, lookup-insert t.variant_id v (t.score ∷ []) g.trials, eq_iff v t.variant_id)
    | inr (ys, e) ↦
        ground
          (arith, lookup-insert t.variant_id v (ys ++ t.score ∷ []) g.trials, eq_iff v t.variant_id)
  ]

  with_more-cons :
      (o : Option (List F)) (x : F) (xs : List F)
      → with_more (with_more o (x ∷ [])) xs ≡ with_more o (x ∷ xs)
  with_more-cons none x xs = refl
  with_more-cons (some ys) x xs = ap some (append_assoc ys (x ∷ []) xs)

  with_more-nil : (o : Option (List F)) → with_more o [] ≡ o
  with_more-nil none = refl
  with_more-nil (some ys) = ap some (append-nil ys)

  lookup-group_from :
      (v : Str) (ts : List (Scored fl)) (g : Groups fl)
      → lookup v (group fl g ts).trials ≡ with_more (lookup v g.trials) (scores_of v ts)
  unfolding group
  lookup-group_from v [] g = sym (with_more-nil (lookup v g.trials))
  lookup-group_from v (t ∷ ts) g = ground (
    arith,
    lookup-group_from v ts (add_trial fl g t),
    lookup-add_trial v t g,
    with_more-cons (lookup v g.trials) t.score (scores_of v ts),
  )

  abbrev pub count_all : Dict Str (List F) → ℕ
  count_all d = sum_by (λ e. length e.1) d

  count_all-insert_new :
      (v : Str) (x : F) (d : Dict Str (List F))
      → lookup v d ≡ none
      → count_all (insert v (x ∷ []) d) ≡ count_all d + 1
  unfolding lookup insert
  count_all-insert_new v x [] h = omega arith
  count_all-insert_new v x ((j, ys) ∷ d) h = ground (arith, count_all-insert_new v x d)

  count_all-insert_more :
      (v : Str) (ys : List F) (x : F) (d : Dict Str (List F))
      → lookup v d ≡ some ys
      → count_all (insert v (ys ++ x ∷ []) d) ≡ count_all d + 1
  unfolding lookup insert
  count_all-insert_more v ys x [] h = absurd (cc)
  count_all-insert_more v ys x ((j, zs) ∷ d) h =
      ground (arith, count_all-insert_more v ys x d, length-append ys (x ∷ []))

  count_all-add_trial :
      (g : Groups fl) (t : Scored fl) → count_all (add_trial fl g t).trials ≡ count_all g.trials + 1
  unfolding add_trial
  count_all-add_trial g t = elim (Option-cases (lookup t.variant_id g.trials)) [
    | inl e ↦ rw (e, add_to) (count_all-insert_new t.variant_id t.score g.trials e)
    | inr (ys, e) ↦ rw (e, add_to) (count_all-insert_more t.variant_id ys t.score g.trials e)
  ]

  pub count_all-group :
      (ts : List (Scored fl)) (g : Groups fl)
      → count_all (group fl g ts).trials ≡ count_all g.trials + length ts
  unfolding group
  count_all-group [] g = omega arith
  count_all-group (t ∷ ts) g =
      omega (arith, count_all-group ts (add_trial fl g t), count_all-add_trial g t)

  add_trial-IsDistinct :
      (g : Groups fl) (t : Scored fl) → IsDistinct g.trials → IsDistinct (add_trial fl g t).trials
  unfolding add_trial
  add_trial-IsDistinct g t h = elim (Option-cases (lookup t.variant_id g.trials)) [
    | inl e ↦ rw (e, add_to) (insert-IsDistinct t.variant_id (t.score ∷ []) g.trials h)
    | inr (ys, e) ↦ rw (e, add_to) (insert-IsDistinct t.variant_id (ys ++ t.score ∷ []) g.trials h)
  ]

  pub group-IsDistinct :
      (ts : List (Scored fl)) (g : Groups fl)
      → IsDistinct g.trials
      → IsDistinct (group fl g ts).trials
  unfolding group
  group-IsDistinct [] g h = h
  group-IsDistinct (t ∷ ts) g h =
      group-IsDistinct ts (add_trial fl g t) (add_trial-IsDistinct g t h)

  abbrev grouped : List (Scored fl) → Dict Str (List F)
  grouped ts = (group fl (no_groups fl) ts).trials

  lookup-grouped :
      (v : Str) (ts : List (Scored fl)) → lookup v (grouped ts) ≡ with_more none (scores_of v ts)
  unfolding lookup
  lookup-grouped v ts = lookup-group_from v ts (no_groups fl)

  with_more-some : (xs ys : List F) → with_more none xs ≡ some ys → (ys ≡ xs) × (is_nil ys ≡ false)
  with_more-some [] ys h = absurd (cc)
  with_more-some (x ∷ xs) ys h = ground arith

  with_more-full : (xs : List F) → is_nil xs ≡ false → with_more none xs ≡ some xs
  with_more-full [] h = absurd (cc)
  with_more-full (x ∷ xs) h = refl

  -- A result holds all scores of its variant, in the order of the trials, and there is one at least.
  abbrev pub IsComplete : List (Scored fl) → VariantResult fl → Type 0
  IsComplete ts r =
      (r.scores ≡ scores_of r.variant_id ts)
      × (is_nil r.scores ≡ false)
      × (r.sample_count ≡ length r.scores)
      × (r.avg_score ≡ avg_of fl r.scores)

  variant_result-IsComplete :
      (ts : List (Scored fl)) (g : Groups fl) (v : Str) (xs : List F)
      → In (v, xs) (grouped ts)
      → IsComplete ts (variant_result fl g (v, xs))
  unfolding variant_result
  variant_result-IsComplete ts g v xs m =
      let found : lookup v (grouped ts) ≡ some xs =
        In-lookup v (grouped ts) xs (group-IsDistinct ts (no_groups fl) tt) m in
      let (same, full) = with_more-some (scores_of v ts) xs (sym (lookup-grouped v ts) ∙ found) in
      (same, full, refl, refl)

  -- Every result of `get_results` is complete: its scores are those of the scored trials of its
  -- variant, in their order and at least one, and its count and average are taken from them.
  pub variant_results-IsComplete :
      (ts : List (Scored fl)) → All (IsComplete ts) (variant_results fl ts)
  unfolding variant_results
  variant_results-IsComplete ts =
      let g = group fl (no_groups fl) ts in
      All-sort_desc fl.le (λ (r : VariantResult fl). r.avg_score) (IsComplete ts)
        (map (variant_result fl g) g.trials)
        (All-map_list (IsComplete ts) (variant_result fl g) g.trials (
          All-of_In (λ e. IsComplete ts (variant_result fl g e)) g.trials
            (λ e m. variant_result-IsComplete ts g e.0 e.1 m)))

  -- Every variant that has a scored trial has a result.
  pub variant_results-covers :
      (ts : List (Scored fl)) (v : Str)
      → is_nil (scores_of v ts) ≡ false
      → (r : VariantResult fl) × In r (variant_results fl ts) × (r.variant_id ≡ v)
  unfolding variant_results variant_result
  variant_results-covers ts v h =
      let g = group fl (no_groups fl) ts in
      let e : Str × List F = (v, scores_of v ts) in
      let m : In e g.trials =
        lookup-In v g.trials (scores_of v ts)
          (lookup-grouped v ts ∙ with_more-full (scores_of v ts) h) in
      (
        variant_result fl g e,
        In-sort_desc fl.le (λ (r : VariantResult fl). r.avg_score) (variant_result fl g e)
            (map (variant_result fl g) g.trials) (In-map (variant_result fl g) e g.trials m),
        refl,
      )

  -- The sample counts of all results sum up to the number of scored trials.
  pub variant_results-counts :
      (ts : List (Scored fl))
      → sum_by (λ (r : VariantResult fl). r.sample_count) (variant_results fl ts) ≡ length ts
  unfolding variant_results variant_result
  variant_results-counts ts =
      let g = group fl (no_groups fl) ts in
      omega (
        arith,
        sum_by-sort_desc fl.le (λ (r : VariantResult fl). r.avg_score)
            (λ (r : VariantResult fl). r.sample_count) (map (variant_result fl g) g.trials),
        sum_by-map (λ (r : VariantResult fl). r.sample_count) (variant_result fl g) g.trials,
        count_all-group ts (no_groups fl),
      )
