-- ===== src/Tuning/Results/Ranking.antt =====
-- The order of the results, and the extremes that each one reports.
use llmops_platform.Prelude.{
  ◌≡◌, sym, subst, ◌⊎◌, inl, inr, Str, Bool, true, false, List, [], ◌∷◌, map, Bool-cases, In, All,
  All-In, All-map, is_nil,
}
use llmops_platform.Prelude.Float.{Float}
use llmops_platform.Prelude.Sort.{IsDescending, sort_desc-IsDescending}
use llmops_platform.Tuning.Base.{VariantResult}
use llmops_platform.Tuning.Results.{
  Scored, no_groups, group, variant_result, variant_results, min_of, max_of, avg_of,
}
use llmops_platform.Tuning.Results.Grouping.{
  scores_of, IsComplete, variant_results-IsComplete, variant_results-covers,
}

-- `<=` as it is on floats that are not NaN.
pub record IsTotalOrder {F : Type 0} (le : F → F → Bool) : Type 0 where
  pub total : (x y : F) → le x y ≡ false → le y x ≡ true
  pub trans : (x y z : F) → le x y ≡ true → le y z ≡ true → le x z ≡ true

module _ (fl : Float) (order : IsTotalOrder fl.le) where
  open fl use {F, le}

  le_self : (x : F) → le x x ≡ true
  le_self x = elim (Bool-cases (le x x)) [ inl e ↦ e | inr e ↦ order.total x x e ]

  min_of-cases :
      (x y : F) (ys : List F)
      → (min_of fl (x ∷ y ∷ ys) ≡ x) × (le x (min_of fl (y ∷ ys)) ≡ true)
        ⊎ (min_of fl (x ∷ y ∷ ys) ≡ min_of fl (y ∷ ys)) × (le (min_of fl (y ∷ ys)) x ≡ true)
  unfolding min_of
  min_of-cases x y ys = elim (Bool-cases (le x (min_of fl (y ∷ ys)))) [
    | inl e ↦ inl (rw e, e)
    | inr e ↦ inr (rw e, order.total _ _ e)
  ]

  min_of-le : (x : F) (xs : List F) → All (λ y. le (min_of fl (x ∷ xs)) y ≡ true) (x ∷ xs)
  min_of-le x [] = unfold min_of in (le_self x, tt)
  min_of-le x (y ∷ ys) = elim (min_of-cases x y ys) [
    | inl (e, below) ↦
        subst (λ m. All (λ z. le m z ≡ true) (x ∷ y ∷ ys)) (sym e)
          (le_self x, All-map (λ z k. order.trans x _ z below k) (y ∷ ys) (min_of-le y ys))
    | inr (e, below) ↦
        subst (λ m. All (λ z. le m z ≡ true) (x ∷ y ∷ ys)) (sym e) (below, min_of-le y ys)
  ]

  max_of-cases :
      (x y : F) (ys : List F)
      → (max_of fl (x ∷ y ∷ ys) ≡ x) × (le (max_of fl (y ∷ ys)) x ≡ true)
        ⊎ (max_of fl (x ∷ y ∷ ys) ≡ max_of fl (y ∷ ys)) × (le x (max_of fl (y ∷ ys)) ≡ true)
  unfolding max_of
  max_of-cases x y ys = elim (Bool-cases (le (max_of fl (y ∷ ys)) x)) [
    | inl e ↦ inl (rw e, e)
    | inr e ↦ inr (rw e, order.total _ _ e)
  ]

  max_of-ge : (x : F) (xs : List F) → All (λ y. le y (max_of fl (x ∷ xs)) ≡ true) (x ∷ xs)
  max_of-ge x [] = unfold max_of in (le_self x, tt)
  max_of-ge x (y ∷ ys) = elim (max_of-cases x y ys) [
    | inl (e, above) ↦
        subst (λ m. All (λ z. le z m ≡ true) (x ∷ y ∷ ys)) (sym e)
          (le_self x, All-map (λ z k. order.trans z _ x k above) (y ∷ ys) (max_of-ge y ys))
    | inr (e, above) ↦
        subst (λ m. All (λ z. le z m ≡ true) (x ∷ y ∷ ys)) (sym e) (above, max_of-ge y ys)
  ]

  -- For a total order, the reported minimum and maximum bound every score of a list that is not
  -- empty, from below and from above.
  pub extremes_bound :
      (xs : List F)
      → is_nil xs ≡ false
      → All (λ y. le (min_of fl xs) y ≡ true) xs × All (λ y. le y (max_of fl xs) ≡ true) xs
  extremes_bound [] h = absurd (cc)
  extremes_bound (x ∷ xs) h = (min_of-le x xs, max_of-ge x xs)

  variant_results-IsDescending :
      (ts : List (Scored fl))
      → IsDescending le (λ (r : VariantResult fl). r.avg_score) (variant_results fl ts)
  unfolding variant_results
  variant_results-IsDescending ts =
      sort_desc-IsDescending le (λ (r : VariantResult fl). r.avg_score) order.total order.trans
        (map (variant_result fl (group fl (no_groups fl) ts)) (group fl (no_groups fl) ts).trials)

  descending_head :
      (r : VariantResult fl) (rs : List (VariantResult fl))
      → IsDescending le (λ (r : VariantResult fl). r.avg_score) (r ∷ rs)
      → All (λ (q : VariantResult fl). le q.avg_score r.avg_score ≡ true) (r ∷ rs)
  descending_head r rs h = (le_self r.avg_score, h.0)

  -- A variant with scored trials, whose average no other one exceeds.
  abbrev pub IsBest : List (Scored fl) → Str → Type 0
  IsBest ts w =
      (is_nil (scores_of fl w ts) ≡ false)
      × ((v : Str)
          → is_nil (scores_of fl v ts) ≡ false
          → le (avg_of fl (scores_of fl v ts)) (avg_of fl (scores_of fl w ts)) ≡ true)

  pub first-IsBest :
      (ts : List (Scored fl)) (r : VariantResult fl) (rs : List (VariantResult fl))
      → variant_results fl ts ≡ r ∷ rs
      → IsBest ts r.variant_id
  first-IsBest ts r rs first =
      let complete : All (IsComplete fl ts) (r ∷ rs) =
        rw first at (variant_results-IsComplete fl ts) in
      let best : All (λ (q : VariantResult fl). le q.avg_score r.avg_score ≡ true) (r ∷ rs) =
        descending_head r rs (rw first at (variant_results-IsDescending ts)) in
      let (same, full, _, avg) = complete.0 in
      (
        rw (← same) full,
        λ v h.
            let (q, m, qv) = variant_results-covers fl ts v h in
            let m' : In q (r ∷ rs) = rw first at m in
            let (qsame, _, _, qavg) = All-In (IsComplete fl ts) (r ∷ rs) q complete m' in
            let bound : le q.avg_score r.avg_score ≡ true =
              All-In (λ (q : VariantResult fl). le q.avg_score r.avg_score ≡ true) (r ∷ rs) q best
                m' in
            let ev : avg_of fl (scores_of fl v ts) ≡ q.avg_score = rw (← qv, ← qsame) (sym qavg) in
            let ew : avg_of fl (scores_of fl r.variant_id ts) ≡ r.avg_score =
              rw (← same) (sym avg) in
            rw (ev, ew) bound,
      )
