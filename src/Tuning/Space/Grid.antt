-- ===== src/Tuning/Space/Grid.antt =====
-- The combinations of a grid search: each choice of one value for each parameter.
use llmops_platform.Prelude.{
  ℕ, suc, ◌*◌, ◌≡◌, refl, ap, ◌∙◌, ◌↔◌, inl, inr, List, [], ◌∷◌, arith, length, length-append, In,
  In-append_right, In-append_left, In-append-cases,
}
use llmops_platform.Tuning.Space.{product, cons_all, pair_all}

-- One value from each list, in order.
abbrev pub Chooses : {V : Type 0} → List V → List (List V) → Type 0
Chooses [] [] = Unit
Chooses [] (vs ∷ rest) = ⊥
Chooses (v ∷ c) [] = ⊥
Chooses (v ∷ c) (vs ∷ rest) = In v vs × Chooses c rest

abbrev pub product_size : {V : Type 0} → List (List V) → ℕ
product_size [] = 1
product_size (vs ∷ rest) = length vs * product_size rest

module _ {V : Type 0} where
  length-cons_all : (v : V) (cs : List (List V)) → length (cons_all v cs) ≡ length cs
  length-cons_all v [] = refl
  length-cons_all v (c ∷ cs) = ap suc (length-cons_all v cs)

  length-pair_all :
      (vs : List V) (cs : List (List V)) → length (pair_all vs cs) ≡ length vs * length cs
  length-pair_all [] cs = omega arith
  length-pair_all (v ∷ vs) cs = omega (
    arith,
    length-append (cons_all v cs) (pair_all vs cs),
    length-cons_all v cs,
    length-pair_all vs cs,
  )

  In-cons_all : (v : V) (c : List V) (cs : List (List V)) → In c cs → In (v ∷ c) (cons_all v cs)
  In-cons_all v c [] m = elim m [ ]
  In-cons_all v c (d ∷ cs) (inl e) = inl (ap (λ (x : List V). v ∷ x) e)
  In-cons_all v c (d ∷ cs) (inr m) = inr (In-cons_all v c cs m)

  In-pair_all :
      (v : V) (c : List V) (vs : List V) (cs : List (List V))
      → In v vs
      → In c cs
      → In (v ∷ c) (pair_all vs cs)
  In-pair_all v c [] cs m k = elim m [ ]
  In-pair_all v c (w ∷ vs) cs (inl e) k =
      In-append_left (cons_all w cs) (pair_all vs cs) (v ∷ c) (rw e (In-cons_all w c cs k))
  In-pair_all v c (w ∷ vs) cs (inr m) k =
      In-append_right (cons_all w cs) (pair_all vs cs) (v ∷ c) (In-pair_all v c vs cs m k)

  cons_all-In :
      (w v : V) (c : List V) (cs : List (List V)) → In (v ∷ c) (cons_all w cs) → (v ≡ w) × In c cs
  cons_all-In w v c [] m = elim m [ ]
  cons_all-In w v c (d ∷ cs) (inl e) = (cc, inl (cc))
  cons_all-In w v c (d ∷ cs) (inr m) = let (e, k) = cons_all-In w v c cs m in (e, inr k)

  pair_all-In :
      (v : V) (c : List V) (vs : List V) (cs : List (List V))
      → In (v ∷ c) (pair_all vs cs)
      → In v vs × In c cs
  pair_all-In v c [] cs m = elim m [ ]
  pair_all-In v c (w ∷ vs) cs m =
      elim (In-append-cases (cons_all w cs) (pair_all vs cs) (v ∷ c) m) [
        | inl k ↦ let (e, l) = cons_all-In w v c cs k in (inl e, l)
        | inr k ↦ let (e, l) = pair_all-In v c vs cs k in (inr e, l)
      ]

  cons_all-nil : (w : V) (cs : List (List V)) → In [] (cons_all w cs) → ⊥
  cons_all-nil w [] m = m
  cons_all-nil w (d ∷ cs) (inl e) = cc
  cons_all-nil w (d ∷ cs) (inr m) = cons_all-nil w cs m

  pair_all-nil : (vs : List V) (cs : List (List V)) → In [] (pair_all vs cs) → ⊥
  pair_all-nil [] cs m = m
  pair_all-nil (w ∷ vs) cs m = elim (In-append-cases (cons_all w cs) (pair_all vs cs) [] m) [
    | inl k ↦ cons_all-nil w cs k
    | inr k ↦ pair_all-nil vs cs k
  ]

  -- A product has as many combinations as the sizes of its lists multiply to; it has none if a
  -- list is empty.
  pub length-product : (ls : List (List V)) → length (product ls) ≡ product_size ls
  unfolding product
  length-product [] = refl
  length-product (vs ∷ rest) =
      length-pair_all vs (product rest) ∙ ap (λ (n : ℕ). length vs * n) (length-product rest)

  product_complete : (c : List V) (ls : List (List V)) → Chooses c ls → In c (product ls)
  unfolding product
  product_complete [] [] h = inl refl
  product_complete [] (vs ∷ rest) h = elim h [ ]
  product_complete (v ∷ c) [] h = elim h [ ]
  product_complete (v ∷ c) (vs ∷ rest) h =
      In-pair_all v c vs (product rest) h.0 (product_complete c rest h.1)

  product_sound : (c : List V) (ls : List (List V)) → In c (product ls) → Chooses c ls
  unfolding product
  product_sound [] [] m = tt
  product_sound (v ∷ c) [] (inl e) = cc
  product_sound (v ∷ c) [] (inr m) = elim m [ ]
  product_sound [] (vs ∷ rest) m = absurd (pair_all-nil vs (product rest) m)
  product_sound (v ∷ c) (vs ∷ rest) m =
      let (h, k) = pair_all-In v c vs (product rest) m in (h, product_sound c rest k)

  -- A combination stands in the product exactly when it takes one value from each list, in order.
  pub product_iff : (c : List V) (ls : List (List V)) → In c (product ls) ↔ Chooses c ls
  product_iff c ls = (product_sound c ls, product_complete c ls)
