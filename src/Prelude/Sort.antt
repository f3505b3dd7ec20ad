-- ===== src/Prelude/Sort.antt =====
-- Python's stable `sort(key=…, reverse=True)`: descending by the key, and ties keep their order.
use Prim.Native.Nat.{ℕ, suc, ◌+◌, ◌≤◌, ◌<◌}
use mathlib.Core.Path.{◌≡◌, refl, ap, subst, ◌∙◌}
use mathlib.Core.Logic.{◌⊎◌, inl, inr}
use mathlib.Core.Bool.{Bool, true, false}
use mathlib.Core.Option.{Option, none, some}
use mathlib.Core.List.{List, [], ◌∷◌}
use native.Mathlib.Omega.{arith}
use llmops_platform.Prelude.Tests.{if◌then◌else◌, Bool-cases, leb}
use llmops_platform.Prelude.Lists.{length, In, All, All-map, All-of_In, All-In, sum_by}

module _ {A F : Type 0} (le : F → F → Bool) (key : A → F) where
  unfoldable pub insert_desc : A → List A → List A
  insert_desc x [] = x ∷ []
  insert_desc x (y ∷ ys) = if le (key y) (key x) then x ∷ y ∷ ys else y ∷ insert_desc x ys

  unfoldable pub sort_desc : List A → List A
  unfolding insert_desc
  sort_desc [] = []
  sort_desc (x ∷ xs) = insert_desc x (sort_desc xs)

  length-insert_desc : (x : A) (ys : List A) → length (insert_desc x ys) ≡ suc (length ys)
  unfolding insert_desc
  length-insert_desc x [] = refl
  length-insert_desc x (y ∷ ys) = ground (arith, length-insert_desc x ys)

  pub length-sort_desc : (xs : List A) → length (sort_desc xs) ≡ length xs
  unfolding sort_desc
  length-sort_desc [] = refl
  length-sort_desc (x ∷ xs) =
      omega (arith, length-insert_desc x (sort_desc xs), length-sort_desc xs)

  All-insert_desc {κ} :
      (P : A → Type κ) (x : A) (ys : List A) → P x → All P ys → All P (insert_desc x ys)
  unfolding insert_desc
  All-insert_desc P x [] p h = (p, tt)
  All-insert_desc P x (y ∷ ys) p h = elim (Bool-cases (le (key y) (key x))) [
    | inl e ↦ rw e (p, h)
    | inr e ↦ rw e (h.0, All-insert_desc P x ys p h.1)
  ]

  -- What holds of every element holds of every element after the sort.
  pub All-sort_desc {κ} : (P : A → Type κ) (xs : List A) → All P xs → All P (sort_desc xs)
  unfolding sort_desc
  All-sort_desc P [] h = tt
  All-sort_desc P (x ∷ xs) h = All-insert_desc P x (sort_desc xs) h.0 (All-sort_desc P xs h.1)

  In-insert_desc_self : (x a : A) (ys : List A) → a ≡ x → In a (insert_desc x ys)
  unfolding insert_desc
  In-insert_desc_self x a [] e = inl e
  In-insert_desc_self x a (y ∷ ys) e = elim (Bool-cases (le (key y) (key x))) [
    | inl t ↦ rw t (inl e)
    | inr t ↦ rw t (inr (In-insert_desc_self x a ys e))
  ]

  In-insert_desc : (x a : A) (ys : List A) → In a ys → In a (insert_desc x ys)
  unfolding insert_desc
  In-insert_desc x a [] m = elim m [ ]
  In-insert_desc x a (y ∷ ys) m = elim (Bool-cases (le (key y) (key x))) [
    | inl t ↦ rw t (inr m)
    | inr t ↦ rw t (elim m [ inl e ↦ inl e | inr k ↦ inr (In-insert_desc x a ys k) ])
  ]

  -- A sort loses no element.
  pub In-sort_desc : (a : A) (xs : List A) → In a xs → In a (sort_desc xs)
  unfolding sort_desc
  In-sort_desc a [] m = elim m [ ]
  In-sort_desc a (x ∷ xs) (inl e) = In-insert_desc_self x a (sort_desc xs) e
  In-sort_desc a (x ∷ xs) (inr m) = In-insert_desc x a (sort_desc xs) (In-sort_desc a xs m)

  sum_by-insert_desc :
      (f : A → ℕ) (x : A) (ys : List A) → sum_by f (insert_desc x ys) ≡ f x + sum_by f ys
  unfolding insert_desc
  sum_by-insert_desc f x [] = refl
  sum_by-insert_desc f x (y ∷ ys) = ground (arith, sum_by-insert_desc f x ys)

  pub sum_by-sort_desc : (f : A → ℕ) (xs : List A) → sum_by f (sort_desc xs) ≡ sum_by f xs
  unfolding sort_desc
  sum_by-sort_desc f [] = refl
  sum_by-sort_desc f (x ∷ xs) =
      omega (arith, sum_by-insert_desc f x (sort_desc xs), sum_by-sort_desc f xs)

  -- Each element's key is at least those of the elements behind it.
  abbrev pub IsDescending : List A → Type 0
  IsDescending [] = Unit
  IsDescending (x ∷ xs) = All (λ y. le (key y) (key x) ≡ true) xs × IsDescending xs

  -- `ORDER BY key DESC LIMIT 1`
  abbrev pub head? : List A → Option A
  head? [] = none
  head? (x ∷ xs) = some x

  abbrev pub top : List A → Option A
  top xs = head? (sort_desc xs)

  head?-All {κ} : (P : A → Type κ) (xs : List A) (x : A) → head? xs ≡ some x → All P xs → P x
  head?-All P [] x h a = absurd (cc)
  head?-All P (y ∷ ys) x h a = let e : y ≡ x = ground arith in rw (← e) a.0

  -- The row that comes first is one of the rows.
  pub top-In : (xs : List A) (x : A) → top xs ≡ some x → In x xs
  top-In xs x h =
      head?-All (λ a. In a xs) (sort_desc xs) x h
        (All-sort_desc (λ a. In a xs) xs (All-of_In (λ a. In a xs) xs (λ a m. m)))

  head?-some : (xs : List A) (a : A) → In a xs → (x : A) × (head? xs ≡ some x)
  head?-some [] a m = elim m [ ]
  head?-some (x ∷ xs) a m = (x, refl)

  pub top-some : (xs : List A) (a : A) → In a xs → (x : A) × (top xs ≡ some x)
  top-some xs a m = head?-some (sort_desc xs) a (In-sort_desc a xs m)

  module _ (total : (x y : F) → le x y ≡ false → le y x ≡ true)
      (trans : (x y z : F) → le x y ≡ true → le y z ≡ true → le x z ≡ true) where
    insert_desc-IsDescending :
        (x : A) (ys : List A) → IsDescending ys → IsDescending (insert_desc x ys)
    unfolding insert_desc
    insert_desc-IsDescending x [] h = (tt, tt)
    insert_desc-IsDescending x (y ∷ ys) h = elim (Bool-cases (le (key y) (key x))) [
      | inl e ↦ rw e ((e, All-map (λ a k. trans (key a) (key y) (key x) k e) ys h.0), h)
      | inr e ↦ rw e (
        All-insert_desc (λ a. le (key a) (key y) ≡ true) x ys (total (key y) (key x) e) h.0,
        insert_desc-IsDescending x ys h.1,
      )
    ]

    pub sort_desc-IsDescending : (xs : List A) → IsDescending (sort_desc xs)
    unfolding sort_desc
    sort_desc-IsDescending [] = tt
    sort_desc-IsDescending (x ∷ xs) =
        insert_desc-IsDescending x (sort_desc xs) (sort_desc-IsDescending xs)

    head?-greatest :
        (xs : List A) (x : A)
        → head? xs ≡ some x
        → IsDescending xs
        → All (λ a. le (key a) (key x) ≡ true) xs
    head?-greatest [] x h d = tt
    head?-greatest (y ∷ ys) x h d =
        let e : y ≡ x = ground arith in
        let self : le (key x) (key x) ≡ true = elim (Bool-cases (le (key x) (key x))) [
          | inl t ↦ t
          | inr t ↦ total (key x) (key x) t
        ] in
        (rw e self, subst (λ z. All (λ a. le (key a) (key z) ≡ true) ys) e d.0)

    -- No row has a greater key than the one that comes first.
    pub top-greatest :
        (xs : List A) (x a : A) → top xs ≡ some x → In a xs → le (key a) (key x) ≡ true
    top-greatest xs x a h m =
        All-In (λ a. le (key a) (key x) ≡ true) (sort_desc xs) a
          (head?-greatest (sort_desc xs) x h (sort_desc-IsDescending xs)) (In-sort_desc a xs m)

-- The same for numbers, whose order is total.
module _ {A : Type 0} (key : A → ℕ) where
  pub top_nat-greatest : (xs : List A) (x a : A) → top leb key xs ≡ some x → In a xs → key a ≤ key x
  top_nat-greatest xs x a h m =
      let t : leb (key a) (key x) ≡ true =
        top-greatest leb key (λ x y h. ground arith) (λ x y z h k. ground arith) xs x a h m in
      ground arith

  -- A row with a greater key than all others comes first.
  pub top_nat_unique :
      (xs : List A) (a : A)
      → In a xs
      → ((b : A) → In b xs → (b ≡ a) ⊎ (key b < key a))
      → top leb key xs ≡ some a
  top_nat_unique xs a m least =
      let (x, h) = top-some leb key xs a m in
      let bound : key a ≤ key x = top_nat-greatest xs x a h m in
      elim (least x (top-In leb key xs x h)) [
        | inl e ↦ h ∙ ap some e
        | inr lt ↦ absurd (omega arith)
      ]
