-- ===== src/Prelude/Lists.antt =====
-- Lists measured, indexed and searched over native numbers.
use Prim.Native.Nat.{ℕ, zero, suc, ◌+◌, ◌<◌, ◌≤◌}
use mathlib.Core.Path.{◌≡◌, refl, ap, sym, ◌∙◌}
use mathlib.Core.Logic.{◌⊎◌, inl, inr}
use mathlib.Core.Bool.{Bool, true, false, ◌&&◌, ◌||◌, false≢true}
use mathlib.Core.List.{List, [], ◌∷◌, ◌++◌, map}
use mathlib.Core.Option.{Option, none, some}
use native.Mathlib.Omega.{arith}
use llmops_platform.Prelude.Tests.{if◌then◌else◌, Eq, ◌==◌, Bool-cases}

module _ {ℓ} {A : Type ℓ} where
  abbrev pub length : List A → ℕ
  length [] = 0
  length (x ∷ xs) = suc (length xs)

  -- `not xs`
  abbrev pub is_nil : List A → Bool
  is_nil [] = true
  is_nil (x ∷ xs) = false

  abbrev pub get_elem? : List A → ℕ → Option A
  get_elem? [] i = none
  get_elem? (x ∷ xs) zero = some x
  get_elem? (x ∷ xs) (suc i) = get_elem? xs i

  pub length-append : (xs ys : List A) → length (xs ++ ys) ≡ length xs + length ys
  length-append [] ys = omega arith
  length-append (x ∷ xs) ys = omega (arith, length-append xs ys)

  pub is_nil-length : (xs : List A) → is_nil xs ≡ false → 0 < length xs
  is_nil-length [] h = absurd (cc)
  is_nil-length (x ∷ xs) h = omega arith

  pub get_elem?-lt : (xs : List A) (i : ℕ) → i < length xs → (a : A) × (get_elem? xs i ≡ some a)
  get_elem?-lt [] i h = elim h [ ]
  get_elem?-lt (x ∷ xs) zero h = (x, refl)
  get_elem?-lt (x ∷ xs) (suc i) h = get_elem?-lt xs i (omega arith)

  abbrev pub All {κ} : (A → Type κ) → List A → Type κ
  All P [] = Unit
  All P (x ∷ xs) = P x × All P xs

  pub All-map {κ μ} :
      {P : A → Type κ} {Q : A → Type μ}
      → ((a : A) → P a → Q a)
      → (xs : List A) → All P xs
      → All Q xs
  All-map f [] h = tt
  All-map f (x ∷ xs) h = (f x h.0, All-map f xs h.1)

  -- Python's `[x for x in xs if test(x)]`.
  abbrev pub filter : (A → Bool) → List A → List A
  filter p [] = []
  filter p (x ∷ xs) = if p x then x ∷ filter p xs else filter p xs

  -- `all(test(x) for x in xs)` and `any(…)`.
  abbrev pub all : (A → Bool) → List A → Bool
  all p [] = true
  all p (x ∷ xs) = p x && all p xs

  abbrev pub any : (A → Bool) → List A → Bool
  any p [] = false
  any p (x ∷ xs) = p x || any p xs

  -- The first element that passes a test, as `scalar_one_or_none` gives it for a unique key.
  abbrev pub find : (A → Bool) → List A → Option A
  find p [] = none
  find p (x ∷ xs) = if p x then some x else find p xs

  pub length-filter-le : (p : A → Bool) (xs : List A) → length (filter p xs) ≤ length xs
  length-filter-le p [] = omega arith
  length-filter-le p (x ∷ xs) = ground (arith, length-filter-le p xs)

  pub find-append :
      (p : A → Bool) (xs ys : List A)
      → find p (xs ++ ys) ≡ elim (find p xs) [ some a ↦ some a | none ↦ find p ys ]
  find-append p [] ys = refl
  find-append p (x ∷ xs) ys = ground (arith, find-append p xs ys)

  pub All-append {κ} : (P : A → Type κ) (xs ys : List A) → All P xs → All P ys → All P (xs ++ ys)
  All-append P [] ys h k = k
  All-append P (x ∷ xs) ys h k = (h.0, All-append P xs ys h.1 k)

  pub filter-append :
      (p : A → Bool) (xs ys : List A) → filter p (xs ++ ys) ≡ filter p xs ++ filter p ys
  filter-append p [] ys = refl
  filter-append p (x ∷ xs) ys = ground (arith, filter-append p xs ys)

module _ {A : Type 0} where
  -- `a` stands in the list, with its position kept.
  abbrev pub In : A → List A → Type 0
  In a [] = ⊥
  In a (x ∷ xs) = (a ≡ x) ⊎ In a xs

  pub In-is_nil : (xs : List A) (a : A) → In a xs → is_nil xs ≡ false
  In-is_nil [] a m = elim m [ ]
  In-is_nil (x ∷ xs) a m = refl

  pub In-get_elem? : (xs : List A) (i : ℕ) (a : A) → get_elem? xs i ≡ some a → In a xs
  In-get_elem? [] i a h = cc
  In-get_elem? (x ∷ xs) zero a h = inl (cc)
  In-get_elem? (x ∷ xs) (suc i) a h = inr (In-get_elem? xs i a h)

  pub All-In {κ} : (P : A → Type κ) (xs : List A) (a : A) → All P xs → In a xs → P a
  All-In P [] a h m = elim m [ ]
  All-In P (x ∷ xs) a h (inl e) = rw e h.0
  All-In P (x ∷ xs) a h (inr m) = All-In P xs a h.1 m

  pub find-some : (p : A → Bool) (xs : List A) (a : A) → find p xs ≡ some a → (p a ≡ true) × In a xs
  find-some p [] a h = cc
  find-some p (x ∷ xs) a h = ground (arith, find-some p xs a)

  pub In-filter : (p : A → Bool) (a : A) (xs : List A) → In a xs → p a ≡ true → In a (filter p xs)
  In-filter p a [] m t = elim m [ ]
  In-filter p a (x ∷ xs) (inl e) t = elim (Bool-cases (p x)) [
    | inl h ↦ rw h (inl e)
    | inr h ↦ absurd (false≢true (sym h ∙ ap p (sym e) ∙ t))
  ]
  In-filter p a (x ∷ xs) (inr m) t = elim (Bool-cases (p x)) [
    | inl h ↦ rw h (inr (In-filter p a xs m t))
    | inr h ↦ rw h (In-filter p a xs m t)
  ]

  pub filter-In : (p : A → Bool) (a : A) (xs : List A) → In a (filter p xs) → In a xs × (p a ≡ true)
  filter-In p a [] m = elim m [ ]
  filter-In p a (x ∷ xs) m = elim (Bool-cases (p x)) [
    | inl h ↦ elim (rw h at m) [
      | inl e ↦ (inl e, ap p e ∙ h)
      | inr k ↦ let (at, t) = filter-In p a xs k in (inr at, t)
    ]
    | inr h ↦ let (at, t) = filter-In p a xs (rw h at m) in (inr at, t)
  ]

  pub In-append_left : (xs ys : List A) (a : A) → In a xs → In a (xs ++ ys)
  In-append_left [] ys a m = elim m [ ]
  In-append_left (x ∷ xs) ys a (inl e) = inl e
  In-append_left (x ∷ xs) ys a (inr m) = inr (In-append_left xs ys a m)

  pub In-append-cases : (xs ys : List A) (a : A) → In a (xs ++ ys) → In a xs ⊎ In a ys
  In-append-cases [] ys a m = inr m
  In-append-cases (x ∷ xs) ys a (inl e) = inl (inl e)
  In-append-cases (x ∷ xs) ys a (inr m) = elim (In-append-cases xs ys a m) [
    | inl k ↦ inl (inr k)
    | inr k ↦ inr k
  ]

  pub In-append_right : (xs ys : List A) (a : A) → In a ys → In a (xs ++ ys)
  In-append_right [] ys a m = m
  In-append_right (x ∷ xs) ys a m = inr (In-append_right xs ys a m)

module _ {ℓ} {A : Type ℓ} ⦃e : Eq A⦄ where
  -- `a in xs`
  abbrev pub contains : List A → A → Bool
  contains [] a = false
  contains (x ∷ xs) a = a == x || contains xs a

-- A sum over a list.
abbrev pub sum_by {ℓ} : {A : Type ℓ} → (A → ℕ) → List A → ℕ
sum_by f [] = 0
sum_by f (x ∷ xs) = f x + sum_by f xs

module _ {A : Type 0} where
  -- What holds of the members holds of the list.
  pub All-of_In {κ} : (P : A → Type κ) (xs : List A) → ((a : A) → In a xs → P a) → All P xs
  All-of_In P [] h = tt
  All-of_In P (x ∷ xs) h = (h x (inl refl), All-of_In P xs (λ a m. h a (inr m)))

module _ {A B : Type 0} where
  pub All-map_list {κ} :
      (P : B → Type κ) (f : A → B) (xs : List A) → All (λ a. P (f a)) xs → All P (map f xs)
  All-map_list P f [] h = tt
  All-map_list P f (x ∷ xs) h = (h.0, All-map_list P f xs h.1)

  pub In-map : (f : A → B) (a : A) (xs : List A) → In a xs → In (f a) (map f xs)
  In-map f a [] m = elim m [ ]
  In-map f a (x ∷ xs) (inl e) = inl (ap f e)
  In-map f a (x ∷ xs) (inr m) = inr (In-map f a xs m)

  pub sum_by-map :
      (g : B → ℕ) (f : A → B) (xs : List A) → sum_by g (map f xs) ≡ sum_by (λ a. g (f a)) xs
  sum_by-map g f [] = refl
  sum_by-map g f (x ∷ xs) = omega (arith, sum_by-map g f xs)

pub length-map {ℓ κ} :
    {A : Type ℓ} {B : Type κ} (f : A → B) (xs : List A) → length (map f xs) ≡ length xs
length-map f [] = refl
length-map f (x ∷ xs) = ap suc (length-map f xs)

module _ {A : Type 0} ⦃e : Eq A⦄ where
  pub contains-In : (xs : List A) (a : A) → contains xs a ≡ true → In a xs
  contains-In [] a h = absurd (cc)
  contains-In (x ∷ xs) a h = ground (arith, e.beq_iff a x, contains-In xs a)

  pub In-contains : (xs : List A) (a : A) → In a xs → contains xs a ≡ true
  In-contains [] a m = elim m [ ]
  In-contains (x ∷ xs) a (inl h) = ground (arith, e.beq_iff a x)
  In-contains (x ∷ xs) a (inr m) = ground (arith, In-contains xs a m)

-- Four elements appended one by one.
pub append_four :
    {A : Type 0} (xs : List A) (a b c d : A)
    → (((xs ++ a ∷ []) ++ b ∷ []) ++ c ∷ []) ++ d ∷ [] ≡ xs ++ a ∷ b ∷ c ∷ d ∷ []
append_four [] a b c d = refl
append_four (x ∷ xs) a b c d = ap (λ ys. x ∷ ys) (append_four xs a b c d)
