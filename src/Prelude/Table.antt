-- ===== src/Prelude/Table.antt =====
-- A database table: its rows in the order of insertion, with a numeric primary key.
use Prim.Native.Nat.{ℕ}
use mathlib.Core.Path.{◌≡◌, refl, ap}
use mathlib.Core.Bool.{Bool}
use mathlib.Core.Option.{Option, none, some}
use mathlib.Core.Logic.{◌≢◌, ◌⊎◌, inl, inr}
use mathlib.Core.List.{List, [], ◌∷◌, ◌++◌}
use native.Mathlib.Omega.{arith}
use llmops_platform.Prelude.Tests.{if◌then◌else◌, nat_beq, Bool-cases}
use llmops_platform.Prelude.Lists.{find, In}

module _ {A : Type 0} (key : A → ℕ) where
  -- `select(Model).where(Model.id == id)`
  abbrev pub by_id : ℕ → List A → Option A
  by_id id rows = find (λ r. nat_beq (key r) id) rows

  -- Assignments to the attributes of the object with that key, as `commit` writes them.
  unfoldable pub update : ℕ → (A → A) → List A → List A
  update id f [] = []
  update id f (r ∷ rows) =
      if nat_beq (key r) id then f r ∷ update id f rows else r ∷ update id f rows

  abbrev pub map_some : (A → A) → Option A → Option A
  map_some f none = none
  map_some f (some a) = some (f a)

  pub by_id-update_self :
      (id : ℕ) (f : A → A) (rows : List A)
      → ((r : A) → key (f r) ≡ key r)
      → by_id id (update id f rows) ≡ map_some f (by_id id rows)
  unfolding update
  by_id-update_self id f [] same = refl
  by_id-update_self id f (r ∷ rows) same = ground (arith, same r, by_id-update_self id f rows same)

  pub by_id-update_ne :
      (id j : ℕ) (f : A → A) (rows : List A)
      → ((r : A) → key (f r) ≡ key r)
      → j ≢ id
      → by_id j (update id f rows) ≡ by_id j rows
  unfolding update
  by_id-update_ne id j f [] same ne = refl
  by_id-update_ne id j f (r ∷ rows) same ne =
      ground (arith, same r, by_id-update_ne id j f rows same ne)

  -- A search by something that the assignments do not touch finds the same row, as it is or with
  -- the assignments made.
  pub find-update :
      (p : A → Bool) (id : ℕ) (f : A → A) (rows : List A) (a : A)
      → ((r : A) → p (f r) ≡ p r)
      → find p rows ≡ some a
      → (b : A) × (find p (update id f rows) ≡ some b) × ((b ≡ a) ⊎ (b ≡ f a))
  unfolding update
  find-update p id f [] a same h = absurd (cc)
  find-update p id f (r ∷ rows) a same h = elim (Bool-cases (nat_beq (key r) id)) [
    | inl hit ↦ elim (Bool-cases (p r)) [
      | inl pr ↦ (f r, ground (arith, same r), inr (ground arith))
      | inr pr ↦
          let (b, found, which) = find-update p id f rows a same (ground arith) in
          (b, ground (arith, same r), which)
    ]
    | inr miss ↦ elim (Bool-cases (p r)) [
      | inl pr ↦ (r, ground arith, inl (ground arith))
      | inr pr ↦
          let (b, found, which) = find-update p id f rows a same (ground arith) in
          (b, ground arith, which)
    ]
  ]

  -- The row that the assignments are made to is found with them made.
  pub find-update_self :
      (p : A → Bool) (id : ℕ) (f : A → A) (rows : List A) (a : A)
      → ((r : A) → p (f r) ≡ p r)
      → find p rows ≡ some a
      → key a ≡ id
      → find p (update id f rows) ≡ some (f a)
  unfolding update
  find-update_self p id f [] a same h k = absurd (cc)
  find-update_self p id f (r ∷ rows) a same h k =
      ground (arith, same r, find-update_self p id f rows a same)

  -- A row of the new table is an old row that was left alone, or an old one with the assignments.
  pub update-In :
      (id : ℕ) (f : A → A) (rows : List A) (b : A)
      → In b (update id f rows)
      → (a : A) × In a rows × ((b ≡ a) ⊎ (key a ≡ id) × (b ≡ f a))
  unfolding update
  update-In id f [] b m = elim m [ ]
  update-In id f (r ∷ rows) b m = elim (Bool-cases (nat_beq (key r) id)) [
    | inl hit ↦ elim (rw hit at m) [
      | inl e ↦ (r, inl refl, inr (ground arith, e))
      | inr k ↦ let (a, at, which) = update-In id f rows b k in (a, inr at, which)
    ]
    | inr miss ↦ elim (rw miss at m) [
      | inl e ↦ (r, inl refl, inl e)
      | inr k ↦ let (a, at, which) = update-In id f rows b k in (a, inr at, which)
    ]
  ]

  pub In-update :
      (id : ℕ) (f : A → A) (rows : List A) (a : A)
      → In a rows
      → In a (update id f rows) ⊎ In (f a) (update id f rows)
  unfolding update
  In-update id f [] a m = elim m [ ]
  In-update id f (r ∷ rows) a (inl e) = elim (Bool-cases (nat_beq (key r) id)) [
    | inl hit ↦ rw hit (inr (inl (ap f e)))
    | inr miss ↦ rw miss (inl (inl e))
  ]
  In-update id f (r ∷ rows) a (inr m) = elim (Bool-cases (nat_beq (key r) id)) [
    | inl hit ↦
        rw hit (elim (In-update id f rows a m) [ inl k ↦ inl (inr k) | inr k ↦ inr (inr k) ])
    | inr miss ↦
        rw miss (elim (In-update id f rows a m) [ inl k ↦ inl (inr k) | inr k ↦ inr (inr k) ])
  ]

  -- A row that is found is found again when rows are added behind it.
  pub by_id-append :
      (id : ℕ) (rows new : List A) (r : A)
      → by_id id rows ≡ some r
      → by_id id (rows ++ new) ≡ some r
  by_id-append id [] new r h = absurd (cc)
  by_id-append id (x ∷ rows) new r h = ground (arith, by_id-append id rows new r)
