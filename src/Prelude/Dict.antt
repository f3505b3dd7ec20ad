-- ===== src/Prelude/Dict.antt =====
-- A Python `dict`: an association list in the order of insertion.
use mathlib.Core.Path.{◌≡◌, refl}
use mathlib.Core.Logic.{◌≢◌, inl, inr}
use mathlib.Core.Option.{Option, none, some}
use mathlib.Core.List.{List, [], ◌∷◌}
use native.Mathlib.Omega.{arith}
use llmops_platform.Prelude.Lists.{In}
use llmops_platform.Prelude.Tests.{if◌then◌else◌, Eq, ◌==◌, eq_iff}

abbrev pub Dict {ℓ κ} : Type ℓ → Type κ → Type (ℓ ⊔ κ)
Dict K V = List (K × V)

module _ {ℓ κ} {K : Type ℓ} {V : Type κ} ⦃e : Eq K⦄ where
  -- `d.get(k)`
  unfoldable pub lookup : K → Dict K V → Option V
  lookup k [] = none
  lookup k ((j, v) ∷ d) = if k == j then some v else lookup k d

  -- `d[k] = v`
  unfoldable pub insert : K → V → Dict K V → Dict K V
  insert k v [] = (k, v) ∷ []
  insert k v ((j, w) ∷ d) = if k == j then (j, v) ∷ d else (j, w) ∷ insert k v d

  pub lookup-insert :
      (k j : K) (v : V) (d : Dict K V)
      → lookup j (insert k v d) ≡ (if j == k then some v else lookup j d)
  unfolding lookup insert
  lookup-insert k j v [] = refl
  lookup-insert k j v ((i, w) ∷ d) =
      ground (arith, eq_iff j k, eq_iff k i, eq_iff j i, lookup-insert k j v d)

  pub lookup-insert_self : (k : K) (v : V) (d : Dict K V) → lookup k (insert k v d) ≡ some v
  lookup-insert_self k v d = ground (arith, lookup-insert k k v d, eq_iff k k)

  pub lookup-insert_ne :
      (k j : K) (v : V) (d : Dict K V) → j ≢ k → lookup j (insert k v d) ≡ lookup j d
  lookup-insert_ne k j v d h = ground (arith, lookup-insert k j v d, eq_iff j k)

module _ {K V : Type 0} ⦃e : Eq K⦄ where
  -- No key stands twice.
  abbrev pub IsDistinct : Dict K V → Type 0
  IsDistinct [] = Unit
  IsDistinct ((k, v) ∷ d) = (lookup k d ≡ none) × IsDistinct d

  pub insert-IsDistinct : (k : K) (v : V) (d : Dict K V) → IsDistinct d → IsDistinct (insert k v d)
  unfolding lookup insert
  insert-IsDistinct k v [] h = (refl, tt)
  insert-IsDistinct k v ((j, w) ∷ d) h =
      ground (arith, insert-IsDistinct k v d h.1, lookup-insert_ne k j v d, eq_iff k j)

  pub lookup-In : (k : K) (d : Dict K V) (v : V) → lookup k d ≡ some v → In (k, v) d
  unfolding lookup
  lookup-In k [] v h = absurd (cc)
  lookup-In k ((j, w) ∷ d) v h = ground (arith, eq_iff k j, lookup-In k d v)

  -- In a dictionary every entry is the one that its key finds.
  pub In-lookup : (k : K) (d : Dict K V) (v : V) → IsDistinct d → In (k, v) d → lookup k d ≡ some v
  unfolding lookup
  In-lookup k [] v h m = elim m [ ]
  In-lookup k ((j, w) ∷ d) v h (inl e) = ground (arith, eq_iff k j)
  In-lookup k ((j, w) ∷ d) v h (inr m) = ground (arith, eq_iff k j, In-lookup k d v h.1 m)
