-- ===== src/Tuning/AbTest.antt =====
-- core/tuning/ab_test.py: the assignment of requests to variants. SHA-256 is a parameter, `sha`.
use llmops_platform.Prelude.{
  ℕ, ◌%◌, ◌≤◌, ◌<◌, ◌≡◌, Str, true, false, Option, none, some, List, arith, leb, if◌then◌else◌,
  Result, ok, Exc, ◌>>=◌, or_raise, length, get_elem?, get_elem?-lt, In, In-get_elem?, is_nil,
  is_nil-length, ◌⊎◌, inl, inr, Bool-cases,
}
use llmops_platform.Prelude.Float.{Float}
use llmops_platform.Tuning.Base.{ParameterSet}

module _ (fl : Float) (sha : Str → ℕ) where
  open fl use {F, mul, of_ℕ, trunc, le}

  pub record AbTestAllocator : Type 0 where
    pub variants : List (ParameterSet fl)
    pub traffic_percentage : F

  -- `variants[i]`, which raises an `IndexError` out of range.
  unfoldable pub variant_at : List (ParameterSet fl) → ℕ → Result (ParameterSet fl)
  variant_at vs i = or_raise (get_elem? vs i) Exc.index_error

  -- `AbTestAllocator.allocate`
  unfoldable pub allocate : AbTestAllocator → Str → Result (Option (ParameterSet fl))
  unfolding variant_at
  allocate a key =
      if is_nil a.variants
      then ok none
      else let hash_int = sha key in
        let bucket = hash_int % 10000 in
        let threshold = trunc (mul a.traffic_percentage (of_ℕ 100)) in
        if leb threshold bucket
        then ok none
        else do variant ← variant_at a.variants (hash_int % length a.variants); ok (some variant)

  -- `AbTestAllocator.variant_count`
  unfoldable pub variant_count : AbTestAllocator → ℕ
  variant_count a = length a.variants

  -- The number of the 10000 buckets that take part.
  abbrev pub threshold_of : AbTestAllocator → ℕ
  threshold_of a = trunc (mul a.traffic_percentage (of_ℕ 100))

  abbrev pub bucket_of : Str → ℕ
  bucket_of key = sha key % 10000

  allocate-in :
      (a : AbTestAllocator) (key : Str)
      → is_nil a.variants ≡ false
      → bucket_of key < threshold_of a
      → (v : ParameterSet fl) × (get_elem? a.variants (sha key % length a.variants) ≡ some v)
        × (allocate a key ≡ ok (some v))
  unfolding allocate
  allocate-in a key some_variant inside =
      let pos : 0 < length a.variants = is_nil-length a.variants some_variant in
      let (v, e) = get_elem?-lt a.variants (sha key % length a.variants) (omega arith) in
      (v, e, ground arith)

  allocate-out :
      (a : AbTestAllocator) (key : Str)
      → (is_nil a.variants ≡ true) ⊎ (threshold_of a ≤ bucket_of key)
      → allocate a key ≡ ok none
  unfolding allocate
  allocate-out a key h = ground arith

  -- The outcome of an allocation as its description gives it.
  pub data Allocated (a : AbTestAllocator) (key : Str)
      : Result (Option (ParameterSet fl)) → Type 0 where
    inside :
        (v : ParameterSet fl)
        → bucket_of key < threshold_of a
        → In v a.variants
        → Allocated a key (ok (some v))
    outside :
        (is_nil a.variants ≡ true) ⊎ (threshold_of a ≤ bucket_of key) → Allocated a key (ok none)

  -- An allocation never raises: it gives a variant of the allocator if there is one and the key's
  -- bucket lies below the threshold, and it gives nothing only if there is no variant or the bucket
  -- does not lie below it.
  pub allocate_total : (a : AbTestAllocator) (key : Str) → Allocated a key (allocate a key)
  allocate_total a key = elim (Bool-cases (is_nil a.variants)) [
    | inl e ↦ rw (allocate-out a key (inl e)) (outside (inl e))
    | inr e ↦ elim (Bool-cases (leb (threshold_of a) (bucket_of key))) [
      | inl out ↦
          let h : threshold_of a ≤ bucket_of key = ground arith in
          rw (allocate-out a key (inr h)) (outside (inr h))
      | inr in_bucket ↦
          let h : bucket_of key < threshold_of a = ground arith in
          let (v, at, same) = allocate-in a key e h in
          rw same (inside v h (In-get_elem? a.variants _ v at))
    ]
  ]

  -- Raising the traffic percentage, so that the threshold does not fall, keeps every key that was
  -- allocated, and keeps it on the variant that it had.
  pub allocate_mono :
      (a b : AbTestAllocator) (key : Str) (v : ParameterSet fl)
      → a.variants ≡ b.variants
      → threshold_of a ≤ threshold_of b
      → allocate a key ≡ ok (some v)
      → allocate b key ≡ ok (some v)
  unfolding allocate
  allocate_mono a b key v same more h = ground arith
