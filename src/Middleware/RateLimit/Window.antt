-- ===== src/Middleware/RateLimit/Window.antt =====
-- The limiter against the history of all requests of one key.
use llmops_platform.Prelude.{
  ℕ, ◌+◌, ◌*◌, ◌≤◌, ◌<◌, ◌≡◌, refl, ap, ap₂, subst, ◌∙◌, Bool, false, List, [], ◌∷◌, arith,
  if◌then◌else◌, filter, contains, length, leb, ltb, All, All-map, Bool-cases, inl, inr, nat_eq,
}
use llmops_platform.Middleware.RateLimit.{
  Bucket, no_bucket, add_time, is_recent, kept, after_check, allows,
}

module _ (sec : ℕ) where
  abbrev Before : ℕ → List ℕ → Type 0
  Before now ts = All (λ t. t < now) ts

  -- The bucket shows, at every later time, what the history of the key shows.
  abbrev Shows : Bucket → List ℕ → Type 0
  Shows b hist = (now : ℕ) → Before now hist → kept sec b now ≡ filter (is_recent sec now) hist

  filter-narrow :
      (now later : ℕ) (ts : List ℕ)
      → now ≤ later
      → filter (is_recent sec later) (filter (is_recent sec now) ts)
        ≡ filter (is_recent sec later) ts
  filter-narrow now later [] h = refl
  filter-narrow now later (t ∷ ts) h = ground (arith, filter-narrow now later ts h)

  filter-stale :
      (now later : ℕ) (ts : List ℕ)
      → now + 120 * sec ≤ later
      → All (λ t. t ≤ now) ts
      → filter (is_recent sec later) ts ≡ []
  filter-stale now later [] h k = refl
  filter-stale now later (t ∷ ts) h k = ground (arith, filter-stale now later ts h k.1)

  not-contained : (now : ℕ) (ts : List ℕ) → Before now ts → contains ts now ≡ false
  not-contained now [] h = refl
  not-contained now (t ∷ ts) h = ground (arith, not-contained now ts h.1)

  filter-Before : (now : ℕ) (p : ℕ → Bool) (ts : List ℕ) → Before now ts → Before now (filter p ts)
  filter-Before now p [] h = tt
  filter-Before now p (t ∷ ts) h = elim (Bool-cases (p t)) [
    | inl e ↦ rw e (h.0, filter-Before now p ts h.1)
    | inr e ↦ rw e (filter-Before now p ts h.1)
  ]

  after_check-Shows :
      (b : Bucket) (hist : List ℕ) (now : ℕ)
      → Shows b hist
      → Before now hist
      → Shows (after_check sec b now) (now ∷ hist)
  unfolding after_check
  after_check-Shows b hist now shows before later after =
      let same : kept sec b now ≡ filter (is_recent sec now) hist = shows now before in
      let new : contains (filter (is_recent sec now) hist) now ≡ false =
        not-contained now (filter (is_recent sec now) hist)
          (filter-Before now (is_recent sec now) hist before) in
      elim (Bool-cases (leb (now + 120 * sec) later)) [
        | inl gone ↦
            let stale : filter (is_recent sec later) (now ∷ hist) ≡ [] =
              filter-stale now later (now ∷ hist) (ground arith)
                (omega arith, All-map (λ t h. omega arith) hist before) in
            rw (gone, stale)
        | inr live ↦
            let members : add_time sec now (kept sec b now)
                ≡ now ∷ filter (is_recent sec now) hist =
              ap (add_time sec now) same ∙ rw new in
            let narrow : filter (is_recent sec later) (now ∷ filter (is_recent sec now) hist)
                ≡ filter (is_recent sec later) (now ∷ hist) =
              ground (arith, filter-narrow now later hist (omega arith)) in
            rw live (ap (filter (is_recent sec later)) members ∙ narrow)
      ]

  -- Requests of one key at the given times: the decisions, in order.
  unfoldable pub decisions : ℕ → List ℕ → Bucket → List Bool
  decisions rpm [] b = []
  decisions rpm (now ∷ later) b = allows sec rpm b now ∷ decisions rpm later (after_check sec b now)

  -- What they should be: a request passes if there were fewer than `rpm` requests, refused ones
  -- included, in the 60 seconds before it.
  unfoldable pub fair_decisions : ℕ → List ℕ → List ℕ → List Bool
  fair_decisions rpm [] hist = []
  fair_decisions rpm (now ∷ later) hist =
      ltb (length (filter (is_recent sec now) hist)) rpm ∷ fair_decisions rpm later (now ∷ hist)

  -- Every time lies after those before it and after the history.
  abbrev pub IsIncreasing : List ℕ → List ℕ → Type 0
  IsIncreasing [] hist = Unit
  IsIncreasing (now ∷ later) hist = Before now hist × IsIncreasing later (now ∷ hist)

  decisions-eq-fair_from :
      (rpm : ℕ) (times hist : List ℕ) (b : Bucket)
      → Shows b hist
      → IsIncreasing times hist
      → decisions rpm times b ≡ fair_decisions rpm times hist
  unfolding decisions fair_decisions allows
  decisions-eq-fair_from rpm [] hist b shows inc = refl
  decisions-eq-fair_from rpm (now ∷ later) hist b shows inc =
      let same : kept sec b now ≡ filter (is_recent sec now) hist = shows now inc.0 in
      let rest =
        decisions-eq-fair_from rpm later (now ∷ hist) (after_check sec b now)
          (after_check-Shows b hist now shows inc.0) inc.1 in
      ap₂ (λ (n : List ℕ) (ds : List Bool). ltb (length n) rpm ∷ ds) same rest

  -- For a key that has not been seen, and times that increase, the limiter lets a request through
  -- exactly when fewer than `rpm` requests of the key, refused ones included, came in the 60
  -- seconds before it: neither the removal of old members nor the expiry of the key shows.
  pub decisions-eq-fair :
      (rpm : ℕ) (times : List ℕ)
      → IsIncreasing times []
      → decisions rpm times no_bucket ≡ fair_decisions rpm times []
  decisions-eq-fair rpm times inc =
      decisions-eq-fair_from rpm times [] no_bucket (λ now h. refl) inc

  -- The times of the requests that passed, the last one first.
  unfoldable pub passed : ℕ → List ℕ → Bucket → List ℕ → List ℕ
  passed rpm [] b acc = acc
  passed rpm (now ∷ later) b acc =
      passed rpm later (after_check sec b now) (if allows sec rpm b now then now ∷ acc else acc)

  -- At each time of the list, it holds at most `rpm` of the 60 seconds up to that time.
  abbrev pub IsBounded : ℕ → List ℕ → Type 0
  IsBounded rpm [] = Unit
  IsBounded rpm (t ∷ ts) = (length (filter (is_recent sec t) (t ∷ ts)) ≤ rpm) × IsBounded rpm ts

  abbrev Fewer : List ℕ → List ℕ → Type 0
  Fewer acc hist = (p : ℕ → Bool) → length (filter p acc) ≤ length (filter p hist)

  Fewer-cons : (t : ℕ) (acc hist : List ℕ) → Fewer acc hist → Fewer (t ∷ acc) (t ∷ hist)
  Fewer-cons t acc hist h p = ground (arith, h p)

  Fewer-skip : (t : ℕ) (acc hist : List ℕ) → Fewer acc hist → Fewer acc (t ∷ hist)
  Fewer-skip t acc hist h p = ground (arith, h p)

  passed-IsBounded_from :
      (rpm : ℕ) (times hist acc : List ℕ) (b : Bucket)
      → Shows b hist
      → IsIncreasing times hist
      → Fewer acc hist
      → IsBounded rpm acc
      → IsBounded rpm (passed rpm times b acc)
  unfolding passed allows
  passed-IsBounded_from rpm [] hist acc b shows inc few h = h
  passed-IsBounded_from rpm (now ∷ later) hist acc b shows inc few h =
      let next = after_check-Shows b hist now shows inc.0 in
      elim (Bool-cases (ltb (length (kept sec b now)) rpm)) [
        | inl ok ↦
            let room : length (filter (is_recent sec now) hist) < rpm =
              subst (λ (ts : List ℕ). length ts < rpm) (shows now inc.0) (ground arith) in
            let bound : length (filter (is_recent sec now) (now ∷ acc)) ≤ rpm =
              ground (arith, few (is_recent sec now)) in
            rw ok (
              passed-IsBounded_from rpm later (now ∷ hist) (now ∷ acc) (after_check sec b now) next
                inc.1 (Fewer-cons now acc hist few) (bound, h))
        | inr no_room ↦ rw no_room (
            passed-IsBounded_from rpm later (now ∷ hist) acc (after_check sec b now) next inc.1
              (Fewer-skip now acc hist few) h)
      ]

  -- However often a bucket is used, at no time have more than `rpm` requests passed in the 60 seconds
  -- up to that time.
  pub passed-IsBounded :
      (rpm : ℕ) (times : List ℕ)
      → IsIncreasing times []
      → IsBounded rpm (passed rpm times no_bucket [])
  passed-IsBounded rpm times inc =
      passed-IsBounded_from rpm times [] [] no_bucket (λ now h. refl) inc (λ p. omega arith) tt
