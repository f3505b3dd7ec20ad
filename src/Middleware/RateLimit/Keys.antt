-- ===== src/Middleware/RateLimit/Keys.antt =====
-- The limiter over the requests of many keys.
use llmops_platform.Prelude.{
  ℕ, suc, ◌≡◌, refl, ap, ap₂, sym, subst, ◌∙◌, Str, Bool, true, false, List, [], ◌∷◌, ◌==◌,
  string_eq, eq_iff, arith, if◌then◌else◌, Result, ok, err, Bool-cases, inl, inr,
}
use llmops_platform.Prelude.Dict.{lookup, lookup-insert}
use llmops_platform.Middleware.RateLimit.{
  no_bucket, Bucket, Buckets, after_check, allows, bucket_of, check,
}
use llmops_platform.Middleware.RateLimit.Window.{
  decisions, fair_decisions, IsIncreasing, decisions-eq-fair, passed, IsBounded, passed-IsBounded,
}

-- A request: its key and its time.
abbrev pub Request : Type 0
Request = Str × ℕ

abbrev pub times_of : Str → List Request → List ℕ
times_of k [] = []
times_of k ((j, now) ∷ rs) = if k == j then now ∷ times_of k rs else times_of k rs

abbrev pub passes : Result (Unit {0}) → Bool
passes (ok u) = true
passes (err e) = false

module _ (sec : ℕ) where
  -- What the requests of the key `k` are answered, among those of all keys.
  unfoldable pub answers : ℕ → Str → List Request → Buckets → List Bool
  answers rpm k [] s = []
  answers rpm k ((j, now) ∷ rs) s =
      let (r, s') = check sec rpm j now s in
      let rest = answers rpm k rs s' in if k == j then passes r ∷ rest else rest

  bucket_of-check :
      (rpm : ℕ) (k j : Str) (now : ℕ) (s : Buckets)
      → bucket_of sec k ((check sec (suc rpm) j now s).1)
        ≡ (if k == j then after_check sec (bucket_of sec j s) now else bucket_of sec k s)
  unfolding check
  bucket_of-check rpm k j now s =
      ground (arith, lookup-insert j k (after_check sec (bucket_of sec j s) now) s)

  passes-check :
      (rpm : ℕ) (j : Str) (now : ℕ) (s : Buckets)
      → passes ((check sec (suc rpm) j now s).0) ≡ allows sec (suc rpm) (bucket_of sec j s) now
  unfolding check
  passes-check rpm j now s = ground arith

  answers-decisions :
      (rpm : ℕ) (k : Str) (rs : List Request) (s : Buckets)
      → answers (suc rpm) k rs s ≡ decisions sec (suc rpm) (times_of k rs) (bucket_of sec k s)
  unfolding answers decisions
  answers-decisions rpm k [] s = refl
  answers-decisions rpm k ((j, now) ∷ rs) s =
      let s' = (check sec (suc rpm) j now s).1 in
      let rest : answers (suc rpm) k rs s'
          ≡ decisions sec (suc rpm) (times_of k rs) (bucket_of sec k s') =
        answers-decisions rpm k rs s' in
      elim (Bool-cases (k == j)) [
        | inl e ↦
            let same : k ≡ j = (eq_iff k j).0 e in
            let mine : bucket_of sec j s ≡ bucket_of sec k s =
              ap (λ (i : Str). bucket_of sec i s) (sym same) in
            let after : bucket_of sec k s' ≡ after_check sec (bucket_of sec k s) now =
              bucket_of-check rpm k j now s
              ∙ (rw e (ap (λ (b : Bucket). after_check sec b now) mine)) in
            let tail = rest ∙ ap (decisions sec (suc rpm) (times_of k rs)) after in
            let head =
              passes-check rpm j now s ∙ ap (λ (b : Bucket). allows sec (suc rpm) b now) mine in
            rw e (ap₂ (λ (b : Bool) (bs : List Bool). b ∷ bs) head tail)
        | inr e ↦
            let kept : bucket_of sec k s' ≡ bucket_of sec k s =
              bucket_of-check rpm k j now s ∙ rw e in
            rw e (rest ∙ ap (decisions sec (suc rpm) (times_of k rs)) kept)
      ]

  -- Under a limit that is not zero, from empty sets, and whatever requests of other keys come
  -- between: the limiter lets a request of a key through exactly when fewer requests of this key
  -- than the limit, refused ones included, came in the 60 seconds before it. The times of the key's
  -- requests are assumed to increase.
  pub check-fair :
      (rpm : ℕ) (k : Str) (rs : List Request)
      → IsIncreasing sec (times_of k rs) []
      → answers (suc rpm) k rs [] ≡ fair_decisions sec (suc rpm) (times_of k rs) []
  unfolding lookup
  check-fair rpm k rs inc =
      answers-decisions rpm k rs [] ∙ decisions-eq-fair sec (suc rpm) (times_of k rs) inc

  -- The times at which a request passed, the last one first.
  abbrev pub passed_of : List Bool → List ℕ → List ℕ → List ℕ
  passed_of [] ts acc = acc
  passed_of (b ∷ bs) [] acc = acc
  passed_of (b ∷ bs) (t ∷ ts) acc = passed_of bs ts (if b then t ∷ acc else acc)

  passed_of-decisions :
      (rpm : ℕ) (ts : List ℕ) (b : Bucket) (acc : List ℕ)
      → passed_of (decisions sec rpm ts b) ts acc ≡ passed sec rpm ts b acc
  unfolding decisions passed
  passed_of-decisions rpm [] b acc = refl
  passed_of-decisions rpm (t ∷ ts) b acc =
      passed_of-decisions rpm ts (after_check sec b t) (if allows sec rpm b t then t ∷ acc else acc)

  -- Under a limit that is not zero, from empty sets, whatever requests of other keys come between,
  -- and if the times of the key's requests increase: at none of the times at which a request of the
  -- key passed had more of its requests passed than the limit in the 60 seconds up to it.
  pub check-IsBounded :
      (rpm : ℕ) (k : Str) (rs : List Request)
      → IsIncreasing sec (times_of k rs) []
      → IsBounded sec (suc rpm) (passed_of (answers (suc rpm) k rs []) (times_of k rs) [])
  unfolding lookup
  check-IsBounded rpm k rs inc =
      subst (IsBounded sec (suc rpm))
        (sym (
          ap (λ bs. passed_of bs (times_of k rs) []) (answers-decisions rpm k rs [])
          ∙ passed_of-decisions (suc rpm) (times_of k rs) no_bucket []))
        (passed-IsBounded sec (suc rpm) (times_of k rs) inc)
