-- ===== src/Middleware/RateLimit.antt =====
-- api/middleware/rate_limit.py: the limiter over Redis sorted sets. Times are whole ticks, `sec` of
-- them to a second; a member `str(now)` stands for its score. The four commands of the pipeline are
-- executed as one transaction.
pub mod Window
pub mod Keys
use llmops_platform.Prelude.{
  ℕ, zero, ◌+◌, ◌*◌, ◌≡◌, Str, codes, Bool, true, false, not, Option, none, some, List, [], ◌∷◌,
  ◌==◌, nat_eq, string_eq, if◌then◌else◌, filter, contains, length, leb, ltb, is_empty, Result, ok,
  err, Exc,
}
use llmops_platform.Prelude.Dict.{Dict, lookup, insert}

-- A sorted set with the expiry of its key.
pub record Bucket : Type 0 where
  pub times : List ℕ
  pub expires : Option ℕ

abbrev pub no_bucket : Bucket
no_bucket = record { times = []; expires = none }

abbrev pub Buckets : Type 0
Buckets = Dict Str Bucket

module _ (sec : ℕ) where
  -- What `zremrangebyscore(key, 0, now - 60)` leaves.
  abbrev pub is_recent : ℕ → ℕ → Bool
  is_recent now t = not (leb (t + 60 * sec) now)

  abbrev pub alive : Option ℕ → ℕ → List ℕ → List ℕ
  alive none now ts = ts
  alive (some e) now ts = if leb e now then [] else ts

  -- The members of the set after the first command of the pipeline.
  abbrev pub kept : Bucket → ℕ → List ℕ
  kept b now = filter (is_recent now) (alive b.expires now b.times)

  -- `zadd`, and `expire`
  abbrev pub add_time : ℕ → List ℕ → List ℕ
  add_time now ts = if contains ts now then ts else now ∷ ts

  unfoldable pub after_check : Bucket → ℕ → Bucket
  after_check b now = record { times = add_time now (kept b now); expires = some (now + 120 * sec) }

  -- `request_count >= self._rpm` fails
  unfoldable pub allows : ℕ → Bucket → ℕ → Bool
  allows rpm b now = ltb (length (kept b now)) rpm

  abbrev pub bucket_of : Str → Buckets → Bucket
  bucket_of key s = elim (lookup key s) [ none ↦ no_bucket | some b ↦ b ]

  -- `RateLimiter.check`; a limit of zero or less is `rpm = 0` here.
  unfoldable pub check : ℕ → Str → ℕ → Buckets → Result (Unit {0}) × Buckets
  unfolding after_check allows
  check zero key now s = (ok tt, s)
  check rpm key now s =
      let b = bucket_of key s in
      (
        (if allows rpm b now then ok tt else err (Exc.http 429 (Exc.rate_exceeded rpm))),
        insert key (after_check b now) s,
      )

  -- The key of `rate_limit_dependency`: the service name, else the client's host.
  unfoldable pub key_of : Option Str → Option Str → Str
  key_of none none = codes "unknown"
  key_of none (some host) = host
  key_of (some name) none = if is_empty name then codes "unknown" else name
  key_of (some name) (some host) = if is_empty name then host else name

  -- `rate_limit_dependency`; with Redis out of reach the request is let through.
  unfoldable pub rate_limit_dependency :
      Bool → ℕ → Option Str → Option Str → ℕ → Buckets → Result (Unit {0}) × Buckets
  unfolding check key_of
  rate_limit_dependency true rpm name host now s = check rpm (key_of name host) now s
  rate_limit_dependency false rpm name host now s = (ok tt, s)
