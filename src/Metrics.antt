-- ===== src/Metrics.antt =====
-- metrics.py: the labels of paths, and the middleware that counts requests. What `str.isdigit` takes for
-- a digit is a table of Unicode, `is_digit` here.
pub mod Paths
use llmops_platform.Prelude.{
  ℕ, suc, ◌+◌, Str, codes, Bool, true, false, ◌&&◌, ◌||◌, not, Option, none, some, List, [], ◌∷◌,
  ◌++◌, ◌==◌, string_eq, if◌then◌else◌, is_empty, all, nat_beq, length, map, Result, ok, err, Exc,
}
use llmops_platform.Middleware.Strings.{strip_by, split}

-- `path.strip("/")`
abbrev pub is_slash : ℕ → Bool
is_slash c = nat_beq c b'/'

abbrev pub segments : Str → List Str
segments path = split b'/' (strip_by is_slash path)

-- `s.count(c)`
abbrev pub count : ℕ → Str → ℕ
count c [] = 0
count c (d ∷ s) = if nat_beq d c then suc (count c s) else count c s

-- `sep.join(parts)`
unfoldable pub join : ℕ → List Str → Str
join sep [] = []
join sep (p ∷ []) = p
join sep (p ∷ q ∷ ps) = p ++ sep ∷ join sep (q ∷ ps)

abbrev pub placeholder : Str
placeholder = codes "{id}"

module _ (is_digit : ℕ → Bool) where
  -- The tests of the loop: a UUID by its length and its dashes, or `part.isdigit()`.
  unfoldable pub is_id : Str → Bool
  is_id part =
      nat_beq (length part) 36 && nat_beq (count b'-' part) 4
      || not (is_empty part) && all is_digit part

  unfoldable pub normalize_part : Str → Str
  unfolding is_id
  normalize_part part = if is_id part then placeholder else part

  -- `_normalize_path`
  unfoldable pub normalize_path : Str → Str
  unfolding join normalize_part strip_by
  normalize_path path = b'/' ∷ join b'/' (map normalize_part (segments path))

  -- The labels of one sample of `REQUEST_COUNT`.
  pub record RequestSample : Type 0 where
    pub method : Str
    pub endpoint : Str
    pub status_code : ℕ

  -- `PrometheusMiddleware.dispatch`, over the samples so far: `call_next` gives the status of the
  -- response, or raises.
  unfoldable pub dispatch :
      Str → Str → Result ℕ → List RequestSample → Result ℕ × List RequestSample
  unfolding normalize_path
  dispatch method path (err e) samples = (err e, samples)
  dispatch method path (ok status) samples =
      if path == codes "/metrics" then (ok status, samples) else (
        ok status,
        samples
            ++ record { method = method; endpoint = normalize_path path; status_code = status }
              ∷ [],
      )
