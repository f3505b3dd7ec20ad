-- ===== src/App.antt =====
-- main.py, dependencies.py, api/middleware/request_context.py and api/v1/admin.py: the way of a request
-- through the application. `create_app` adds the request context first and the metrics last, so that
-- the metrics are outermost; around them FastAPI answers 500 where an exception is left, and inside it
-- turns an `HTTPException` into a response. Headers but those of the request id are left out.
pub mod Requests
pub mod Completions
pub mod Readiness
use llmops_platform.Prelude.{
  ℕ, Str, codes, Bool, true, false, ◌&&◌, ◌||◌, Option, none, some, List, [], ◌∷◌, ◌++◌, ◌==◌,
  string_eq, if◌then◌else◌, all, Result, ok, err, Exc,
}
use llmops_platform.Prelude.Dict.{Dict}
use llmops_platform.Prelude.Float.{Float}
use llmops_platform.Middleware.Auth.{verify_api_key}
use llmops_platform.Middleware.RateLimit.{Buckets, rate_limit_dependency}
use llmops_platform.Metrics.{RequestSample, dispatch}

-- `ObservabilityBackendType`
pub data BackendType : Type 0 where
  langfuse noop : BackendType

-- The classes of backends and of cost trackers.
pub data Backend : Type 0 where
  langfuse_backend noop_backend : Backend

pub data Tracker : Type 0 where
  langfuse_tracker redis_tracker : Tracker

-- `get_observability_backend`
unfoldable pub get_observability_backend : BackendType → Backend
get_observability_backend langfuse = langfuse_backend
get_observability_backend noop = noop_backend

-- `get_cost_tracker`: the tracker, and the global `_tracker` behind the call
unfoldable pub get_cost_tracker : BackendType → Option Tracker → Tracker × Option Tracker
get_cost_tracker setting (some t) = (t, some t)
get_cost_tracker langfuse none = (langfuse_tracker, some langfuse_tracker)
get_cost_tracker noop none = (redis_tracker, some redis_tracker)

-- `reset_cost_tracker`
unfoldable pub reset_cost_tracker : Option Tracker → Option Tracker
reset_cost_tracker t = none

-- `RateLimiter` with the settings that it is built from, less the address of Redis.
pub record RateLimiter : Type 0 where
  pub rpm : ℕ

-- `get_rate_limiter`, with the global `_limiter` behind the call: later settings do not reach it.
unfoldable pub get_rate_limiter : ℕ → Option RateLimiter → RateLimiter × Option RateLimiter
get_rate_limiter requests_per_minute (some l) = (l, some l)
get_rate_limiter requests_per_minute none =
    (record { rpm = requests_per_minute }, some (record { rpm = requests_per_minute }))

-- `reset_rate_limiter`
unfoldable pub reset_rate_limiter : Option RateLimiter → Option RateLimiter
reset_rate_limiter l = none

-- `usage_summary`: what the tracker's `get_summary` gives
unfoldable pub usage_summary {ℓ} :
    {A : Type ℓ} → BackendType → Option Tracker → (Tracker → A) → A × Option Tracker
unfolding get_cost_tracker
usage_summary setting current get_summary =
    let (tracker, current') = get_cost_tracker setting current in (get_summary tracker, current')

abbrev check_of : Option Str → Str
check_of none = codes "ok"
check_of (some e) = codes "error: " ++ e

abbrev langfuse_check : BackendType → Dict Str Str
langfuse_check langfuse = (codes "langfuse", codes "configured") ∷ []
langfuse_check noop = []

-- `checks` of `readyz`, with the errors of the two probes
unfoldable pub checks_of : BackendType → Option Str → Option Str → Dict Str Str
checks_of setting postgresql redis =
    (codes "postgresql", check_of postgresql)
    ∷ (codes "redis", check_of redis)
    ∷ langfuse_check setting

pub record ReadyReport : Type 0 where
  pub status : Str
  pub checks : Dict Str Str

-- `readyz`
unfoldable pub readyz : BackendType → Option Str → Option Str → ReadyReport
unfolding checks_of
readyz setting postgresql redis =
    let checks = checks_of setting postgresql redis in
    let all_ok = all (λ (c : Str × Str). c.1 == codes "ok" || c.1 == codes "configured") checks in
    record { status = if all_ok then codes "ready" else codes "degraded"; checks = checks }

-- `healthz`
unfoldable pub healthz : Dict Str Str
healthz = (codes "status", codes "ok") ∷ []

pub record Request : Type 0 where
  pub method : Str
  pub path : Str
  pub authorization : Option Str
  pub service_name : Option Str
  pub host : Option Str
  pub request_id : Option Str

-- `S` is the state behind the endpoints.
module _ (S : Type 0) where
  pub record Response : Type 0 where
    pub status_code : ℕ
    pub request_id : Option Str

  pub record Service : Type 0 where
    pub state : S
    pub buckets : Buckets

  -- What the handler of a route gives: the status of its response, or what it raises.
  abbrev pub Endpoint : Type 0
  Endpoint = Request → S → Result ℕ × S

  -- The settings, whether Redis is in reach of the limiter, and the time.
  pub record Conditions : Type 0 where
    pub keys : List Str
    pub sec : ℕ
    pub rpm : ℕ
    pub redis_up : Bool
    pub now : ℕ

  run_endpoint : Endpoint → Request → Service → Result ℕ × Service
  run_endpoint endpoint r w = let (out, s) = endpoint r w.state in (out, record w { state = s })

  after_limit : Endpoint → Request → Service → Result (Unit {0}) × Buckets → Result ℕ × Service
  unfolding run_endpoint
  after_limit endpoint r w (err e, b) = (err e, record w { buckets = b })
  after_limit endpoint r w (ok u, b) = run_endpoint endpoint r (record w { buckets = b })

  after_auth : Conditions → Bool → Endpoint → Result Str → Request → Service → Result ℕ × Service
  unfolding after_limit rate_limit_dependency
  after_auth c limited endpoint (err e) r w = (err e, w)
  after_auth c false endpoint (ok who) r w = run_endpoint endpoint r w
  after_auth c true endpoint (ok who) r w =
      after_limit endpoint r w
        (rate_limit_dependency c.sec c.redis_up c.rpm r.service_name r.host c.now w.buckets)

  -- A route with its dependencies: those of the application, then those of its router, which are
  -- the rate limit or nothing.
  unfoldable pub route : Conditions → Bool → Endpoint → Request → Service → Result ℕ × Service
  unfolding after_auth verify_api_key
  route c limited endpoint r w =
      after_auth c limited endpoint (verify_api_key c.keys r.path r.authorization) r w

  pub http_status : Exc → Option ℕ
  http_status (Exc.http status e) = some status
  http_status _ = none

  -- An `HTTPException` becomes a response.
  unfoldable pub http_response : Result ℕ × Service → Result ℕ × Service
  unfolding http_status
  http_response (ok status, w) = (ok status, w)
  http_response (err e, w) = elim (http_status e) [
    | some status ↦ (ok status, w)
    | none ↦ (err e, w)
  ]

  abbrev or_fresh : Str → Option Str → Str
  or_fresh fresh none = fresh
  or_fresh fresh (some id) = id

  with_request_id : Str → Result ℕ × Service → Result Response × Service
  with_request_id id (err e, w) = (err e, w)
  with_request_id id (ok status, w) =
      (ok (record { status_code = status; request_id = some id }), w)

  -- `RequestContextMiddleware.dispatch`, with the id that `uuid4` draws
  unfoldable pub request_context : Str → Request → Result ℕ × Service → Result Response × Service
  unfolding with_request_id
  request_context fresh r out = with_request_id (or_fresh fresh r.request_id) out

  status_of : Result Response → Result ℕ
  status_of (ok response) = ok response.status_code
  status_of (err e) = err e

  -- Where an exception is left, the answer is 500.
  server_error : Result Response → Response
  server_error (ok response) = response
  server_error (err e) = record { status_code = 500; request_id = none }

  module _ (is_digit : ℕ → Bool) where
    pub record World : Type 0 where
      pub service : Service
      pub samples : List (RequestSample is_digit)

    pub answer :
        Request → List (RequestSample is_digit) → Result Response × Service → Response × World
    unfolding dispatch status_of server_error
    answer r samples (out, service) = (
      server_error out,
      record {
        service = service;
        samples = (dispatch is_digit r.method r.path (status_of out) samples).1;
      },
    )

    -- A request to a route of the application.
    unfoldable pub handle : Conditions → Str → Bool → Endpoint → Request → World → Response × World
    unfolding answer request_context http_response route
    handle c fresh limited endpoint r w =
        answer r w.samples
          (request_context fresh r (http_response (route c limited endpoint r w.service)))
