-- ===== src/App/Requests.antt =====
-- What a request to the application meets on its way.
use llmops_platform.Prelude.{
  ℕ, ◌≡◌, ◌≢◌, refl, sym, subst, ◌⊎◌, inl, inr, Str, codes, Bool, true, false, Option, none, some,
  List, [], ◌∷◌, ◌++◌, string_eq, eq_iff, arith, is_nil, is_empty, contains, Result, ok, err, Exc,
  Bool-cases, Option-cases, Result-cases, str_eq, false≢true, zero, suc,
}
use llmops_platform.Middleware.Auth.{verify_api_key, is_public, check_header, bearer}
use llmops_platform.Middleware.Strings.{strip, removeprefix}
use llmops_platform.Middleware.RateLimit.{
  Buckets, rate_limit_dependency, check, key_of, allows, bucket_of,
}
use llmops_platform.Metrics.{RequestSample, normalize_path, dispatch}
use llmops_platform.App.{
  Request, Response, Service, Endpoint, Conditions, run_endpoint, after_limit, after_auth, route,
  http_status, http_response, or_fresh, request_context, with_request_id, World, status_of,
  server_error, answer, handle,
}

module _ (S : Type 0) (is_digit : ℕ → Bool) where
  abbrev sample_of : Request → ℕ → RequestSample is_digit
  sample_of r status = record {
    method = r.method;
    endpoint = normalize_path is_digit r.path;
    status_code = status;
  }

  -- The request is answered with a status, under its id, and counted once.
  abbrev pub Counted : Str → Request → ℕ → World S is_digit → Response S × World S is_digit → Type 0
  Counted fresh r status w out =
      (out.0 ≡ record { status_code = status; request_id = some (or_fresh S fresh r.request_id) })
      × (out.1.samples ≡ w.samples ++ sample_of r status ∷ [])

  -- The request is answered with 500, under no id, and is not counted.
  abbrev pub Uncounted : World S is_digit → Response S × World S is_digit → Type 0
  Uncounted w out =
      (out.0 ≡ record { status_code = 500; request_id = none }) × (out.1.samples ≡ w.samples)

  abbrev pub answered :
      Str → Request → World S is_digit → Result ℕ × Service S → Response S × World S is_digit
  answered fresh r w out = answer S is_digit r w.samples (request_context S fresh r out)

  answered-ok :
      (fresh : Str) (r : Request) (w : World S is_digit) (status : ℕ) (v : Service S)
      → r.path ≢ codes "/metrics"
      → Counted fresh r status w (answered fresh r w (ok status, v))
  unfolding answer request_context with_request_id status_of server_error dispatch
  answered-ok fresh r w status v other = (refl, ground (arith, eq_iff r.path (codes "/metrics")))

  verify-401 :
      (keys : List Str) (path : Str) (api_key : Option Str) (e : Exc)
      → verify_api_key keys path api_key ≡ err e
      → (is_public path ≡ false) × ((x : Exc) × (e ≡ Exc.http 401 x))
  unfolding verify_api_key
  verify-401 keys path api_key e h = elim (Bool-cases (is_public path)) [
    | inl p ↦ absurd (ground arith)
    | inr p ↦ elim (Bool-cases (is_nil keys)) [
      | inl n ↦ absurd (ground arith)
      | inr n ↦ (p, header api_key (ground arith))
    ]
  ]
    where
      header : (o : Option Str) → check_header keys o ≡ err e → (x : Exc) × (e ≡ Exc.http 401 x)
      header none k = (Exc.missing_authorization, ground arith)
      header (some s) k = elim (Bool-cases (is_empty s)) [
        | inl empty ↦ (Exc.missing_authorization, ground arith)
        | inr full ↦ elim (Bool-cases (contains keys (strip (removeprefix s bearer)))) [
          | inl known ↦ absurd (ground arith)
          | inr unknown ↦ (Exc.invalid_api_key, ground arith)
        ]
      ]

  not_metrics : (path : Str) → is_public path ≡ false → path ≢ codes "/metrics"
  unfolding is_public str_eq
  not_metrics path closed e = false≢true (sym (rw e at closed))

  limit-429 :
      (sec rpm now : ℕ) (up : Bool) (name host : Option Str) (b : Buckets) (e : Exc)
      → (rate_limit_dependency sec up rpm name host now b).0 ≡ err e
      → (x : Exc) × (e ≡ Exc.http 429 x)
  unfolding rate_limit_dependency check
  limit-429 sec rpm now false name host b e h = absurd (cc)
  limit-429 sec zero now true name host b e h = absurd (cc)
  limit-429 sec (suc n) now true name host b e h =
      elim (Bool-cases (allows sec (suc n) (bucket_of sec (key_of sec name host) b) now)) [
        | inl pass ↦ absurd (ground arith)
        | inr full ↦ (Exc.rate_exceeded (suc n), ground arith)
      ]

  -- What comes of the outcome of an endpoint.
  abbrev Outcome :
      Str
      → Request
      → World S is_digit
      → Result ℕ × Service S
      → Response S × World S is_digit
      → Type 0
  Outcome fresh r w ran out =
      ((status : ℕ) × (http_response S ran ≡ (ok status, ran.1)) × Counted fresh r status w out)
      ⊎ ((e : Exc) × (http_response S ran ≡ (err e, ran.1)) × Uncounted w out)

  -- Which limit a request meets.
  abbrev pub limit_of : Conditions S → Request → Buckets → Result (Unit {0}) × Buckets
  limit_of c r b = rate_limit_dependency c.sec c.redis_up c.rpm r.service_name r.host c.now b

  -- What a request to a limited route comes to, where its key is refused, where its limit is, and where
  -- neither is.
  abbrev pub Guarded :
      Conditions S
      → Str
      → Endpoint S
      → Request
      → World S is_digit
      → Response S × World S is_digit
      → Type 0
  Guarded c fresh endpoint r w out =
      let limit = limit_of c r w.service.buckets in
      let ran = endpoint r w.service.state in
      (((e : Exc) × (verify_api_key c.keys r.path r.authorization ≡ err e))
        × Counted fresh r 401 w out
        × (out.1.service ≡ w.service))
      ⊎ (((who : Str) × (verify_api_key c.keys r.path r.authorization ≡ ok who))
          × ((((e : Exc) × (limit.0 ≡ err e))
                × Counted fresh r 429 w out
                × (out.1.service ≡ record { state = w.service.state; buckets = limit.1 }))
              ⊎ ((limit.0 ≡ ok tt)
                  × (out.1.service ≡ record { state = ran.1; buckets = limit.1 })
                  × Outcome fresh r w (ran.0, record { state = ran.1; buckets = limit.1 }) out)))

  pub answered-err :
      (fresh : Str) (r : Request) (w : World S is_digit) (e : Exc) (v : Service S)
      → Uncounted w (answered fresh r w (err e, v))
  unfolding answer request_context with_request_id status_of server_error dispatch
  answered-err fresh r w e v = (refl, refl)

  pub answered-service :
      (fresh : Str) (r : Request) (w : World S is_digit) (o : Result ℕ) (v : Service S)
      → (answered fresh r w (o, v)).1.service ≡ v
  unfolding answer request_context with_request_id
  answered-service fresh r w (ok status) v = refl
  answered-service fresh r w (err e) v = refl

  run-cases :
      (fresh : Str) (r : Request) (w : World S is_digit) (o : Result ℕ) (v : Service S)
      → r.path ≢ codes "/metrics"
      → let out = answered fresh r w (http_response S (o, v)) in
        (out.1.service ≡ v) × Outcome fresh r w (o, v) out
  unfolding http_response
  run-cases fresh r w (ok status) v other = (
    answered-service fresh r w (ok status) v,
    inl (status, refl, answered-ok fresh r w status v other),
  )
  run-cases fresh r w (err e) v other = elim (Option-cases (http_status S e)) [
    | inl plain ↦
        let same : http_response S (err e, v) ≡ (err e, v) = ground arith in
        subst
          (λ x.
            ((answered fresh r w x).1.service ≡ v)
            × Outcome fresh r w (err e, v) (answered fresh r w x))
          (sym same)
          (answered-service fresh r w (err e) v, inr (e, same, answered-err fresh r w e v))
    | inr (status, http) ↦
        let same : http_response S (err e, v) ≡ (ok status, v) = ground arith in
        subst
          (λ x.
            ((answered fresh r w x).1.service ≡ v)
            × Outcome fresh r w (err e, v) (answered fresh r w x))
          (sym same)
          (
            answered-service fresh r w (ok status) v,
            inl (status, same, answered-ok fresh r w status v other),
          )
  ]

  answered-http :
      (fresh : Str) (r : Request) (w : World S is_digit) (n : ℕ) (e x : Exc) (v : Service S)
      → r.path ≢ codes "/metrics"
      → e ≡ Exc.http n x
      → let out = answered fresh r w (http_response S (err e, v)) in
        Counted fresh r n w out × (out.1.service ≡ v)
  unfolding http_response
  answered-http fresh r w n e x v other same =
      let turned : http_response S (err e, v) ≡ (ok n, v) = ground arith in
      subst
        (λ y. Counted fresh r n w (answered fresh r w y) × ((answered fresh r w y).1.service ≡ v))
        (sym turned) (answered-ok fresh r w n v other, answered-service fresh r w (ok n) v)

  route-refused :
      (c : Conditions S) (endpoint : Endpoint S) (r : Request) (v : Service S) (e : Exc)
      → verify_api_key c.keys r.path r.authorization ≡ err e
      → route S c true endpoint r v ≡ (err e, v)
  unfolding route after_auth
  route-refused c endpoint r v e bad = ground arith

  route-limited :
      (c : Conditions S) (endpoint : Endpoint S) (r : Request) (v : Service S) (who : Str) (e : Exc)
      → verify_api_key c.keys r.path r.authorization ≡ ok who
      → (limit_of c r v.buckets).0 ≡ err e
      → route S c true endpoint r v ≡ (err e, record v { buckets = (limit_of c r v.buckets).1 })
  unfolding route after_auth after_limit
  route-limited c endpoint r v who e good full = ground arith

  pub route-ran :
      (c : Conditions S) (endpoint : Endpoint S) (r : Request) (v : Service S) (who : Str)
      → verify_api_key c.keys r.path r.authorization ≡ ok who
      → (limit_of c r v.buckets).0 ≡ ok tt
      → let ran = endpoint r v.state in
        route S c true endpoint r v
        ≡ (ran.0, record { state = ran.1; buckets = (limit_of c r v.buckets).1 })
  unfolding route after_auth after_limit run_endpoint
  route-ran c endpoint r v who good free = ground arith

  -- A request to a limited route other than the metrics: where its key is refused it is answered with
  -- 401, and nothing changes, not even its limit; where its key is taken and its limit refuses it, it
  -- is answered with 429, the limit has counted it, and the endpoint does not run. Only where both let
  -- it pass, the endpoint runs, once. In all these cases the answer bears the request's
  -- id and is counted once under its status, unless the endpoint raises something else than an
  -- `HTTPException`: then it is answered with 500, bears no id and is not counted.
  pub handle-Guarded :
      (c : Conditions S) (fresh : Str) (endpoint : Endpoint S) (r : Request) (w : World S is_digit)
      → r.path ≢ codes "/metrics"
      → Guarded c fresh endpoint r w (handle S is_digit c fresh true endpoint r w)
  unfolding handle
  handle-Guarded c fresh endpoint r w other =
      let v = w.service in
      let limit = limit_of c r v.buckets in
      let reached = λ (x : Result ℕ × Service S).
        Guarded c fresh endpoint r w (answered fresh r w (http_response S x)) in
      elim (Result-cases (verify_api_key c.keys r.path r.authorization)) [
        | inl (e, bad) ↦
            let (closed, (x, is_401)) = verify-401 c.keys r.path r.authorization e bad in
            subst reached (sym (route-refused c endpoint r v e bad)) (
              let (counted, same) = answered-http fresh r w 401 e x v other is_401 in
              inl ((e, bad), counted, same))
        | inr (who, good) ↦ elim (Result-cases limit.0) [
          | inl (e, full) ↦
              let (x, is_429) =
                limit-429 c.sec c.rpm c.now c.redis_up r.service_name r.host v.buckets e full in
              subst reached (sym (route-limited c endpoint r v who e good full)) (
                inr (
                  (who, good),
                  let (counted, same) =
                        answered-http fresh r w 429 e x (record v { buckets = limit.1 }) other
                          is_429 in
                      inl ((e, full), counted, same),
                ))
          | inr (u, free) ↦
              let ran = endpoint r v.state in
              let v' : Service S = record { state = ran.1; buckets = limit.1 } in
              let (served, outcome) = run-cases fresh r w ran.0 v' other in
              subst reached (sym (route-ran c endpoint r v who good free))
                (inr ((who, good), inr (free, served, outcome)))
        ]
      ]
