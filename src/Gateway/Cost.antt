-- ===== src/Gateway/Cost.antt =====
-- core/gateway/cost_tracker.py: the prices, and `RedisCostTracker` over Redis hashes. A field that a
-- hash does not have counts as zero, as `HINCRBY` and the reads with a default of 0 take it. The
-- commands of a pipeline are executed together.
pub mod Totals
pub mod Summary
pub mod Traffic
use llmops_platform.Prelude.{
  ℕ, ◌+◌, Str, codes, Bool, true, false, Option, none, some, List, [], ◌∷◌, ◌++◌, ◌==◌, string_eq,
  if◌then◌else◌, is_empty, filter, starts_with,
}
use llmops_platform.Prelude.Dict.{Dict, lookup, insert}
use llmops_platform.Prelude.Float.{Float}
use llmops_platform.Middleware.Strings.{split}

abbrev pub prefix : Str
prefix = codes "llmops:usage:"

abbrev pub svc_key : Str → Str
svc_key service_name = prefix ++ service_name

abbrev pub model_key : Str → Str → Str
model_key service_name model = svc_key service_name ++ codes ":" ++ model

-- The arguments of `record`.
pub record UsageRecord : Type 0 where
  pub service_name : Str
  pub model : Str
  pub input_tokens : ℕ
  pub output_tokens : ℕ

module _ (fl : Float) where
  open fl use {F, add, mul, div, round, of_ℕ}

  pub record Pricing : Type 0 where
    pub input : F
    pub output : F

  -- The number that a decimal literal `a / b` of the source stands for.
  abbrev price : ℕ → ℕ → ℕ → ℕ → Pricing
  price a b c d = record { input = div (of_ℕ a) (of_ℕ b); output = div (of_ℕ c) (of_ℕ d) }

  -- `COST_PER_MILLION`
  unfoldable pub cost_per_million : Dict Str Pricing
  cost_per_million =
      (codes "claude-opus-4-20250514", price 15 1 75 1)
      ∷ (codes "claude-sonnet-4-20250514", price 3 1 15 1)
      ∷ (codes "claude-haiku-4-20250506", price 80 100 4 1)
      ∷ (codes "gemini-2.5-pro-preview-05-06", price 125 100 10 1)
      ∷ (codes "gemini-2.5-flash-preview-05-20", price 15 100 60 100)
      ∷ (codes "gemini-2.0-flash", price 10 100 40 100)
      ∷ (codes "gemini-2.0-flash-lite", price 75 1000 30 100)
      ∷ []

  unfoldable pub pricing_of : Str → Pricing
  unfolding cost_per_million
  pricing_of model = elim (lookup model cost_per_million) [ none ↦ price 1 1 3 1 | some p ↦ p ]

  -- `estimate_cost`
  unfoldable pub estimate_cost : Str → ℕ → ℕ → F
  unfolding pricing_of
  estimate_cost model input_tokens output_tokens =
      let pricing = pricing_of model in
      let input_cost = mul (div (of_ℕ input_tokens) (of_ℕ 1000000)) pricing.input in
      let output_cost = mul (div (of_ℕ output_tokens) (of_ℕ 1000000)) pricing.output in
      round (add input_cost output_cost) 8

  -- A hash: the fields that `record` writes under a service's key, and those under a model's key.
  pub record UsageHash : Type 0 where
    pub total_cost : F
    pub total_input_tokens : ℕ
    pub total_output_tokens : ℕ
    pub total_requests : ℕ
    pub cost : F
    pub input_tokens : ℕ
    pub output_tokens : ℕ
    pub requests : ℕ

  abbrev pub empty_hash : UsageHash
  empty_hash = record {
    total_cost = of_ℕ 0;
    total_input_tokens = 0;
    total_output_tokens = 0;
    total_requests = 0;
    cost = of_ℕ 0;
    input_tokens = 0;
    output_tokens = 0;
    requests = 0;
  }

  abbrev pub Redis : Type 0
  Redis = Dict Str UsageHash

  abbrev pub hash_at : Str → Redis → UsageHash
  hash_at k s = elim (lookup k s) [ none ↦ empty_hash | some h ↦ h ]

  abbrev pub change_at : Str → (UsageHash → UsageHash) → Redis → Redis
  change_at k f s = insert k (f (hash_at k s)) s

  abbrev pub count_service : UsageRecord → UsageHash → UsageHash
  count_service r h = record h {
    total_cost = add h.total_cost (estimate_cost r.model r.input_tokens r.output_tokens);
    total_input_tokens = h.total_input_tokens + r.input_tokens;
    total_output_tokens = h.total_output_tokens + r.output_tokens;
    total_requests = h.total_requests + 1;
  }

  abbrev pub count_model : UsageRecord → UsageHash → UsageHash
  count_model r h = record h {
    cost = add h.cost (estimate_cost r.model r.input_tokens r.output_tokens);
    input_tokens = h.input_tokens + r.input_tokens;
    output_tokens = h.output_tokens + r.output_tokens;
    requests = h.requests + 1;
  }

  -- `record`: the cost that it returns, and the hashes after it
  unfoldable pub record_usage : UsageRecord → Redis → F × Redis
  record_usage r s = (
    estimate_cost r.model r.input_tokens r.output_tokens,
    change_at (model_key r.service_name r.model) (count_model r)
        (change_at (svc_key r.service_name) (count_service r) s),
  )

  pub record ServiceSummary : Type 0 where
    pub service : Str
    pub total_cost : F
    pub total_input_tokens : ℕ
    pub total_output_tokens : ℕ
    pub total_requests : ℕ

  -- `_get_service_summary`
  unfoldable pub get_service_summary : Redis → Str → ServiceSummary
  get_service_summary s service_name =
      let h = hash_at (svc_key service_name) s in
      record {
        service = service_name;
        total_cost = h.total_cost;
        total_input_tokens = h.total_input_tokens;
        total_output_tokens = h.total_output_tokens;
        total_requests = h.total_requests;
      }

  add_service :
      Redis → Str → Option ServiceSummary → Dict Str ServiceSummary → Dict Str ServiceSummary
  add_service s svc none services = insert svc (get_service_summary s svc) services
  add_service s svc (some v) services = services

  add_parts : Redis → List Str → Dict Str ServiceSummary → Dict Str ServiceSummary
  unfolding add_service
  add_parts s (a ∷ b ∷ svc ∷ []) services = add_service s svc (lookup svc services) services
  add_parts s _ services = services

  -- `for key in keys` of the scan
  unfoldable pub collect_services :
      Redis → List Str → Dict Str ServiceSummary → Dict Str ServiceSummary
  unfolding add_parts
  collect_services s [] services = services
  collect_services s (key ∷ keys) services =
      collect_services s keys (add_parts s (split b':' key) services)

  pub data UsageSummary : Type 0 where
    of_service : ServiceSummary → UsageSummary
    of_services : Dict Str ServiceSummary → UsageSummary

  all_services : Redis → List Str → UsageSummary
  all_services s scanned =
      of_services (collect_services s (filter (λ k. starts_with k prefix) scanned) [])

  -- `get_summary`. `scanned` are the keys that the cursor runs over until it is 0 again, of which
  -- `match` lets those with the prefix through.
  unfoldable pub get_summary : Redis → List Str → Option Str → UsageSummary
  unfolding all_services
  get_summary s scanned none = all_services s scanned
  get_summary s scanned (some service_name) =
      if is_empty service_name
      then all_services s scanned
      else of_service (get_service_summary s service_name)
