-- ===== src/Gateway/Langfuse.antt =====
-- core/gateway/langfuse_cost_tracker.py: `LangfuseCostTracker`, over the pages that the observations API
-- gives. An observation has the fields that the tracker reads.
pub mod Pages
pub mod Totals
pub mod Attribution
use llmops_platform.Prelude.{
  ℕ, zero, suc, ◌+◌, Str, codes, Bool, true, false, not, ◌&&◌, Option, none, some, List, [], ◌∷◌,
  ◌++◌, ◌==◌, string_eq, if◌then◌else◌, is_empty, Result, ok, err, Exc, ◌>>=◌,
}
use llmops_platform.Prelude.Dict.{Dict, lookup, insert}
use llmops_platform.Prelude.Float.{Float}
use llmops_platform.Observability.{Value, text, scalar, nested, value_Eq, Metadata}

-- `obs.metadata`
pub data ObservedMetadata : Type 0 where
  fields : Metadata → ObservedMetadata
  not_a_dict : ObservedMetadata

module _ (fl : Float) where
  open fl use {F, add, round, of_ℕ}

  pub record Observation : Type 0 where
    pub metadata : Option ObservedMetadata
    pub provided_model_name : Option Str
    pub total_cost : Option F
    pub usage_details : Option (Dict Str ℕ)

  pub record ModelData : Type 0 where
    pub cost : F
    pub input_tokens : ℕ
    pub output_tokens : ℕ
    pub requests : ℕ

  abbrev pub no_model_data : ModelData
  no_model_data = record { cost = of_ℕ 0; input_tokens = 0; output_tokens = 0; requests = 0 }

  pub record ServiceData : Type 0 where
    pub total_cost : F
    pub total_input_tokens : ℕ
    pub total_output_tokens : ℕ
    pub total_requests : ℕ
    pub models : Dict Str ModelData

  abbrev pub no_data : ServiceData
  no_data = record {
    total_cost = of_ℕ 0;
    total_input_tokens = 0;
    total_output_tokens = 0;
    total_requests = 0;
    models = [];
  }

  abbrev pub Services : Type 0
  Services = Dict Value ServiceData

  -- `svc`
  unfoldable pub service_of : Observation → Value
  service_of o = elim o.metadata [
    | none ↦ text (codes "unknown")
    | some not_a_dict ↦ text (codes "unknown")
    | some (fields d) ↦ elim (lookup (codes "service_name") d) [
      | none ↦ text (codes "unknown")
      | some v ↦ v
    ]
  ]

  unfoldable pub model_of : Observation → Str
  model_of o = elim o.provided_model_name [
    | none ↦ codes "unknown"
    | some m ↦ if is_empty m then codes "unknown" else m
  ]

  abbrev pub cost_of : Observation → F
  cost_of o = elim o.total_cost [ none ↦ of_ℕ 0 | some c ↦ c ]

  -- `usage.get(key, 0) or 0`
  abbrev pub tokens_of : Str → Observation → ℕ
  tokens_of key o = elim o.usage_details [
    | none ↦ 0
    | some usage ↦ elim (lookup key usage) [ none ↦ 0 | some n ↦ n ]
  ]

  abbrev pub input_of : Observation → ℕ
  input_of = tokens_of (codes "input")

  abbrev pub output_of : Observation → ℕ
  output_of = tokens_of (codes "output")

  -- `services[svc]` and `svc_data["models"][model]` of the default dictionaries
  abbrev pub data_at : Option ServiceData → ServiceData
  data_at none = no_data
  data_at (some d) = d

  abbrev pub model_at : Option ModelData → ModelData
  model_at none = no_model_data
  model_at (some d) = d

  abbrev pub add_model : Observation → ModelData → ModelData
  add_model o d = record {
    cost = add d.cost (cost_of o);
    input_tokens = d.input_tokens + input_of o;
    output_tokens = d.output_tokens + output_of o;
    requests = d.requests + 1;
  }

  unfoldable pub add_observation : Observation → ServiceData → ServiceData
  unfolding model_of
  add_observation o d = record {
    total_cost = add d.total_cost (cost_of o);
    total_input_tokens = d.total_input_tokens + input_of o;
    total_output_tokens = d.total_output_tokens + output_of o;
    total_requests = d.total_requests + 1;
    models = insert (model_of o) (add_model o (model_at (lookup (model_of o) d.models))) d.models;
  }

  -- `service_name and svc != service_name` fails
  abbrev pub asks_for : Option Str → Value → Bool
  asks_for none svc = true
  asks_for (some name) svc = if is_empty name then true else svc == text name

  add_to : Value → Observation → Services → Result Services
  unfolding add_observation
  add_to nested o services = err Exc.other
  add_to svc o services =
      ok (insert svc (add_observation o (data_at (lookup svc services))) services)

  -- `for obs in observations`; a list or an object is no key of a dictionary
  unfoldable pub collect : Option Str → List Observation → Services → Result Services
  unfolding add_to service_of
  collect service_name [] services = ok services
  collect service_name (o ∷ os) services =
      if asks_for service_name (service_of o)
      then (add_to (service_of o) o services >>= collect service_name os)
      else collect service_name os services

  pub record Summary : Type 0 where
    pub service : Value
    pub total_cost : F
    pub total_input_tokens : ℕ
    pub total_output_tokens : ℕ
    pub total_requests : ℕ
    pub models : Dict Str ModelData

  pub data Report : Type 0 where
    of_service : Summary → Report
    -- the summary of a service that has no observation: zeros, and no models
    of_nothing : Str → Report
    of_services : Dict Value Summary → Report
    query_failed : Report

  abbrev pub summary_of : Value → ServiceData → Summary
  summary_of svc d = record {
    service = svc;
    total_cost = round d.total_cost 8;
    total_input_tokens = d.total_input_tokens;
    total_output_tokens = d.total_output_tokens;
    total_requests = d.total_requests;
    models = d.models;
  }

  -- `for svc, data in services.items()`
  unfoldable pub summaries : Services → Dict Value Summary
  summaries [] = []
  summaries ((svc, d) ∷ services) = (svc, summary_of svc d) ∷ summaries services

  abbrev pub report_of : Str → Option ServiceData → Report
  report_of name none = of_nothing name
  report_of name (some d) = of_service (summary_of (text name) d)

  unfoldable pub report : Option Str → Services → Report
  unfolding summaries
  report none services = of_services (summaries services)
  report (some name) services =
      if is_empty name
      then of_services (summaries services)
      else report_of name (lookup (text name) services)

  -- `_aggregate`
  unfoldable pub aggregate : List Observation → Option Str → Result Report
  unfolding collect report
  aggregate observations service_name = do
    services ← collect service_name observations []
    ok (report service_name services)

  -- A response of the API; no `meta`, or no cursor in it, is `none`.
  pub record Page : Type 0 where
    pub observations : List Observation
    pub next_cursor : Option Str

  module _ (get_many : Option Str → Result Page) where
    -- the cursor of a further page
    abbrev pub next_of : Page → Option Str
    next_of p = elim p.next_cursor [ none ↦ none | some c ↦ if is_empty c then none else some c ]

    -- `while True`, on fuel
    unfoldable pub query_pages :
        ℕ → Option Str → List Observation → Option (Result (List Observation))
    query_pages zero cursor all_observations = none
    query_pages (suc n) cursor all_observations = elim (get_many cursor) [
      | err e ↦ some (err e)
      | ok p ↦
          let all = all_observations ++ p.observations in
          elim (next_of p) [ none ↦ some (ok all) | some c ↦ query_pages n (some c) all ]
    ]

    abbrev pub or_failed : Result Report → Report
    or_failed (ok r) = r
    or_failed (err e) = query_failed

    -- `get_summary` with `_query_langfuse`
    unfoldable pub get_summary : ℕ → Option Str → Option Report
    unfolding query_pages aggregate
    get_summary fuel service_name = elim (query_pages fuel none []) [
      | none ↦ none
      | some r ↦ some (or_failed (r >>= λ os. aggregate os service_name))
    ]

-- `LangfuseCostTracker.record`
unfoldable pub record_cost : (fl : Float) → Str → Str → ℕ → ℕ → fl.F
record_cost fl service_name model input_tokens output_tokens = (fl.of_ℕ) 0
