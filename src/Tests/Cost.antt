-- ===== src/Tests/Cost.antt =====
-- The cost tracker of src/llmops/core/gateway/cost_tracker.py at concrete inputs.
use llmops_platform.Prelude.{
  ℕ, ◌≡◌, Str, codes, Bool, refl, true, false, none, some, List, [], ◌∷◌, In, length, sum_by,
  string_eq, ok,
}
use llmops_platform.Prelude.Dict.{Dict, lookup}
use llmops_platform.Prelude.Float.{decimal}
use llmops_platform.Gateway.Cost.{
  UsageRecord, svc_key, ServiceSummary, get_service_summary, of_services, get_summary,
}
use llmops_platform.Gateway.Cost.Totals.{record_all, records_of, cost_from}
use llmops_platform.Gateway.Cost.Traffic.{RouterCall, serve, billed, serve-get_service_summary}
use llmops_platform.Gateway.Schemas.{user}
use llmops_platform.Gateway.Registry.{LlmProvider}
use llmops_platform.Gateway.Cost.Summary.{has_colon, get_summary-lists}

abbrev usage : Str → ℕ → ℕ → UsageRecord
usage name i o = record {
  service_name = name;
  model = codes "gemini-2.0-flash";
  input_tokens = i;
  output_tokens = o;
}

abbrev shop : Str
shop = codes "shop"

abbrev records : List UsageRecord
records = usage shop 100 20 ∷ usage (codes "blog") 7 7 ∷ usage shop 50 30 ∷ []

abbrev provider : LlmProvider decimal
provider = record {
  provider_name = codes "p";
  supports_model = λ m. true;
  chat = λ r. ok (record {
    id = codes "r";
    model = codes "m";
    choices = [];
    usage = record { input_tokens = 3; output_tokens = 2; total_tokens = 5 };
    metadata = [];
  });
  chat_stream = λ r. record { chunks = []; failure = none };
}

abbrev router_call : Str → Bool → RouterCall decimal (λ e. none) (provider ∷ [])
router_call name streaming = record {
  trace_id = codes "t";
  caller = record { service_name = name; request_id = none };
  request = record {
    model = codes "gemini-2.0-flash";
    messages = record { role = user; content = codes "hi" } ∷ [];
    temperature = 10000;
    max_tokens = 1;
    top_p = 10000;
    stop = none;
    stream = streaming;
    metadata = [];
  };
  is_stream = streaming;
}

abbrev router_calls : List (RouterCall decimal (λ e. none) (provider ∷ []))
router_calls = router_call shop false ∷ router_call (codes "blog") true ∷ router_call shop true ∷ []

abbrev billed_records : List UsageRecord
billed_records = records_of decimal shop (billed decimal (λ e. none) (provider ∷ []) router_calls)

serve-get_service_summary_example :
    get_service_summary decimal (serve decimal (λ e. none) (provider ∷ []) router_calls []) shop
    ≡ record {
      service = shop;
      total_cost = cost_from decimal 0 billed_records;
      total_input_tokens = sum_by (λ (r : UsageRecord). r.input_tokens) billed_records;
      total_output_tokens = sum_by (λ (r : UsageRecord). r.output_tokens) billed_records;
      total_requests = length billed_records;
    }
serve-get_service_summary_example =
    serve-get_service_summary decimal (λ e. none) (provider ∷ []) shop router_calls refl refl

abbrev scanned : List Str
scanned = svc_key shop ∷ svc_key (codes "blog") ∷ svc_key shop ∷ []

get_summary-lists_example :
    (d : Dict Str (ServiceSummary decimal)) × (get_summary decimal
        (record_all decimal records [])
        scanned
        none
      ≡ of_services d)
    × ((name : Str)
        → In (svc_key name) scanned
        → has_colon name ≡ false
        → lookup name d ≡ some (get_service_summary decimal (record_all decimal records []) name))
    × ((name : Str) → has_colon name ≡ true → lookup name d ≡ none)
get_summary-lists_example = get_summary-lists decimal (record_all decimal records []) scanned
