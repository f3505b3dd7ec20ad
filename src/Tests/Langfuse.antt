-- ===== src/Tests/Langfuse.antt =====
-- The tracker of src/llmops/core/gateway/langfuse_cost_tracker.py at concrete inputs.
use llmops_platform.Prelude.{
  ℕ, ◌≡◌, ◌≢◌, refl, Str, codes, Bool, true, false, Option, none, some, List, [], ◌∷◌, string_eq,
  str_eq, map, arith, Result, ok,
}
use llmops_platform.Prelude.Dict.{lookup, insert}
use llmops_platform.Prelude.Float.{decimal}
use llmops_platform.Gateway.Schemas.{user}
use llmops_platform.Gateway.Registry.{LlmProvider}
use llmops_platform.Observability.{text, value_Eq, Sent, value_eq}
use llmops_platform.Gateway.Langfuse.{
  Observation, fields, Page, get_summary, aggregate, or_failed, of_nothing, of_service, Report,
}
use llmops_platform.Gateway.Langfuse.Pages.{Pages, last, more, concat, get_summary-Pages}
use llmops_platform.Gateway.Langfuse.Totals.{observed, Reports, aggregate-totals}
use llmops_platform.Gateway.Langfuse.Attribution.{Call, serve, generations, serve-aggregate}

abbrev shop : Str
shop = codes "shop"

abbrev seen : Str → Str → ℕ → Observation decimal
seen service model n = record {
  metadata = some (fields ((codes "service_name", text service) ∷ []));
  provided_model_name = some model;
  total_cost = some 25;
  usage_details = some ((codes "input", n) ∷ (codes "output", 2) ∷ []);
}

abbrev first_page : List (Observation decimal)
first_page = seen shop (codes "m") 3 ∷ seen (codes "blog") (codes "m") 4 ∷ []

abbrev second_page : List (Observation decimal)
second_page = seen shop (codes "n") 5 ∷ []

abbrev get_many : Option Str → Result (Page decimal)
get_many none = ok (record { observations = first_page; next_cursor = some (codes "c") })
get_many (some c) = ok (record { observations = second_page; next_cursor = some [] })

abbrev pages : List (List (Observation decimal))
pages = first_page ∷ second_page ∷ []

two_pages : Pages decimal get_many none pages
two_pages = more refl refl (last refl refl)

get_summary-Pages_example :
    get_summary decimal get_many 2 (some shop)
    ≡ some
        (or_failed decimal get_many (aggregate decimal (concat decimal get_many pages) (some shop)))
get_summary-Pages_example =
    get_summary-Pages decimal get_many pages 2 (some shop) two_pages (omega arith)

abbrev all_seen : List (Observation decimal)
all_seen = concat decimal get_many pages

aggregate-totals_example :
    Reports decimal shop
      (observed decimal (text shop) all_seen)
      (aggregate decimal all_seen (some shop))
aggregate-totals_example = aggregate-totals decimal shop all_seen refl

-- Two requests and eight tokens of input are found for the service.
abbrev totals_of : Result (Report decimal) → Option (ℕ × ℕ × ℕ)
totals_of (ok (of_service s)) = some (s.total_cost, s.total_input_tokens, s.total_requests)
totals_of _ = none

shop_totals : totals_of (aggregate decimal all_seen (some shop)) ≡ some (50, 8, 2)
unfolding aggregate value_eq lookup str_eq insert
shop_totals = refl

abbrev provider : LlmProvider decimal
provider = record {
  provider_name = codes "p";
  supports_model = λ m. true;
  chat = λ r. ok (record {
    id = codes "r";
    model = codes "m";
    choices = [];
    usage = record { input_tokens = 3; output_tokens = 2; total_tokens = 5 };
    metadata = [];
  });
  chat_stream = λ r. record { chunks = []; failure = none };
}

abbrev call : Bool → Call decimal (λ x. codes "1.0") (λ n. codes "1")
call streaming = record {
  trace_id = codes "t";
  caller = record { service_name = shop; request_id = none };
  request = record {
    model = codes "m";
    messages = record { role = user; content = codes "hi" } ∷ [];
    temperature = 10000;
    max_tokens = 1;
    top_p = 10000;
    stop = none;
    stream = streaming;
    metadata = [];
  };
  is_stream = streaming;
}

abbrev shown : Sent → Observation decimal
shown s = record {
  metadata = some (fields s.metadata);
  provided_model_name = s.model;
  total_cost = none;
  usage_details = s.usage_details;
}

not_unknown : shop ≢ codes "unknown"
not_unknown h = ground arith

serve-aggregate_example :
    let served =
      serve decimal
        (λ x. codes "1.0")
        (λ n. codes "1")
        (provider ∷ [])
        (λ e. none)
        (call false ∷ call true ∷ [])
        (record { observations = []; scores = [] }) in
    aggregate decimal
      (map shown (generations decimal (λ x. codes "1.0") (λ n. codes "1") served))
      (some shop)
    ≡ ok (of_nothing shop)
serve-aggregate_example =
    serve-aggregate decimal (λ x. codes "1.0") (λ n. codes "1") (provider ∷ []) (λ e. none) shown
      (call false ∷ call true ∷ []) shop (λ s. refl) refl not_unknown
