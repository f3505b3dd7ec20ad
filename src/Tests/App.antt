-- ===== src/Tests/App.antt =====
-- Requests to the application of src/llmops/main.py, and the labels of src/llmops/metrics.py, at concrete
-- inputs.
use llmops_platform.Prelude.{
  ℕ, ◌≡◌, ◌≢◌, refl, inr, Str, codes, Bool, true, false, Option, none, some, [], ◌∷◌, string_eq,
  str_eq, arith, leb, ◌&&◌, Result, ok, Exc,
}
use llmops_platform.Prelude.Dict.{Dict, lookup}
use llmops_platform.Prelude.Float.{decimal}
use llmops_platform.Middleware.Auth.{verify_api_key}
use llmops_platform.Middleware.RateLimit.{rate_limit_dependency}
use llmops_platform.Middleware.Strings.{split, strip, removeprefix}
use llmops_platform.Metrics.{normalize_path}
use llmops_platform.Gateway.Registry.{resolve}
use llmops_platform.Gateway.Router.{Event}
use llmops_platform.Prompts.Base.{PromptDb}
use llmops_platform.Api.Gateway.{CompletionRequest, prepare}
use llmops_platform.Api.Status.{is_value_error}
use llmops_platform.App.{Request, Conditions, World, Endpoint, handle}
use llmops_platform.App.Requests.{Guarded, Uncounted, limit_of, handle-Guarded}
use llmops_platform.App.Completions.{State, IsRefused, completions, handle-completions}

abbrev is_digit : ℕ → Bool
is_digit c = leb b'0' c && leb c b'9'

abbrev path : Str
path = codes "/v1/prompts/42/"

label : normalize_path is_digit path ≡ codes "/v1/prompts/{id}"
unfolding normalize_path split
label = refl

-- What the two probes give: nothing, or an error.
abbrev reached : Option Str
reached = none

abbrev refused : Option Str
refused = some (codes "refused")

abbrev conditions : {S : Type 0} → Conditions S
conditions = record { keys = codes "k" ∷ []; sec = 1; rpm = 2; redis_up = true; now = 100 }

abbrev request : Request
request = record {
  method = codes "POST";
  path = codes "/v1/chat/completions";
  authorization = some (codes "Bearer k");
  service_name = some (codes "shop");
  host = none;
  request_id = none;
}

abbrev start : World ℕ is_digit
start = record { service = record { state = 0; buckets = [] }; samples = [] }

abbrev count_up : Endpoint ℕ
count_up r n = (ok 201, n)

not_metrics : codes "/v1/chat/completions" ≢ codes "/metrics"
not_metrics h = ground arith

handle-Guarded_example :
    Guarded ℕ is_digit conditions
      (codes "r")
      count_up
      request
      start
      (handle ℕ is_digit conditions (codes "r") true count_up request start)
handle-Guarded_example =
    handle-Guarded ℕ is_digit conditions (codes "r") count_up request start not_metrics

abbrev body : CompletionRequest decimal
body = record {
  model = codes "gpt";
  messages = ((codes "content", codes "hi") ∷ []) ∷ [];
  temperature = 7000;
  max_tokens = 10;
  top_p = 10000;
  stop = none;
  stream = false;
  metadata = [];
  prompt_name = none;
  prompt_version = none;
  prompt_env = none;
  prompt_variables = [];
}

abbrev render : Str → Dict Str Str → Result Str
render template variables = ok template

abbrev show : ℕ → Str
show n = codes "n"

abbrev accepts : Event decimal → Option Exc
accepts e = none

abbrev Behind : Type 0
Behind = State decimal render show accepts [] (codes "t")

abbrev no_rows : PromptDb
no_rows = record { prompts = []; versions = [] }

abbrev world : World Behind is_digit
world = record { service = record { state = (no_rows, []); buckets = [] }; samples = [] }

abbrev refusal : Exc
refusal = Exc.no_provider (codes "gpt") []

admitted :
    verify_api_key (codes "k" ∷ []) (codes "/v1/chat/completions") (some (codes "Bearer k"))
    ≡ ok (codes "k")
unfolding verify_api_key str_eq strip removeprefix
admitted = refl

within : (limit_of Behind is_digit conditions request []).0 ≡ ok tt
unfolding rate_limit_dependency lookup
within = refl

is_refused : IsRefused decimal render show accepts [] (codes "t") body no_rows refusal
unfolding is_value_error prepare resolve str_eq lookup
is_refused = (refl, inr (_, refl, refl, refl))

handle-completions_example :
    let out =
      handle Behind is_digit conditions
        (codes "r")
        true
        (completions decimal render show accepts [] (codes "t") body)
        request
        world in
    Uncounted Behind is_digit world out
    × (out.1.service ≡ record {
      state = (no_rows, []);
      buckets = (limit_of Behind is_digit conditions request []).1;
    })
handle-completions_example =
    handle-completions decimal render show accepts [] (codes "t") is_digit conditions (codes "r")
      (codes "k") body request world refusal admitted within is_refused
