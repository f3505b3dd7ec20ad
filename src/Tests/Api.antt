-- ===== src/Tests/Api.antt =====
-- The endpoints of src/llmops/api/v1 at concrete inputs.
use llmops_platform.Prelude.{
  ℕ, ◌≡◌, refl, Str, codes, true, false, none, some, List, [], ◌∷◌, ◌++◌, map, Result, ok, leb, not,
  str_eq, string_eq,
}
use llmops_platform.Prelude.Dict.{Dict, lookup}
use llmops_platform.Prelude.Float.{decimal}
use llmops_platform.Prompts.Base.{draft, PromptVersionModel, PromptDb}
use llmops_platform.Prompts.Manager.{
  TemplateArgs, max_int4, version_to_dict, get, get_prompt_by_name, get_by, get_numbered,
}
use llmops_platform.Gateway.Schemas.{user, role_of, Message, ChatRequest}
use llmops_platform.Gateway.Providers.Anthropic
use llmops_platform.Gateway.Providers.Gemini
use llmops_platform.Gateway.Providers.Messages.{
  last_system, dialogue, anthropic_message, gemini_message,
}
use llmops_platform.Api.Gateway.{CompletionRequest, messages_of, prepare}
use llmops_platform.Api.Gateway.Managed.{prepare-managed}
use llmops_platform.Api.Prompts.{get_prompt, list_versions, create_version, promote_prompt}
use llmops_platform.Prompts.Renderer
use llmops_platform.Prompts.Renderer.{Outcome, done, undefined_error}
use llmops_platform.Api.Prompts.{compile_prompt}
use llmops_platform.Api.Prompts.Compiled.{Compiled, compile_prompt-Compiled}
use llmops_platform.Tuning.Rows.{TuningDb, TrialArgs}
use llmops_platform.Api.Tuning
use llmops_platform.Api.Tuning.Errors.{trial_fits, experiments-Answers}
use llmops_platform.Tuning.Experiment.{too_long?}
use llmops_platform.Api.Answers.{Answers, AnswersOr}
use llmops_platform.Api.Prompts.Errors.{fits, endpoints-Answers}

abbrev greeting : Str
greeting = codes "greeting"

abbrev version : PromptVersionModel
version = record {
  id = 11;
  prompt_id = 1;
  version = 1;
  template = codes "be kind";
  environment = draft;
  variables = [];
  change_note = [];
  created_at = 5;
}

abbrev db : PromptDb
db = record {
  prompts =
      record { id = 1; name = greeting; description = []; is_active = true; created_at = 5 } ∷ [];
  versions = version ∷ [];
}

abbrev render : Str → Dict Str Str → Result Str
render template variables = ok template

abbrev show : ℕ → Str
show n = n ∷ []

abbrev request : CompletionRequest decimal
request = record {
  model = codes "claude-x";
  messages = ((codes "content", codes "hi") ∷ []) ∷ [];
  temperature = 7000;
  max_tokens = 100;
  top_p = 10000;
  stop = none;
  stream = false;
  metadata = [];
  prompt_name = some greeting;
  prompt_version = some 1;
  prompt_env = none;
  prompt_variables = [];
}

abbrev sent : List Message
sent = record { role = user; content = codes "hi" } ∷ []

prepare-managed_example :
    (r : ChatRequest decimal) × (prepare decimal render show request db ≡ ok (r, db))
    × (Anthropic.split_messages r.messages Anthropic.no_messages ≡ record {
      system_message = last_system (some (codes "be kind")) sent;
      messages = map anthropic_message (dialogue sent);
    })
    × (Gemini.build_contents r.messages Gemini.no_contents ≡ record {
      contents = map gemini_message (dialogue sent);
      system_instruction = last_system (some (codes "be kind")) sent;
    })
unfolding version_to_dict get get_prompt_by_name get_by get_numbered str_eq messages_of role_of
    lookup
prepare-managed_example =
    prepare-managed decimal render show request greeting db (version_to_dict version)
      (codes "be kind") sent refl refl refl refl refl

abbrev args : TemplateArgs
args = record { template = codes "hello"; variables = []; change_note = [] }

endpoints-Answers_example :
    AnswersOr (fits (some 0x8000_0000)) 404 (get_prompt greeting (some 0x8000_0000) none db)
    × Answers 404 (list_versions greeting db)
    × AnswersOr (leb 1 max_int4) 400 (promote_prompt greeting 1 (codes "mars") db)
    × Answers 404 (create_version 12 6 greeting args db)
endpoints-Answers_example =
    endpoints-Answers greeting (some 0x8000_0000) none 1 (codes "mars") 12 6 args db refl

abbrev no_experiments : TuningDb decimal
no_experiments = record { experiments = []; trials = [] }

abbrev trial_args : TrialArgs decimal
trial_args = record {
  variant_id = codes "v";
  trace_id = codes "t";
  parameters = [];
  input_text = [];
  output_text = [];
  score = none;
}

abbrev no_hash : Str → ℕ
no_hash s = 0

experiments-Answers_example :
    Answers 404 (Tuning.get_experiment decimal 1 no_experiments)
    × Answers 400 (Tuning.start_experiment decimal 1 no_experiments)
    × Answers 404 (Tuning.allocate_variant decimal no_hash 1 (codes "k") no_experiments)
    × AnswersOr
        (trial_fits decimal trial_args)
        400
        (Tuning.record_trial decimal 3 1 trial_args no_experiments)
    × Answers 404 (Tuning.get_results decimal 1 no_experiments)
    × AnswersOr
        (not (too_long? decimal none))
        400
        (Tuning.conclude_experiment decimal 9 1 none no_experiments)
    × Answers 400 (Tuning.cancel_experiment decimal 1 no_experiments)
experiments-Answers_example =
    experiments-Answers decimal no_hash 1 9 3 (codes "k") none trial_args no_experiments refl

-- A Jinja2 that puts the variable "name" behind the template.
abbrev append_name : Str → Dict Str Str → Outcome Str
append_name template variables = elim (lookup (codes "name") variables) [
  | none ↦ undefined_error
  | some name ↦ done (template ++ name)
]

compile_prompt-Compiled_example :
    Compiled
      (λ s. done s)
      append_name
      ((codes "name", codes "Bob") ∷ [])
      db
      (get greeting none none db)
      (compile_prompt
        (Renderer.render (λ s. done s) append_name)
        greeting
        none
        none
        ((codes "name", codes "Bob") ∷ [])
        db)
compile_prompt-Compiled_example =
    compile_prompt-Compiled (λ s. done s) append_name greeting none none
      ((codes "name", codes "Bob") ∷ []) db
