-- ===== src/Tests/Prompts.antt =====
-- The prompt manager of src/llmops/core/prompts at concrete inputs.
use llmops_platform.Prelude.{
  ℕ, max, ◌≡◌, refl, inl, inr, Str, codes, true, none, some, List, [], ◌∷◌, ok, str_eq, In, arith,
}
use llmops_platform.Prelude.Tx.{after}
use llmops_platform.Prompts.Base.{
  PromptEnvironment, draft, production, PromptModel, PromptVersionModel, PromptDb, env_of,
  env_value, prompt_conflict, version_conflict,
}
use llmops_platform.Prompts.Manager.{
  TemplateArgs, create, create_version, get_prompt_by_name, add_prompt, add_version, promote, get,
  find_version, max_version, in_env, version_to_dict,
}
use llmops_platform.Prompts.Manager.History.{
  Op, create_op, create_version_op, promote_op, run, run_all, SameContent, versions_immutable,
}
use llmops_platform.Prompts.Manager.Gaps.{IsWellFormed, versions_contiguous, empty_db}
use llmops_platform.Prompts.Manager.Serving.{promote-get}
use llmops_platform.Prompts.Store.{
  get_in, step_all, step, create_in, create_version_in, promote_in, entry_for,
}
use llmops_platform.Prompts.Store.Refinement.{AreFresh}
use llmops_platform.Prompts.Store.Serving.{served, shown, empty_store, run_all-get}

abbrev greeting : Str
greeting = codes "greeting"

abbrev prompt : PromptModel
prompt = record {
  id = 1;
  name = greeting;
  description = codes "";
  is_active = true;
  created_at = 5;
}

abbrev version : ℕ → ℕ → PromptEnvironment → PromptVersionModel
version id n env = record {
  id = id;
  prompt_id = 1;
  version = n;
  template = codes "hi";
  environment = env;
  variables = [];
  change_note = codes "";
  created_at = 5;
}

abbrev first : PromptVersionModel
first = version 11 1 draft

abbrev second : PromptVersionModel
second = version 12 2 production

abbrev db : PromptDb
db = record { prompts = prompt ∷ []; versions = first ∷ second ∷ [] }

abbrev args : TemplateArgs
args = record { template = codes "hello"; variables = []; change_note = codes "longer" }

abbrev ops : List Op
ops = create_version_op 13 6 greeting args ∷ promote_op greeting 1 (codes "staging") ∷ []

versions_immutable_example :
    (w : PromptVersionModel) × (find_version 1 1 (run_all ops db).versions ≡ some w)
    × SameContent first w
versions_immutable_example = versions_immutable ops db 1 1 first refl

abbrev new_op : Op
new_op = create_op 1 11 5 greeting (codes "") (codes "hi") []

versions_contiguous_example : IsWellFormed (run_all (new_op ∷ ops) empty_db)
versions_contiguous_example = versions_contiguous (new_op ∷ ops)

own_id : (u : PromptVersionModel) → In u db.versions → u.id ≡ 11 → u ≡ first
own_id u (inl e) h = e
own_id u (inr (inl e)) h = absurd (ground arith)
own_id u (inr (inr m)) h = elim m [ ]

-- Version 2 is in production; promoting version 1 does not make it the one that is served.
promote-get_example :
    let db' = after (promote greeting 1 (codes "production")) db in
    (w : PromptVersionModel) × (get greeting none (some (codes "production")) db'
      ≡ ok (version_to_dict w, db'))
    × (w.version ≡ max 1 (max_version (in_env 1 production db.versions)))
unfolding str_eq env_of
promote-get_example =
    promote-get greeting 1 (codes "production") db prompt production first refl refl refl refl
      own_id

abbrev all_ops : List Op
all_ops = new_op ∷ ops

all_ops-AreFresh : AreFresh all_ops empty_db
unfolding run create create_version promote str_eq env_of prompt_conflict version_conflict
    get_prompt_by_name add_prompt add_version max_version
all_ops-AreFresh = ((refl, refl), (refl, (tt, tt)))

run_all-get_example :
    served (get greeting none (some (codes "staging")) (run_all all_ops empty_db))
    ≡ shown (get_in greeting none (some (codes "staging")) (step_all all_ops empty_store))
run_all-get_example = run_all-get all_ops greeting none (some (codes "staging")) all_ops-AreFresh

-- It serves the first version.
staging_number :
    shown (get_in greeting none (some (codes "staging")) (step_all all_ops empty_store))
    ≡ some (record {
      version = 1;
      template = codes "hi";
      variables = [];
      change_note = codes "";
      environment = codes "staging";
    })
unfolding get_in step_all step create_in create_version_in promote_in env_of str_eq entry_for
    env_value
staging_number = refl
