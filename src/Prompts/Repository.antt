-- ===== src/Prompts/Repository.antt =====
-- db/repositories/prompt.py: `PromptRepository`, which makes the manager's queries on its own.
use llmops_platform.Prelude.{
  ℕ, ◌≡◌, refl, Str, Option, none, some, List, arith, ok, err, Result, ◌==◌, nat_eq, string_eq,
  str_eq, find, filter, leb, Exc,
}
use llmops_platform.Prelude.Sort.{sort_desc}
use llmops_platform.Prelude.Tx.{Tx, pure, gets, some_or, ◌>>=◌, ◌>>◌}
use llmops_platform.Prompts.Base.{
  PromptEnvironment, draft, staging, production, env_value, env_of, PromptModel, PromptVersionModel,
  PromptDb,
}
use llmops_platform.Prompts.Manager.{
  VersionDict, version_to_dict, version_of, versions_of, find_version, no_such_version, in_env,
  latest, max_version, TemplateArgs, new_prompt, add_prompt, add_version, get, get_by,
}

unfoldable pub get_by_name : Str → Tx PromptDb (Option PromptModel)
get_by_name name = gets (λ (db : PromptDb). find (λ (p : PromptModel). p.name == name) db.prompts)

unfoldable pub get_by_id : ℕ → Tx PromptDb (Option PromptModel)
get_by_id id = gets (λ (db : PromptDb). find (λ (p : PromptModel). p.id == id) db.prompts)

unfoldable pub list_active : Tx PromptDb (List PromptModel)
list_active = gets (λ (db : PromptDb). filter (λ (p : PromptModel). p.is_active) db.prompts)

unfoldable pub create : ℕ → ℕ → Str → Str → Tx PromptDb PromptModel
unfolding add_prompt
create id now name description = do
  let prompt = new_prompt id now name description
  add_prompt prompt
  pure prompt

-- `get_version`: the number goes before the environment, and with neither it is the newest.
unfoldable pub get_version :
    ℕ → Option ℕ → Option PromptEnvironment → Tx PromptDb (Option PromptVersionModel)
get_version prompt_id (some n) environment =
    gets (λ (db : PromptDb). find_version prompt_id n db.versions)
get_version prompt_id none (some env) =
    gets (λ (db : PromptDb). latest (in_env prompt_id env db.versions))
get_version prompt_id none none =
    gets (λ (db : PromptDb). latest (versions_of prompt_id db.versions))

unfoldable pub get_max_version : ℕ → Tx PromptDb ℕ
unfolding max_version
get_max_version prompt_id =
    gets (λ (db : PromptDb). max_version (versions_of prompt_id db.versions))

-- `create_version`, with the environment that the caller gives
unfoldable pub create_version :
    ℕ → ℕ → ℕ → ℕ → TemplateArgs → PromptEnvironment → Tx PromptDb PromptVersionModel
unfolding add_version
create_version id now prompt_id version a environment = do
  let pv : PromptVersionModel = record {
    id = id;
    prompt_id = prompt_id;
    version = version;
    template = a.template;
    environment = environment;
    variables = a.variables;
    change_note = a.change_note;
    created_at = now;
  }
  add_version pv
  pure pv

unfoldable pub list_versions : ℕ → Tx PromptDb (List PromptVersionModel)
list_versions prompt_id =
    gets (λ (db : PromptDb). sort_desc leb version_of (versions_of prompt_id db.versions))

abbrev pub env_text : Option PromptEnvironment → Option Str
env_text none = none
env_text (some e) = some (env_value e)

-- What the manager makes of the row that the repository finds.
abbrev pub Agrees : PromptDb → Option PromptVersionModel → Result (VersionDict × PromptDb) → Type 0
Agrees db (some v) r = r ≡ ok (version_to_dict v, db)
Agrees db none r = (e : Exc) × (r ≡ err e)

abbrev pub row_of : Result (Option PromptVersionModel × PromptDb) → Option PromptVersionModel
row_of (ok r) = r.0
row_of (err e) = none

served-Agrees :
    (db : PromptDb) (o : Option PromptVersionModel) (x : Exc)
    → Agrees db o ((some_or o x >>= λ pv. pure (version_to_dict pv)) db)
served-Agrees db none x = (x, refl)
served-Agrees db (some v) x = refl

get-found :
    (name : Str) (version : Option ℕ) (environment : Option Str) (db : PromptDb) (p : PromptModel)
    → find (λ (q : PromptModel). q.name == name) db.prompts ≡ some p
    → get name version environment db ≡ get_by p.id name version environment db
unfolding get
get-found name version environment db p found = ground arith

get_by-Agrees :
    (id : ℕ) (name : Str) (version : Option ℕ) (env : Option PromptEnvironment) (db : PromptDb)
    → Agrees db (row_of (get_version id version env db)) (get_by id name version (env_text env) db)
unfolding get_by get_version env_of env_value str_eq
get_by-Agrees id name (some n) env db =
    served-Agrees db (find_version id n db.versions) (no_such_version name n)
get_by-Agrees id name none none db =
    served-Agrees db (latest (versions_of id db.versions)) (Exc.no_versions name)
get_by-Agrees id name none (some draft) db =
    served-Agrees db (latest (in_env id draft db.versions))
      (Exc.no_version_in_env (env_value draft) name)
get_by-Agrees id name none (some staging) db =
    served-Agrees db (latest (in_env id staging db.versions))
      (Exc.no_version_in_env (env_value staging) name)
get_by-Agrees id name none (some production) db =
    served-Agrees db (latest (in_env id production db.versions))
      (Exc.no_version_in_env (env_value production) name)

-- For a prompt that exists, the manager's `get` by number, by the text of an environment or by
-- neither returns the row that the repository's `get_version` finds for the same arguments, and
-- raises exactly when that finds none; neither writes.
pub get-Agrees :
    (name : Str) (version : Option ℕ) (env : Option PromptEnvironment) (db : PromptDb)
    (p : PromptModel)
    → find (λ (q : PromptModel). q.name == name) db.prompts ≡ some p
    → Agrees db (row_of (get_version p.id version env db)) (get name version (env_text env) db)
get-Agrees name version env db p found =
    rw (get-found name version (env_text env) db p found) (get_by-Agrees p.id name version env db)
