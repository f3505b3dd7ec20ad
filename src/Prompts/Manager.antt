-- ===== src/Prompts/Manager.antt =====
-- core/prompts/manager.py: `PromptManager`, each method a unit of work on the two tables.
pub mod History
pub mod Versions
pub mod Changes
pub mod Gaps
pub mod Serving
use llmops_platform.Prelude.{
  ℕ, ◌+◌, Str, codes, Bool, true, false, ◌&&◌, Option, none, some, List, [], ◌∷◌, ◌++◌, map, ◌==◌,
  nat_eq, string_eq, if◌then◌else◌, filter, find, is_empty, leb, max, Exc,
}
use llmops_platform.Prelude.Dict.{Dict}
use llmops_platform.Prelude.Sort.{sort_desc, top}
use llmops_platform.Prelude.Table.{update}
use llmops_platform.Prelude.Tx.{Tx, pure, raise, gets, some_or, lift, modify, raise_if, ◌>>=◌, ◌>>◌}
use llmops_platform.Prompts.Base.{
  PromptEnvironment, draft, env_value, env_of, same_env, PromptModel, PromptVersionModel, PromptDb,
  prompt_conflict, version_conflict,
}

pub record VersionDict : Type 0 where
  pub id : ℕ
  pub prompt_id : ℕ
  pub version : ℕ
  pub template : Str
  pub environment : Str
  pub variables : Dict Str Str
  pub change_note : Str
  pub created_at : ℕ

pub record PromptDict : Type 0 where
  pub id : ℕ
  pub name : Str
  pub description : Str
  pub is_active : Bool
  pub created_at : ℕ
  pub latest_version : Option VersionDict

-- `_version_to_dict`
unfoldable pub version_to_dict : PromptVersionModel → VersionDict
version_to_dict v = record {
  id = v.id;
  prompt_id = v.prompt_id;
  version = v.version;
  template = v.template;
  environment = env_value v.environment;
  variables = v.variables;
  change_note = v.change_note;
  created_at = v.created_at;
}

abbrev map_version : Option PromptVersionModel → Option VersionDict
map_version none = none
map_version (some v) = some (version_to_dict v)

-- `_prompt_to_dict`
unfoldable pub prompt_to_dict : PromptModel → Option PromptVersionModel → PromptDict
prompt_to_dict p latest = record {
  id = p.id;
  name = p.name;
  description = p.description;
  is_active = p.is_active;
  created_at = p.created_at;
  latest_version = map_version latest;
}

abbrev pub version_of : PromptVersionModel → ℕ
version_of v = v.version

-- The rows of one prompt, the row of one of its versions, its rows in one environment, and the
-- row that `ORDER BY version DESC LIMIT 1` picks.
abbrev pub versions_of : ℕ → List PromptVersionModel → List PromptVersionModel
versions_of id rows = filter (λ v. v.prompt_id == id) rows

abbrev pub find_version : ℕ → ℕ → List PromptVersionModel → Option PromptVersionModel
find_version id n rows = find (λ v. v.prompt_id == id && v.version == n) rows

abbrev pub in_env : ℕ → PromptEnvironment → List PromptVersionModel → List PromptVersionModel
in_env id env rows = filter (λ v. v.prompt_id == id && same_env v.environment env) rows

abbrev pub latest : List PromptVersionModel → Option PromptVersionModel
latest rows = top leb version_of rows

-- The greatest number of the column `version`.
abbrev pub max_int4 : ℕ
max_int4 = 0x7fff_ffff

-- Where no row has the number: the driver refuses a number that the column cannot hold, and no row
-- has such a number.
unfoldable pub no_such_version : Str → ℕ → Exc
no_such_version name n = if leb n max_int4 then Exc.version_not_found name n else Exc.data_error

-- `_get_prompt_by_name`
unfoldable pub get_prompt_by_name : Str → Tx PromptDb PromptModel
get_prompt_by_name name = do
  rows ← gets (λ (db : PromptDb). db.prompts)
  some_or (find (λ p. p.name == name) rows) (Exc.prompt_not_found name)

-- The last query of `get`, which is that for the newest version.
unfoldable pub get_latest : ℕ → Str → Tx PromptDb VersionDict
get_latest id name = do
  rows ← gets (λ (db : PromptDb). db.versions)
  pv ← some_or (latest (versions_of id rows)) (Exc.no_versions name)
  pure (version_to_dict pv)

unfoldable pub get_numbered : ℕ → Str → ℕ → Tx PromptDb VersionDict
unfolding no_such_version
get_numbered id name n = do
  rows ← gets (λ (db : PromptDb). db.versions)
  pv ← some_or (find_version id n rows) (no_such_version name n)
  pure (version_to_dict pv)

unfoldable pub get_in_env : ℕ → Str → Str → Tx PromptDb VersionDict
get_in_env id name environment = do
  env ← lift (env_of environment)
  rows ← gets (λ (db : PromptDb). db.versions)
  pv ← some_or (latest (in_env id env rows)) (Exc.no_version_in_env environment name)
  pure (version_to_dict pv)

-- `if environment:`, after it is known that no version number is given
unfoldable pub get_by : ℕ → Str → Option ℕ → Option Str → Tx PromptDb VersionDict
unfolding get_latest get_numbered get_in_env
get_by id name (some n) environment = get_numbered id name n
get_by id name none none = get_latest id name
get_by id name none (some environment) =
    if is_empty environment then get_latest id name else get_in_env id name environment

-- `get`
unfoldable pub get : Str → Option ℕ → Option Str → Tx PromptDb VersionDict
unfolding get_prompt_by_name get_by
get name version environment = do
  prompt ← get_prompt_by_name name
  get_by prompt.id name version environment

-- The arguments of the two methods that write a template.
pub record TemplateArgs : Type 0 where
  pub template : Str
  pub variables : Dict Str Str
  pub change_note : Str

abbrev pub new_version : ℕ → ℕ → ℕ → ℕ → TemplateArgs → PromptVersionModel
new_version id now prompt_id version a = record {
  id = id;
  prompt_id = prompt_id;
  version = version;
  template = a.template;
  environment = PromptEnvironment.draft;
  variables = a.variables;
  change_note = a.change_note;
  created_at = now;
}

abbrev pub new_prompt : ℕ → ℕ → Str → Str → PromptModel
new_prompt id now name description = record {
  id = id;
  name = name;
  description = description;
  is_active = true;
  created_at = now;
}

-- `session.add` of a row and the insert at the next flush or commit.
unfoldable pub add_version : PromptVersionModel → Tx PromptDb (Unit {0})
unfolding version_conflict
add_version v = do
  rows ← gets (λ (db : PromptDb). db.versions)
  raise_if (version_conflict v.id v.prompt_id v.version rows) Exc.integrity_error
  modify (λ (db : PromptDb). record db { versions = db.versions ++ v ∷ [] })

unfoldable pub add_prompt : PromptModel → Tx PromptDb (Unit {0})
unfolding prompt_conflict
add_prompt p = do
  rows ← gets (λ (db : PromptDb). db.prompts)
  raise_if (prompt_conflict p.id p.name rows) Exc.integrity_error
  modify (λ (db : PromptDb). record db { prompts = db.prompts ++ p ∷ [] })

-- `create`: `id` and `vid` are the ids of the prompt and of its first version. The change note is
-- the default of the column.
unfoldable pub create : ℕ → ℕ → ℕ → Str → Str → Str → Dict Str Str → Tx PromptDb PromptDict
unfolding add_prompt add_version prompt_to_dict version_to_dict
create id vid now name description template variables = do
  let prompt = new_prompt id now name description
  add_prompt prompt
  let first =
      new_version vid now id 1
        (record { template = template; variables = variables; change_note = codes "" })
  add_version first
  pure (prompt_to_dict prompt (some first))

-- `select(func.max(version))`, and `or 0`
unfoldable pub max_version : List PromptVersionModel → ℕ
max_version [] = 0
max_version (v ∷ vs) = max v.version (max_version vs)

-- `create_version`
unfoldable pub create_version : ℕ → ℕ → Str → TemplateArgs → Tx PromptDb VersionDict
unfolding get_prompt_by_name max_version add_version version_to_dict
create_version vid now name a = do
  prompt ← get_prompt_by_name name
  rows ← gets (λ (db : PromptDb). db.versions)
  let version = new_version vid now prompt.id (max_version (versions_of prompt.id rows) + 1) a
  add_version version
  pure (version_to_dict version)

abbrev pub version_id_of : PromptVersionModel → ℕ
version_id_of v = v.id

abbrev pub moved_to : PromptEnvironment → PromptVersionModel → PromptVersionModel
moved_to env v = record v { environment = env }

-- `promote`
unfoldable pub promote : Str → ℕ → Str → Tx PromptDb VersionDict
unfolding no_such_version get_prompt_by_name version_to_dict
promote name version target_env = do
  prompt ← get_prompt_by_name name
  env ← lift (env_of target_env)
  rows ← gets (λ (db : PromptDb). db.versions)
  pv ← some_or (find_version prompt.id version rows) (no_such_version name version)
  modify (λ (db : PromptDb). record db {
    versions = update version_id_of pv.id (moved_to env) db.versions;
  })
  pure (version_to_dict (moved_to env pv))

-- `list_prompts`: the relationship `versions` is ordered by version descending.
unfoldable pub list_prompts : Tx PromptDb (List PromptDict)
unfolding prompt_to_dict version_to_dict
list_prompts = do
  prompts ← gets (λ (db : PromptDb). db.prompts)
  rows ← gets (λ (db : PromptDb). db.versions)
  pure (
      map (λ (p : PromptModel). prompt_to_dict p (latest (versions_of p.id rows)))
        (filter (λ (p : PromptModel). p.is_active) prompts))

-- `list_versions`
unfoldable pub list_versions : Str → Tx PromptDb (List VersionDict)
unfolding get_prompt_by_name version_to_dict
list_versions name = do
  prompt ← get_prompt_by_name name
  rows ← gets (λ (db : PromptDb). db.versions)
  pure (map version_to_dict (sort_desc leb version_of (versions_of prompt.id rows)))
