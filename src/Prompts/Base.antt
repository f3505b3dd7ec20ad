-- ===== src/Prompts/Base.antt =====
-- db/models/prompt.py: the two tables, and the constraints that they declare.
use llmops_platform.Prelude.{
  ℕ, Str, codes, Bool, true, false, ◌&&◌, ◌||◌, List, ◌==◌, nat_eq, string_eq, if◌then◌else◌, any,
  Result, ok, err, Exc,
}
use llmops_platform.Prelude.Dict.{Dict}

-- `class PromptEnvironment`
pub data PromptEnvironment : Type 0 where
  draft staging production : PromptEnvironment

unfoldable pub env_value : PromptEnvironment → Str
env_value PromptEnvironment.draft = codes "draft"
env_value PromptEnvironment.staging = codes "staging"
env_value PromptEnvironment.production = codes "production"

-- `PromptEnvironment(text)`, which raises a `ValueError` for any other text.
unfoldable pub env_of : Str → Result PromptEnvironment
env_of s =
    if s == codes "draft"
    then ok PromptEnvironment.draft
    else if s == codes "staging"
    then ok PromptEnvironment.staging
    else if s == codes "production"
    then ok PromptEnvironment.production
    else err (Exc.bad_enum s)

abbrev pub same_env : PromptEnvironment → PromptEnvironment → Bool
same_env PromptEnvironment.draft PromptEnvironment.draft = true
same_env PromptEnvironment.staging PromptEnvironment.staging = true
same_env PromptEnvironment.production PromptEnvironment.production = true
same_env _ _ = false

-- A row of `prompts`; the name is unique.
pub record PromptModel : Type 0 where
  pub id : ℕ
  pub name : Str
  pub description : Str
  pub is_active : Bool
  pub created_at : ℕ

-- A row of `prompt_versions`; the pair of prompt and version is unique.
pub record PromptVersionModel : Type 0 where
  pub id : ℕ
  pub prompt_id : ℕ
  pub version : ℕ
  pub template : Str
  pub environment : PromptEnvironment
  pub variables : Dict Str Str
  pub change_note : Str
  pub created_at : ℕ

pub record PromptDb : Type 0 where
  pub prompts : List PromptModel
  pub versions : List PromptVersionModel

-- What an insert into each table is refused for.
unfoldable pub prompt_conflict : ℕ → Str → List PromptModel → Bool
prompt_conflict id name rows = any (λ (p : PromptModel). p.id == id || p.name == name) rows

unfoldable pub version_conflict : ℕ → ℕ → ℕ → List PromptVersionModel → Bool
version_conflict id prompt_id version rows =
    any
      (λ (v : PromptVersionModel). v.id == id || (v.prompt_id == prompt_id && v.version == version))
      rows
