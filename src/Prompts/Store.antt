-- ===== src/Prompts/Store.antt =====
-- core/prompts/base.py: what `PromptStore` stands for, as an abstract store, a function from the names to
-- lists of versions. It knows no ids, no times and no rows.
pub mod Numbered
pub mod Rows
pub mod Newest
pub mod Names
pub mod View
pub mod Refinement
pub mod Serving
use llmops_platform.Prelude.{
  ℕ, ◌+◌, Str, codes, Option, none, some, List, [], ◌∷◌, ◌++◌, map, ok, err, ◌==◌, nat_eq,
  string_eq, if◌then◌else◌, find, filter, length, is_empty,
}
use llmops_platform.Prelude.Dict.{Dict}
use llmops_platform.Prompts.Base.{PromptEnvironment, draft, env_of, same_env}
use llmops_platform.Prompts.Manager.{TemplateArgs}
use llmops_platform.Prompts.Manager.History.{Op, create_op, create_version_op, promote_op}

pub record Entry : Type 0 where
  pub number : ℕ
  pub template : Str
  pub variables : Dict Str Str
  pub change_note : Str
  pub environment : PromptEnvironment

abbrev pub Store : Type 0
Store = Str → Option (List Entry)

abbrev pub put : Str → List Entry → Store → Store
put name entries s m = if m == name then some entries else s m

abbrev pub new_entry : ℕ → TemplateArgs → Entry
new_entry n a = record {
  number = n;
  template = a.template;
  variables = a.variables;
  change_note = a.change_note;
  environment = draft;
}

abbrev pub moved_if : ℕ → PromptEnvironment → Entry → Entry
moved_if n env e = if e.number == n then record e { environment = env } else e

-- `create`, `create_version` and `promote` on the abstract store. A name that is in use or not
-- known, and an environment that does not exist, leave it as it is.
unfoldable pub create_in : Str → TemplateArgs → Store → Store
create_in name a s = elim (s name) [ none ↦ put name (new_entry 1 a ∷ []) s | some entries ↦ s ]

unfoldable pub create_version_in : Str → TemplateArgs → Store → Store
create_version_in name a s = elim (s name) [
  | none ↦ s
  | some entries ↦ put name (entries ++ new_entry (length entries + 1) a ∷ []) s
]

unfoldable pub promote_in : Str → ℕ → Str → Store → Store
promote_in name n target_env s = elim (env_of target_env) [
  | err e ↦ s
  | ok env ↦ (elim (s name) [ none ↦ s | some entries ↦ put name (map (moved_if n env) entries) s ])
]

unfoldable pub step : Op → Store → Store
unfolding create_in create_version_in promote_in
step (create_op id vid now name description template variables) =
    create_in name (record { template = template; variables = variables; change_note = codes "" })
step (create_version_op vid now name a) = create_version_in name a
step (promote_op name n target_env) = promote_in name n target_env

unfoldable pub step_all : List Op → Store → Store
step_all [] s = s
step_all (op ∷ ops) s = step_all ops (step op s)

abbrev pub last? {ℓ} : {A : Type ℓ} → List A → Option A
last? [] = none
last? (x ∷ []) = some x
last? (x ∷ y ∷ ys) = last? (y ∷ ys)

-- `get`: the version with the number, else the newest one of the environment, else the newest one
unfoldable pub entry_for : Option ℕ → Option Str → List Entry → Option Entry
entry_for (some n) env entries = find (λ (e : Entry). e.number == n) entries
entry_for none none entries = last? entries
entry_for none (some name) entries = if is_empty name then last? entries else elim (env_of name) [
  | err x ↦ none
  | ok env ↦ last? (filter (λ (e : Entry). same_env e.environment env) entries)
]

unfoldable pub get_in : Str → Option ℕ → Option Str → Store → Option Entry
unfolding entry_for
get_in name version env s = elim (s name) [
  | none ↦ none
  | some entries ↦ entry_for version env entries
]
