-- ===== src/Prompts/Store/Serving.antt =====
-- What `PromptManager.get` of core/prompts/manager.py serves, as the abstract store says it.
use llmops_platform.Prelude.{
  ℕ, ◌≡◌, refl, sym, ap, ◌∙◌, inl, inr, Str, Bool, none, some, List, [], ◌∷◌, map, arith, nat_eq,
  string_eq, filter, Bool-cases, Option-cases, Option, Result-cases, ok, err, Result, Exc, is_empty,
}
use llmops_platform.Prelude.Dict.{Dict}
use llmops_platform.Prompts.Base.{
  PromptEnvironment, PromptVersionModel, PromptDb, env_of, env_value, same_env,
}
use llmops_platform.Prompts.Manager.{
  VersionDict, get, get_by, get_latest, get_numbered, get_in_env, versions_of, find_version, in_env,
  latest, version_to_dict,
}
use llmops_platform.Prompts.Manager.History.{Op, run, run_all}
use llmops_platform.Prompts.Manager.Versions.{find_prompt}
use llmops_platform.Prompts.Manager.Gaps.{empty_db}
use llmops_platform.Prompts.Store.{Store, Entry, step, step_all, entry_for, get_in, last?}
use llmops_platform.Prompts.Store.Numbered.{
  IsNumbered, find_version-versions_of, in_env-versions_of,
}
use llmops_platform.Prompts.Store.Rows.{
  entry_of, map_entry, find-map_entry, filter-map_entry, last?-map_entry,
}
use llmops_platform.Prompts.Store.Newest.{IsNumbered-IsAscending, filter-IsAscending, latest-last?}
use llmops_platform.Prompts.Store.View.{view, IsSound, view-found, view-missing}
use llmops_platform.Prompts.Store.Refinement.{AreFresh, run-Refines}

-- What a caller sees of a version, but for its ids and its time.
pub record Served : Type 0 where
  pub version : ℕ
  pub template : Str
  pub variables : Dict Str Str
  pub change_note : Str
  pub environment : Str

abbrev pub shown : Option Entry → Option Served
shown none = none
shown (some e) = some (record {
  version = e.number;
  template = e.template;
  variables = e.variables;
  change_note = e.change_note;
  environment = env_value e.environment;
})

abbrev pub served : Result (VersionDict × PromptDb) → Option Served
served (err e) = none
served (ok (v, db)) = some (record {
  version = v.version;
  template = v.template;
  variables = v.variables;
  change_note = v.change_note;
  environment = v.environment;
})

latest-entry :
    (rows : List PromptVersionModel)
    → IsNumbered 0 rows
    → map_entry (latest rows) ≡ last? (map entry_of rows)
latest-entry rows num =
    ap map_entry (latest-last? rows (IsNumbered-IsAscending 0 rows num))
    ∙ sym (last?-map_entry rows)

get_latest-entry :
    (id : ℕ) (name : Str) (db : PromptDb)
    → served (get_latest id name db) ≡ shown (map_entry (latest (versions_of id db.versions)))
unfolding get_latest version_to_dict
get_latest-entry id name db = elim (Option-cases (latest (versions_of id db.versions))) [
  | inl e ↦ rw (get_latest, e) refl
  | inr (v, e) ↦ rw (get_latest, e) refl
]

get_numbered-entry :
    (id n : ℕ) (name : Str) (db : PromptDb)
    → served (get_numbered id name n db) ≡ shown (map_entry (find_version id n db.versions))
unfolding get_numbered version_to_dict
get_numbered-entry id n name db = elim (Option-cases (find_version id n db.versions)) [
  | inl e ↦ rw (get_numbered, e) refl
  | inr (v, e) ↦ rw (get_numbered, e) refl
]

newest_in :
    (id : ℕ) (env : PromptEnvironment) (db : PromptDb)
    → IsNumbered 0 (versions_of id db.versions)
    → map_entry (latest (in_env id env db.versions))
      ≡ last? (
          filter
            (λ (e : Entry). same_env e.environment env)
            (map entry_of (versions_of id db.versions)))
newest_in id env db num =
    let test : PromptVersionModel → Bool = λ v. same_env v.environment env in
    let vs = versions_of id db.versions in
    ap (λ rows. map_entry (latest rows)) (in_env-versions_of id env db.versions)
    ∙ ap map_entry (
        latest-last? (filter test vs)
          (filter-IsAscending test vs (IsNumbered-IsAscending 0 vs num)))
    ∙ sym (last?-map_entry (filter test vs))
    ∙ ap last? (sym (filter-map_entry env vs))

get_in_env-entry :
    (id : ℕ) (name s : Str) (env : PromptEnvironment) (db : PromptDb)
    → env_of s ≡ ok env
    → served (get_in_env id name s db) ≡ shown (map_entry (latest (in_env id env db.versions)))
unfolding get_in_env version_to_dict
get_in_env-entry id name s env db good = elim (Option-cases (latest (in_env id env db.versions))) [
  | inl e ↦ rw (get_in_env, good, e) refl
  | inr (v, e) ↦ rw (get_in_env, good, e) refl
]

-- The environment that a text names, if it names one.
abbrev newest_of : Str → List Entry → Option Entry
newest_of s entries = elim (env_of s) [
  | err x ↦ none
  | ok env ↦ last? (filter (λ (e : Entry). same_env e.environment env) entries)
]

no_env-entry :
    (id : ℕ) (name s : Str) (x : Exc) (db : PromptDb)
    → env_of s ≡ err x
    → served (get_in_env id name s db) ≡ none
unfolding get_in_env
no_env-entry id name s x db bad = rw (get_in_env, bad) refl

get_in_env-entry_for :
    (id : ℕ) (name s : Str) (db : PromptDb)
    → IsNumbered 0 (versions_of id db.versions)
    → served (get_in_env id name s db)
      ≡ shown (newest_of s (map entry_of (versions_of id db.versions)))
get_in_env-entry_for id name s db num = elim (Result-cases (env_of s)) [
  | inl (x, bad) ↦ no_env-entry id name s x db bad ∙ rw (shown, newest_of, bad) refl
  | inr (env, good) ↦
      get_in_env-entry id name s env db good
      ∙ ap shown (newest_in id env db num)
      ∙ rw (shown, newest_of, good) refl
]

get_by-entry :
    (id : ℕ) (name : Str) (version : Option ℕ) (env : Option Str) (db : PromptDb)
    → IsNumbered 0 (versions_of id db.versions)
    → served (get_by id name version env db)
      ≡ shown (entry_for version env (map entry_of (versions_of id db.versions)))
unfolding get_by entry_for
get_by-entry id name (some n) env db num =
    get_numbered-entry id n name db
    ∙ ap (λ o. shown (map_entry o)) (find_version-versions_of id n db.versions)
    ∙ ap shown (sym (find-map_entry n (versions_of id db.versions)))
get_by-entry id name none none db num =
    get_latest-entry id name db ∙ ap shown (latest-entry (versions_of id db.versions) num)
get_by-entry id name none (some s) db num = elim (Bool-cases (is_empty s)) [
  | inl e ↦
      rw e (get_latest-entry id name db ∙ ap shown (latest-entry (versions_of id db.versions) num))
  | inr e ↦ rw e (get_in_env-entry_for id name s db num)
]

get-entry :
    (name : Str) (version : Option ℕ) (env : Option Str) (db : PromptDb)
    → IsSound db
    → served (get name version env db) ≡ shown (get_in name version env (view db))
unfolding get get_in
get-entry name version env db (ref, ids, num, own) =
    elim (Option-cases (find_prompt name db.prompts)) [
      | inl missing ↦
          let nothing : served (get name version env db) ≡ none = ground arith in
          nothing ∙ rw (get_in, view-missing name db missing) refl
      | inr (p, found) ↦
          let by : get name version env db ≡ get_by p.id name version env db = ground arith in
          rw (get_in, view-found name db p found, by)
            (get_by-entry p.id name version env db (num p.id))
    ]

run_all-step_all :
    (ops : List Op) (db : PromptDb)
    → IsSound db
    → AreFresh ops db
    → IsSound (run_all ops db) × (view (run_all ops db) ≡ step_all ops (view db))
unfolding run_all step_all
run_all-step_all [] db sound fresh = (sound, refl)
run_all-step_all (op ∷ ops) db sound fresh =
    let (sound', same) = run-Refines op db sound fresh.0 in
    let (done, eq) = run_all-step_all ops (run op db) sound' fresh.1 in
    let one : view (run op db) ≡ step op (view db) = λ i. λ m. same m i in
    (done, eq ∙ ap (step_all ops) one)

abbrev pub empty_store : Store
empty_store m = none

-- `PromptManager` implements the abstract store, which for each name has only its versions in order:
-- after any calls of `create`, `create_version` and `promote`, refused ones included, `get` with any
-- number and any environment serves the version that the same calls put there in the store, with its
-- number, template, variables, note and environment, and it raises exactly where the store has none.
-- The ids that are drawn are assumed to be in use by no other row.
pub run_all-get :
    (ops : List Op) (name : Str) (version : Option ℕ) (env : Option Str)
    → AreFresh ops empty_db
    → served (get name version env (run_all ops empty_db))
      ≡ shown (get_in name version env (step_all ops empty_store))
unfolding view
run_all-get ops name version env fresh =
    let empty-IsSound : IsSound empty_db = (tt, tt, λ pid. tt, λ m n p q f g e. absurd (cc)) in
    let (sound, same) = run_all-step_all ops empty_db empty-IsSound fresh in
    get-entry name version env (run_all ops empty_db) sound
    ∙ ap (λ s. shown (get_in name version env s)) same
