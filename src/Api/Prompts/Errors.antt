-- ===== src/Api/Prompts/Errors.antt =====
-- How the endpoints of the prompt manager fail.
use llmops_platform.Prelude.{
  ℕ, ◌≡◌, refl, sym, subst, ◌⊎◌, inl, inr, Str, Bool, codes, false, Option, none, some, true,
  Result, arith, is_empty, ◌==◌, string_eq, ok, err, Exc, Bool-cases, Option-cases, Result-cases,
  map, leb, nat_eq,
}
use llmops_platform.Prompts.Base.{PromptDb, env_of}
use llmops_platform.Prompts.Manager
use llmops_platform.Prompts.Manager.{
  TemplateArgs, max_int4, no_such_version, get_prompt_by_name, get_by, get_latest, get_numbered,
  get_in_env, versions_of, find_version, in_env, latest, version_of, version_to_dict, version_id_of,
  moved_to,
}
use llmops_platform.Prelude.Sort.{sort_desc}
use llmops_platform.Prelude.Table.{update}
use llmops_platform.Prompts.Manager.Versions.{find_prompt, id_taken, create_version_total}
use llmops_platform.Api.Status.{is_value_error, on_value_error}
use llmops_platform.Api.Answers.{Raises, Answers, answers_lem, RaisesOr, AnswersOr, answers_or_lem}
use llmops_platform.Api.Prompts.{get_prompt, list_versions, create_version, promote_prompt}

env_of-Raises : (s : Str) → Raises (env_of s)
unfolding env_of is_value_error
env_of-Raises s = elim (Bool-cases (s == codes "draft")) [
  | inl e ↦ rw e tt
  | inr e ↦ elim (Bool-cases (s == codes "staging")) [
    | inl f ↦ rw (e, f) tt
    | inr f ↦ elim (Bool-cases (s == codes "production")) [
      | inl g ↦ rw (e, f, g) tt
      | inr g ↦ rw (e, f, g) refl
    ]
  ]
]

-- A method that only reads: a result with the same tables, or a `ValueError`.
abbrev pub Reads : {A : Type 0} → PromptDb → Result (A × PromptDb) → Type 0
Reads db (ok (a, s)) = s ≡ db
Reads db (err e) = is_value_error e ≡ true

Reads-Raises : {A : Type 0} (db : PromptDb) (r : Result (A × PromptDb)) → Reads db r → Raises r
Reads-Raises db (ok (a, s)) h = tt
Reads-Raises db (err e) h = h

-- Whether the column of version numbers can hold the number, if one is given.
abbrev pub fits : Option ℕ → Bool
fits none = true
fits (some n) = leb n max_int4

abbrev pub ReadsOr : {A : Type 0} → Bool → PromptDb → Result (A × PromptDb) → Type 0
ReadsOr in_range db r = Reads db r ⊎ ((in_range ≡ false) × (r ≡ err Exc.data_error))

ReadsOr-RaisesOr :
    {A : Type 0} (in_range : Bool) (db : PromptDb) (r : Result (A × PromptDb))
    → ReadsOr in_range db r
    → RaisesOr in_range r
ReadsOr-RaisesOr in_range db r (inl h) = inl (Reads-Raises db r h)
ReadsOr-RaisesOr in_range db r (inr h) = inr h

get_in_env-Reads : (id : ℕ) (name s : Str) (db : PromptDb) → Reads db (get_in_env id name s db)
unfolding get_in_env is_value_error
get_in_env-Reads id name s db = elim (Result-cases (env_of s)) [
  | inl (x, e) ↦ rw e (rw e at (env_of-Raises s))
  | inr (env, e) ↦ elim (Option-cases (latest (in_env id env db.versions))) [
    | inl f ↦ rw (e, f) refl
    | inr (v, f) ↦ rw (e, f) refl
  ]
]

get_latest-Reads : (id : ℕ) (name : Str) (db : PromptDb) → Reads db (get_latest id name db)
unfolding get_latest is_value_error
get_latest-Reads id name db = elim (Option-cases (latest (versions_of id db.versions))) [
  | inl f ↦ rw f refl
  | inr (v, f) ↦ rw f refl
]

get_by-Reads :
    (id : ℕ) (name : Str) (version : Option ℕ) (env : Option Str) (db : PromptDb)
    → ReadsOr (fits version) db (get_by id name version env db)
unfolding get_by get_numbered no_such_version is_value_error
get_by-Reads id name (some n) env db = elim (Option-cases (find_version id n db.versions)) [
  | inl f ↦ elim (Bool-cases (leb n max_int4)) [
    | inl small ↦ inl (rw (f, small) refl)
    | inr big ↦ inr (big, rw (f, big) refl)
  ]
  | inr (v, f) ↦ inl (rw f refl)
]
get_by-Reads id name none none db = inl (get_latest-Reads id name db)
get_by-Reads id name none (some s) db = elim (Bool-cases (is_empty s)) [
  | inl e ↦ inl (rw e (get_latest-Reads id name db))
  | inr e ↦ inl (rw e (get_in_env-Reads id name s db))
]

pub get-Reads :
    (name : Str) (version : Option ℕ) (env : Option Str) (db : PromptDb)
    → ReadsOr (fits version) db (Manager.get name version env db)
unfolding Manager.get get_prompt_by_name is_value_error
get-Reads name version env db = elim (Option-cases (find_prompt name db.prompts)) [
  | inl e ↦
      let missing : Manager.get name version env db ≡ err (Exc.prompt_not_found name) =
        ground arith in
      inl (subst (Reads db) (sym missing) refl)
  | inr (p, e) ↦
      let found : Manager.get name version env db ≡ get_by p.id name version env db =
        ground arith in
      subst (ReadsOr (fits version) db) (sym found) (get_by-Reads p.id name version env db)
]

list_versions-Raises : (name : Str) (db : PromptDb) → Raises (Manager.list_versions name db)
unfolding Manager.list_versions get_prompt_by_name is_value_error
list_versions-Raises name db = elim (Option-cases (find_prompt name db.prompts)) [
  | inl e ↦
      let missing : Manager.list_versions name db ≡ err (Exc.prompt_not_found name) =
        ground arith in
      subst Raises (sym missing) refl
  | inr (p, e) ↦
      let rows = sort_desc leb version_of (versions_of p.id db.versions) in
      let found : Manager.list_versions name db ≡ ok (map version_to_dict rows, db) =
        ground arith in
      subst Raises (sym found) tt
]

promote-Raises :
    (name : Str) (n : ℕ) (s : Str) (db : PromptDb)
    → RaisesOr (leb n max_int4) (Manager.promote name n s db)
unfolding Manager.promote no_such_version get_prompt_by_name is_value_error
promote-Raises name n s db = elim (Option-cases (find_prompt name db.prompts)) [
  | inl e ↦
      let missing : Manager.promote name n s db ≡ err (Exc.prompt_not_found name) = ground arith in
      inl (subst Raises (sym missing) refl)
  | inr (p, e) ↦ elim (Result-cases (env_of s)) [
    | inl (x, f) ↦
        let bad : Manager.promote name n s db ≡ err x = ground arith in
        inl (subst Raises (sym bad) (rw f at (env_of-Raises s)))
    | inr (env, f) ↦ elim (Option-cases (find_version p.id n db.versions)) [
      | inl g ↦ elim (Bool-cases (leb n max_int4)) [
        | inl small ↦
            let missing : Manager.promote name n s db ≡ err (Exc.version_not_found name n) =
              ground arith in
            inl (subst Raises (sym missing) refl)
        | inr big ↦
            let refused : Manager.promote name n s db ≡ err Exc.data_error = ground arith in
            inr (big, refused)
      ]
      | inr (v, g) ↦
          let moved : PromptDb = record db {
            versions = update version_id_of v.id (moved_to env) db.versions;
          } in
          let done : Manager.promote name n s db ≡ ok (version_to_dict (moved_to env v), moved) =
            ground arith in
          inl (subst Raises (sym done) tt)
    ]
  ]
]

create_version-Raises :
    (vid now : ℕ) (name : Str) (a : TemplateArgs) (db : PromptDb)
    → id_taken vid db.versions ≡ false
    → Raises (Manager.create_version vid now name a db)
unfolding Manager.create_version get_prompt_by_name is_value_error
create_version-Raises vid now name a db free = elim (Option-cases (find_prompt name db.prompts)) [
  | inl e ↦
      let missing : Manager.create_version vid now name a db ≡ err (Exc.prompt_not_found name) =
        ground arith in
      subst Raises (sym missing) refl
  | inr (p, e) ↦ subst Raises (sym (create_version_total vid now name a db p e free)) tt
]

-- The endpoints that read, promote or add a version answer with a result or with their own status,
-- 404 or 400, for an error that the manager raises on purpose. Only a version number that is beyond
-- the range of its column, to `get` or to `promote`, may come out as an internal error. For a new
-- version its drawn id is assumed to be free. Left out of the model are texts with the NUL character
-- or a lone surrogate, which the driver refuses, prompts with more versions than the column can
-- number, and other sessions that write at the same time.
pub endpoints-Answers :
    (name : Str) (version : Option ℕ) (env : Option Str) (n : ℕ) (target_env : Str) (vid now : ℕ)
    (a : TemplateArgs) (db : PromptDb)
    → id_taken vid db.versions ≡ false
    → AnswersOr (fits version) 404 (get_prompt name version env db)
      × Answers 404 (list_versions name db)
      × AnswersOr (leb n max_int4) 400 (promote_prompt name n target_env db)
      × Answers 404 (create_version vid now name a db)
unfolding get_prompt list_versions promote_prompt create_version on_value_error
endpoints-Answers name version env n target_env vid now a db free = (
  answers_or_lem (fits version) 404 (Manager.get name version env db) (
      ReadsOr-RaisesOr (fits version) db (Manager.get name version env db)
        (get-Reads name version env db)),
  answers_lem 404 (Manager.list_versions name db) (list_versions-Raises name db),
  answers_or_lem (leb n max_int4) 400 (Manager.promote name n target_env db)
      (promote-Raises name n target_env db),
  answers_lem 404 (Manager.create_version vid now name a db)
      (create_version-Raises vid now name a db free),
)
