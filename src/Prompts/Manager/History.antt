-- ===== src/Prompts/Manager/History.antt =====
-- Versions are immutable: whatever is called, a version that exists stays, and nothing of it but
-- its environment changes.
use llmops_platform.Prelude.{
  ℕ, ◌≡◌, refl, ◌⊎◌, inl, inr, Str, Bool, ◌&&◌, some, List, [], ◌∷◌, ◌++◌, arith, ◌==◌, nat_eq,
  string_eq, find, find-append, Option-cases, Bool-cases, Result-cases, codes, ◌+◌,
}
use llmops_platform.Prelude.Dict.{Dict}
use llmops_platform.Prelude.Table.{find-update, update}
use llmops_platform.Prelude.Tx.{after}
use llmops_platform.Prompts.Base.{
  PromptEnvironment, PromptModel, PromptVersionModel, PromptDb, env_of, version_conflict,
  prompt_conflict,
}
use llmops_platform.Prompts.Manager.{
  TemplateArgs, create, create_version, promote, find_version, version_id_of, moved_to, new_version,
  versions_of, max_version,
}

-- A call of a method that writes.
pub data Op : Type 0 where
  create_op : ℕ → ℕ → ℕ → Str → Str → Str → Dict Str Str → Op
  create_version_op : ℕ → ℕ → Str → TemplateArgs → Op
  promote_op : Str → ℕ → Str → Op

unfoldable pub run : Op → PromptDb → PromptDb
run (create_op id vid now name description template variables) =
    after (create id vid now name description template variables)
run (create_version_op vid now name a) = after (create_version vid now name a)
run (promote_op name version target_env) = after (promote name version target_env)

unfoldable pub run_all : List Op → PromptDb → PromptDb
run_all [] db = db
run_all (op ∷ ops) db = run_all ops (run op db)

-- What a call did to the rows of versions.
abbrev Effect : List PromptVersionModel → List PromptVersionModel → Type 0
Effect rows rows' =
    (rows' ≡ rows)
    ⊎ (((v : PromptVersionModel) × (rows' ≡ rows ++ v ∷ []))
        ⊎ ((id : ℕ) × (env : PromptEnvironment) × (rows'
              ≡ update version_id_of id (moved_to env) rows)))

create-Effect :
    (id vid now : ℕ) (name description template : Str) (variables : Dict Str Str) (db : PromptDb)
    → Effect db.versions (after (create id vid now name description template variables) db).versions
unfolding create
create-Effect id vid now name description template variables db =
    elim (Bool-cases (prompt_conflict id name db.prompts)) [
      | inl refused ↦ inl (ground arith)
      | inr free ↦ elim (Bool-cases (version_conflict vid id 1 db.versions)) [
        | inl refused ↦ inl (ground arith)
        | inr fresh ↦ inr (
            inl (
              new_version vid now id 1
                  (record { template = template; variables = variables; change_note = codes "" }),
              ground arith,
            ))
      ]
    ]

create_version-Effect :
    (vid now : ℕ) (name : Str) (a : TemplateArgs) (db : PromptDb)
    → Effect db.versions (after (create_version vid now name a) db).versions
unfolding create_version
create_version-Effect vid now name a db =
    elim (Option-cases (find (λ (p : PromptModel). p.name == name) db.prompts)) [
      | inl missing ↦ inl (ground arith)
      | inr (p, found) ↦
          let n = max_version (versions_of p.id db.versions) + 1 in
          elim (Bool-cases (version_conflict vid p.id n db.versions)) [
            | inl refused ↦ inl (ground arith)
            | inr fresh ↦ inr (inl (new_version vid now p.id n a, ground arith))
          ]
    ]

promote-Effect :
    (name : Str) (version : ℕ) (target_env : Str) (db : PromptDb)
    → Effect db.versions (after (promote name version target_env) db).versions
unfolding promote
promote-Effect name version target_env db =
    elim (Option-cases (find (λ (p : PromptModel). p.name == name) db.prompts)) [
      | inl missing ↦ inl (ground arith)
      | inr (p, found) ↦ elim (Result-cases (env_of target_env)) [
        | inl (e, bad) ↦ inl (ground arith)
        | inr (env, good) ↦ elim (Option-cases (find_version p.id version db.versions)) [
          | inl missing ↦ inl (ground arith)
          | inr (pv, there) ↦ inr (inr (pv.id, env, ground arith))
        ]
      ]
    ]

run-Effect : (op : Op) (db : PromptDb) → Effect db.versions (run op db).versions
unfolding run
run-Effect (create_op id vid now name description template variables) db =
    create-Effect id vid now name description template variables db
run-Effect (create_version_op vid now name a) db = create_version-Effect vid now name a db
run-Effect (promote_op name version target_env) db = promote-Effect name version target_env db

-- All that a version holds but its environment.
abbrev pub SameContent : PromptVersionModel → PromptVersionModel → Type 0
SameContent v w =
    (w.id ≡ v.id)
    × (w.prompt_id ≡ v.prompt_id)
    × (w.version ≡ v.version)
    × (w.template ≡ v.template)
    × (w.variables ≡ v.variables)
    × (w.change_note ≡ v.change_note)
    × (w.created_at ≡ v.created_at)

Effect-SameContent :
    (rows rows' : List PromptVersionModel) (pid n : ℕ) (v : PromptVersionModel)
    → Effect rows rows'
    → find_version pid n rows ≡ some v
    → (w : PromptVersionModel) × (find_version pid n rows' ≡ some w) × SameContent v w
Effect-SameContent rows rows' pid n v (inl e) h =
    (v, rw e h, (refl, refl, refl, refl, refl, refl, refl))
Effect-SameContent rows rows' pid n v (inr (inl (u, e))) h =
    (v, rw (e, find-append) (rw h), (refl, refl, refl, refl, refl, refl, refl))
Effect-SameContent rows rows' pid n v (inr (inr (id, env, e))) h =
    let test : PromptVersionModel → Bool = λ r. r.prompt_id == pid && r.version == n in
    let (w, found, which) = find-update version_id_of test id (moved_to env) rows v (λ r. refl) h in
    (w, rw e found, ground arith)

-- Whatever calls are made, a version that exists is still found under its prompt and its number,
-- with the same id, template, variables, note and time: only its environment may have changed.
pub versions_immutable :
    (ops : List Op) (db : PromptDb) (pid n : ℕ) (v : PromptVersionModel)
    → find_version pid n db.versions ≡ some v
    → (w : PromptVersionModel) × (find_version pid n (run_all ops db).versions ≡ some w)
      × SameContent v w
unfolding run_all
versions_immutable [] db pid n v h = (v, h, (refl, refl, refl, refl, refl, refl, refl))
versions_immutable (op ∷ ops) db pid n v h =
    let (w, found, same) =
      Effect-SameContent db.versions (run op db).versions pid n v (run-Effect op db) h in
    let (u, found', same') = versions_immutable ops (run op db) pid n w found in
    (u, found', ground arith)
