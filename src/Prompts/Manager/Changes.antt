-- ===== src/Prompts/Manager/Changes.antt =====
-- What a call of `PromptManager` does to the tables.
use llmops_platform.Prelude.{
  ℕ, ◌+◌, ◌≡◌, refl, ◌⊎◌, inl, inr, Str, false, some, [], ◌∷◌, ◌++◌, arith, nat_eq, string_eq,
  Option-cases, Bool-cases, Result-cases, codes,
}
use llmops_platform.Prelude.Table.{update}
use llmops_platform.Prompts.Base.{
  PromptEnvironment, PromptModel, PromptVersionModel, PromptDb, env_of, version_conflict,
  prompt_conflict,
}
use llmops_platform.Prompts.Manager.{
  create, create_version, promote, find_version, versions_of, max_version, new_version, new_prompt,
  version_id_of, moved_to,
}
use llmops_platform.Prompts.Manager.History.{Op, create_op, create_version_op, promote_op, run}
use llmops_platform.Prompts.Manager.Versions.{find_prompt}

-- A prompt with its first version, a version with the next number, a version moved.
abbrev pub Created : PromptDb → PromptDb → Type 0
Created db db' =
    (p : PromptModel) × (v : PromptVersionModel) × (prompt_conflict p.id p.name db.prompts ≡ false)
    × (v.prompt_id ≡ p.id)
    × (v.version ≡ 1)
    × (db' ≡ record { prompts = db.prompts ++ p ∷ []; versions = db.versions ++ v ∷ [] })

abbrev pub Added : PromptDb → PromptDb → Type 0
Added db db' =
    (p : PromptModel) × (v : PromptVersionModel) × (name : Str) × (find_prompt name db.prompts
      ≡ some p)
    × (v.prompt_id ≡ p.id)
    × (v.version ≡ max_version (versions_of p.id db.versions) + 1)
    × (db' ≡ record db { versions = db.versions ++ v ∷ [] })

abbrev pub Moved : PromptDb → PromptDb → Type 0
Moved db db' =
    (id : ℕ) × (env : PromptEnvironment) × (db'
      ≡ record db { versions = update version_id_of id (moved_to env) db.versions })

abbrev pub Change : PromptDb → PromptDb → Type 0
Change db db' = (db' ≡ db) ⊎ (Created db db' ⊎ (Added db db' ⊎ Moved db db'))

-- A call changes nothing, or makes one of the three changes.
pub run-Change : (op : Op) (db : PromptDb) → Change db (run op db)
unfolding run create create_version promote
run-Change (create_op id vid now name description template variables) db =
    elim (Bool-cases (prompt_conflict id name db.prompts)) [
      | inl refused ↦ inl (ground arith)
      | inr free ↦ elim (Bool-cases (version_conflict vid id 1 db.versions)) [
        | inl refused ↦ inl (ground arith)
        | inr fresh ↦ inr (
            inl (
              new_prompt id now name description,
              new_version vid now id 1
                  (record { template = template; variables = variables; change_note = codes "" }),
              free,
              refl,
              refl,
              ground arith,
            ))
      ]
    ]
run-Change (create_version_op vid now name a) db =
    elim (Option-cases (find_prompt name db.prompts)) [
      | inl missing ↦ inl (ground arith)
      | inr (p, found) ↦
          let n = max_version (versions_of p.id db.versions) + 1 in
          elim (Bool-cases (version_conflict vid p.id n db.versions)) [
            | inl refused ↦ inl (ground arith)
            | inr fresh ↦
                inr (
                  inr
                    (inl (p, new_version vid now p.id n a, name, found, refl, refl, ground arith)))
          ]
    ]
run-Change (promote_op name version target_env) db =
    elim (Option-cases (find_prompt name db.prompts)) [
      | inl missing ↦ inl (ground arith)
      | inr (p, found) ↦ elim (Result-cases (env_of target_env)) [
        | inl (e, bad) ↦ inl (ground arith)
        | inr (env, good) ↦ elim (Option-cases (find_version p.id version db.versions)) [
          | inl missing ↦ inl (ground arith)
          | inr (pv, there) ↦ inr (inr (inr (pv.id, env, ground arith)))
        ]
      ]
    ]
