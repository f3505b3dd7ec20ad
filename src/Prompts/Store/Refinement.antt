-- ===== src/Prompts/Store/Refinement.antt =====
-- `PromptManager` of core/prompts/manager.py as an implementation of the abstract store.
use llmops_platform.Prelude.{
  ℕ, ◌+◌, ◌≡◌, refl, sym, ap, ◌∙◌, inl, inr, Str, codes, true, false, none, some, List, [], ◌∷◌,
  ◌++◌, map, arith, ◌==◌, nat_eq, string_eq, eq_iff, All-append, All-map, Bool-cases, Option-cases,
  Result-cases, length,
}
use llmops_platform.Prelude.Dict.{Dict}
use llmops_platform.Prelude.Table.{update}
use llmops_platform.Prelude.Tx.{after, after-ok}
use llmops_platform.Prompts.Base.{
  PromptEnvironment, PromptVersionModel, PromptDb, env_of, version_conflict,
}
use llmops_platform.Prompts.Manager.{
  TemplateArgs, create, create_version, promote, versions_of, find_version, new_version, new_prompt,
  version_id_of, moved_to, max_version, version_to_dict,
}
use llmops_platform.Prompts.Manager.History.{Op, create_op, create_version_op, promote_op, run}
use llmops_platform.Prompts.Manager.Versions.{
  find_prompt, id_taken, next_version, no_conflict, create_version_total,
}
use llmops_platform.Prompts.Manager.Gaps.{
  has_prompt, has_prompt-find, has_prompt-append, has_prompt-last, update-IsReferenced,
}
use llmops_platform.Prompts.Store.{
  Store, Entry, create_in, create_version_in, promote_in, step, put,
}
use llmops_platform.Prompts.Store.Rows.{entry_of, moved_if-absent}
use llmops_platform.Prompts.Store.Numbered.{
  IsNumbered, append-HasDistinctIds, update-HasDistinctIds, append-IsNumbered, update-IsNumbered,
  max_version-length, versions_of-update, find_version-versions_of,
}
use llmops_platform.Prompts.Store.View.{
  view, IsSound, created, with_rows, view-created, view-added, view-moved, view-found, view-missing,
  promote_in-found,
}
use llmops_platform.Prompts.Store.Names.{
  append-HasOwnIds, name_conflict, no_prompt_conflict, versions_of-append_other,
  versions_of-append_own, versions_of-new,
}

-- The ids that a call draws are in use by no row.
abbrev pub IsFresh : Op → PromptDb → Type 0
IsFresh (create_op id vid now name description template variables) db =
    (has_prompt id db.prompts ≡ false) × (id_taken vid db.versions ≡ false)
IsFresh (create_version_op vid now name a) db = id_taken vid db.versions ≡ false
IsFresh (promote_op name n target_env) db = Unit

abbrev pub AreFresh : List Op → PromptDb → Type 0
AreFresh [] db = Unit
AreFresh (op ∷ ops) db = IsFresh op db × AreFresh ops (run op db)

-- The tables stay sound, and the call does to their view what the store does.
abbrev pub Refines : PromptDb → Store → PromptDb → Type 0
Refines db s db' = IsSound db' × ((m : Str) → view db' m ≡ s m)

added-IsNumbered :
    (pid : ℕ) (rows : List PromptVersionModel) (v : PromptVersionModel)
    → v.version ≡ length (versions_of v.prompt_id rows) + 1
    → IsNumbered 0 (versions_of pid rows)
    → IsNumbered 0 (versions_of pid (rows ++ v ∷ []))
added-IsNumbered pid rows v num h = elim (Bool-cases (v.prompt_id == pid)) [
  | inl own ↦
      let same : v.prompt_id ≡ pid = ground arith in
      rw (versions_of-append_own pid rows v own)
        (append-IsNumbered 0 (versions_of pid rows) v (rw (← same) (omega (arith, num))) h)
  | inr other ↦ rw (versions_of-append_other pid rows v other) h
]

create-Refines :
    (id vid now : ℕ) (name description template : Str) (variables : Dict Str Str) (db : PromptDb)
    → IsSound db
    → has_prompt id db.prompts ≡ false
    → id_taken vid db.versions ≡ false
    → Refines db
        (create_in name
          (record { template = template; variables = variables; change_note = codes "" })
          (view db))
        (after (create id vid now name description template variables) db)
unfolding create create_in max_version
create-Refines id vid now name description template variables db sound fresh free =
    let (ref, ids, num, own) = sound in
    let a : TemplateArgs = record {
      template = template;
      variables = variables;
      change_note = codes "";
    } in
    let p = new_prompt id now name description in
    let v = new_version vid now id 1 a in
    elim (Option-cases (find_prompt name db.prompts)) [
      | inr (q, found) ↦
          let taken = name_conflict id name db.prompts q found in
          let same : after (create id vid now name description template variables) db ≡ db =
            ground arith in
          rw (same, create_in, view-found name db q found) (sound, λ m. refl)
      | inl missing ↦
          let none_yet = versions_of-new id db.prompts db.versions fresh ref in
          let unique = no_prompt_conflict id name db.prompts fresh missing in
          let first : version_conflict vid id 1 db.versions ≡ false =
            no_conflict vid id 1 db.versions (rw none_yet (omega arith)) free in
          let done : after (create id vid now name description template variables) db
              ≡ created p v db =
            ground arith in
          rw (done, create_in, view-missing name db missing)
            (
              (
                All-append
                    (λ (u : PromptVersionModel).
                      has_prompt u.prompt_id (db.prompts ++ p ∷ []) ≡ true)
                    db.versions (v ∷ [])
                    (All-map (λ u k. has_prompt-append u.prompt_id db.prompts (p ∷ []) k)
                      db.versions ref)
                    (has_prompt-last db.prompts p, tt),
                append-HasDistinctIds db.versions v free ids,
                λ pid. added-IsNumbered pid db.versions v (rw none_yet refl) (num pid),
                append-HasOwnIds db.prompts p fresh own,
              ),
              λ m. view-created id vid now name description a db m ref fresh missing,
            )
    ]

create_version-Refines :
    (vid now : ℕ) (name : Str) (a : TemplateArgs) (db : PromptDb)
    → IsSound db
    → id_taken vid db.versions ≡ false
    → Refines db (create_version_in name a (view db)) (after (create_version vid now name a) db)
unfolding create_version create_version_in max_version
create_version-Refines vid now name a db sound free =
    let (ref, ids, num, own) = sound in
    elim (Option-cases (find_prompt name db.prompts)) [
      | inl missing ↦
          let same : after (create_version vid now name a) db ≡ db = ground arith in
          rw (same, create_version_in, view-missing name db missing) (sound, λ m. refl)
      | inr (p, found) ↦
          let v = next_version vid now p a db in
          let next = max_version-length (versions_of p.id db.versions) (num p.id) in
          let done : after (create_version vid now name a) db
              ≡ with_rows (db.versions ++ v ∷ []) db =
            after-ok (create_version vid now name a) db (with_rows (db.versions ++ v ∷ []) db)
              (version_to_dict v) (create_version_total vid now name a db p found free) in
          rw done (
            (
              All-append (λ (u : PromptVersionModel). has_prompt u.prompt_id db.prompts ≡ true)
                  db.versions (v ∷ []) ref (has_prompt-find name db.prompts p found, tt),
              append-HasDistinctIds db.versions v free ids,
              λ pid. added-IsNumbered pid db.versions v (ap (λ n. n + 1) next) (num pid),
              own,
            ),
            λ m. view-added vid now name a db p m sound found,
          )
    ]

update-IsSound :
    (id : ℕ) (env : PromptEnvironment) (db : PromptDb)
    → IsSound db
    → IsSound (with_rows (update version_id_of id (moved_to env) db.versions) db)
update-IsSound id env db (ref, ids, num, own) = (
  update-IsReferenced id env db.prompts db.versions ref,
  update-HasDistinctIds id env db.versions ids,
  λ pid.
      rw (versions_of-update pid id env db.versions)
        (update-IsNumbered 0 id env (versions_of pid db.versions) (num pid)),
  own,
)

promote_in-missing :
    (name : Str) (n : ℕ) (target_env : Str) (s : Store) (m : Str)
    → s name ≡ none
    → promote_in name n target_env s m ≡ s m
unfolding promote_in
promote_in-missing name n target_env s m h = elim (Result-cases (env_of target_env)) [
  | inl (x, bad) ↦ rw (promote_in, bad) refl
  | inr (env, good) ↦ rw (promote_in, good, h) refl
]

put-same :
    (name : Str) (s : Store) (es : List Entry) (m : Str) → s name ≡ some es → put name es s m ≡ s m
put-same name s es m h = elim (Bool-cases (m == name)) [
  | inl here ↦ let same : m ≡ name = (eq_iff m name).0 here in rw here (sym (ap s same ∙ h))
  | inr there ↦ rw there refl
]

promote-Refines :
    (name : Str) (n : ℕ) (target_env : Str) (db : PromptDb)
    → IsSound db
    → Refines db (promote_in name n target_env (view db)) (after (promote name n target_env) db)
unfolding promote promote_in
promote-Refines name n target_env db sound = elim (Option-cases (find_prompt name db.prompts)) [
  | inl missing ↦
      let same : after (promote name n target_env) db ≡ db = ground arith in
      rw same (
        sound,
        λ m. sym (promote_in-missing name n target_env (view db) m (view-missing name db missing)),
      )
  | inr (p, found) ↦ elim (Result-cases (env_of target_env)) [
    | inl (x, bad) ↦
        let same : after (promote name n target_env) db ≡ db = ground arith in
        rw (same, promote_in, bad) (sound, λ m. refl)
    | inr (env, good) ↦ elim (Option-cases (find_version p.id n db.versions)) [
      | inl gone ↦
          let vs = versions_of p.id db.versions in
          let same : after (promote name n target_env) db ≡ db = ground arith in
          let kept =
            moved_if-absent n env vs (sym (find_version-versions_of p.id n db.versions) ∙ gone) in
          let known = view-found name db p found in
          rw same (
            sound,
            λ m. sym (
                promote_in-found name n target_env env (view db) (map entry_of vs) m good known
                ∙ ap (λ es. put name es (view db) m) kept
                ∙ put-same name (view db) (map entry_of vs) m known),
          )
      | inr (pv, there) ↦
          let done : after (promote name n target_env) db
              ≡ with_rows (update version_id_of pv.id (moved_to env) db.versions) db =
            ground arith in
          rw done (
            update-IsSound pv.id env db sound,
            λ m. view-moved name n target_env env db p pv m sound found good there,
          )
    ]
  ]
]

pub run-Refines :
    (op : Op) (db : PromptDb)
    → IsSound db
    → IsFresh op db
    → Refines db (step op (view db)) (run op db)
unfolding step run
run-Refines (create_op id vid now name description template variables) db sound fresh =
    create-Refines id vid now name description template variables db sound fresh.0 fresh.1
run-Refines (create_version_op vid now name a) db sound fresh =
    create_version-Refines vid now name a db sound fresh
run-Refines (promote_op name n target_env) db sound fresh =
    promote-Refines name n target_env db sound
