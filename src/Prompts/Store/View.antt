-- ===== src/Prompts/Store/View.antt =====
-- The tables of core/prompts/manager.py seen as an abstract store, and what new rows do to it.
use llmops_platform.Prelude.{
  ℕ, ◌+◌, ◌≡◌, refl, sym, ap, ◌∙◌, inl, inr, Str, Bool, true, false, none, some, List, [], ◌∷◌,
  ◌++◌, map, arith, ◌==◌, nat_eq, string_eq, eq_iff, Bool-cases, Option-cases, length, length-map,
  ok, ◌&&◌,
}
use llmops_platform.Prelude.Table.{update}
use llmops_platform.Prompts.Base.{
  env_of, PromptEnvironment, PromptModel, PromptVersionModel, PromptDb,
}
use llmops_platform.Prompts.Manager.{
  TemplateArgs, versions_of, find_version, new_version, new_prompt, version_id_of, moved_to,
  max_version,
}
use llmops_platform.Prompts.Manager.Versions.{find_prompt, next_version}
use llmops_platform.Prompts.Manager.Gaps.{has_prompt, IsReferenced}
use llmops_platform.Prompts.Store.{
  Store, Entry, put, new_entry, moved_if, create_version_in, promote_in,
}
use llmops_platform.Prompts.Store.Numbered.{
  HasDistinctIds, IsNumbered, max_version-length, versions_of-update, find_version-versions_of,
}
use llmops_platform.Prompts.Store.Rows.{
  entry_of, map-update, update-absent, id_taken-other, filter-HasDistinctIds,
}
use llmops_platform.Prompts.Store.Names.{
  HasOwnIds, find-append_new, find-append_other, other_id, versions_of-append_other,
  versions_of-append_own, versions_of-new,
}

-- It forgets the ids, the times, the order of the prompts and how the versions of different prompts
-- are mixed.
unfoldable pub view : PromptDb → Store
view db name = elim (find_prompt name db.prompts) [
  | none ↦ none
  | some p ↦ some (map entry_of (versions_of p.id db.versions))
]

abbrev pub IsSound : PromptDb → Type 0
IsSound db =
    IsReferenced db
    × HasDistinctIds db.versions
    × ((pid : ℕ) → IsNumbered 0 (versions_of pid db.versions))
    × HasOwnIds db.prompts

pub view-found :
    (m : Str) (db : PromptDb) (p : PromptModel)
    → find_prompt m db.prompts ≡ some p
    → view db m ≡ some (map entry_of (versions_of p.id db.versions))
unfolding view
view-found m db p h = rw (view, h) refl

pub view-missing : (m : Str) (db : PromptDb) → find_prompt m db.prompts ≡ none → view db m ≡ none
unfolding view
view-missing m db h = rw (view, h) refl

-- The view of a name is the same where its prompt and the prompt's rows are the same.
view-same :
    (m : Str) (db db' : PromptDb)
    → find_prompt m db'.prompts ≡ find_prompt m db.prompts
    → ((q : PromptModel)
        → find_prompt m db.prompts ≡ some q
        → map entry_of (versions_of q.id db'.versions)
          ≡ map entry_of (versions_of q.id db.versions))
    → view db' m ≡ view db m
view-same m db db' same rows = elim (Option-cases (find_prompt m db.prompts)) [
  | inl gone ↦ view-missing m db' (same ∙ gone) ∙ sym (view-missing m db gone)
  | inr (q, found) ↦
      view-found m db' q (same ∙ found) ∙ ap some (rows q found) ∙ sym (view-found m db q found)
]

abbrev pub created : PromptModel → PromptVersionModel → PromptDb → PromptDb
created p v db = record { prompts = db.prompts ++ p ∷ []; versions = db.versions ++ v ∷ [] }

-- A new prompt is a new name in the store.
pub view-created :
    (id vid now : ℕ) (name description : Str) (a : TemplateArgs) (db : PromptDb) (m : Str)
    → IsReferenced db
    → has_prompt id db.prompts ≡ false
    → find_prompt name db.prompts ≡ none
    → view (created (new_prompt id now name description) (new_version vid now id 1 a) db) m
      ≡ put name (new_entry 1 a ∷ []) (view db) m
unfolding view
view-created id vid now name description a db m ref fresh missing =
    let p = new_prompt id now name description in
    let v = new_version vid now id 1 a in
    elim (Bool-cases (m == name)) [
      | inl own ↦
          let same : m ≡ name = (eq_iff m name).0 own in
          let found : find_prompt name (db.prompts ++ p ∷ []) ≡ some p =
            find-append_new db.prompts p missing in
          let self : (id == id) ≡ true = ground arith in
          let rows : versions_of id (db.versions ++ v ∷ []) ≡ v ∷ [] =
            versions_of-append_own id db.versions v self
            ∙ ap (λ vs. vs ++ v ∷ []) (versions_of-new id db.prompts db.versions fresh ref) in
          rw own (
            view-found m (created p v db) p (rw same found)
            ∙ ap (λ vs. some (map entry_of vs)) rows)
      | inr other ↦ rw other (
          view-same m db (created p v db) (find-append_other m db.prompts p other) (λ q found.
            ap (map entry_of) (
              versions_of-append_other q.id db.versions v
                (other_id id m db.prompts q fresh found))))
    ]

create_version_in-found :
    (name : Str) (a : TemplateArgs) (s : Store) (es : List Entry) (m : Str)
    → s name ≡ some es
    → create_version_in name a s m ≡ put name (es ++ new_entry (length es + 1) a ∷ []) s m
unfolding create_version_in
create_version_in-found name a s es m h = rw (create_version_in, h) refl

pub promote_in-found :
    (name : Str) (n : ℕ) (target_env : Str) (env : PromptEnvironment) (s : Store) (es : List Entry)
    (m : Str)
    → env_of target_env ≡ ok env
    → s name ≡ some es
    → promote_in name n target_env s m ≡ put name (map (moved_if n env) es) s m
unfolding promote_in
promote_in-found name n target_env env s es m good h = rw (promote_in, good, h) refl

map-append_one :
    (rows : List PromptVersionModel) (v : PromptVersionModel)
    → map entry_of (rows ++ v ∷ []) ≡ map entry_of rows ++ entry_of v ∷ []
map-append_one [] v = refl
map-append_one (r ∷ rows) v = ap (λ es. entry_of r ∷ es) (map-append_one rows v)

abbrev pub with_rows : List PromptVersionModel → PromptDb → PromptDb
with_rows rows db = record db { versions = rows }

-- New rows for one prompt change the store at its name only.
view-put :
    (name : Str) (db : PromptDb) (p : PromptModel) (rows : List PromptVersionModel)
    (es : List Entry) (m : Str)
    → HasOwnIds db.prompts
    → find_prompt name db.prompts ≡ some p
    → map entry_of (versions_of p.id rows) ≡ es
    → ((pid : ℕ) → (p.id == pid) ≡ false → versions_of pid rows ≡ versions_of pid db.versions)
    → view (with_rows rows db) m ≡ put name es (view db) m
view-put name db p rows es m own_ids found own others = elim (Bool-cases (m == name)) [
  | inl here ↦
      let same : m ≡ name = (eq_iff m name).0 here in
      rw here (view-found m (with_rows rows db) p (rw same found) ∙ ap some own)
  | inr there ↦ rw there (
      view-same m db (with_rows rows db) refl (λ q found'. ap (map entry_of) (
        others q.id (elim (Bool-cases (p.id == q.id)) [
          | inr e ↦ e
          | inl e ↦
              let eq : p.id ≡ q.id = ground arith in
              let same : name ≡ m = own_ids name m p q found found' eq in
              let hit : (m == name) ≡ true = (eq_iff m name).1 (sym same) in cc
        ]))))
]

-- A new version is a new entry of its name, with the next number.
pub view-added :
    (vid now : ℕ) (name : Str) (a : TemplateArgs) (db : PromptDb) (p : PromptModel) (m : Str)
    → IsSound db
    → find_prompt name db.prompts ≡ some p
    → view (with_rows (db.versions ++ next_version vid now p a db ∷ []) db) m
      ≡ create_version_in name a (view db) m
view-added vid now name a db p m (ref, ids, num, own_ids) found =
    let v = next_version vid now p a db in
    let vs = versions_of p.id db.versions in
    let next : max_version vs ≡ length (map entry_of vs) =
      max_version-length vs (num p.id) ∙ sym (length-map entry_of vs) in
    let self : (p.id == p.id) ≡ true = ground arith in
    let rows : map entry_of (versions_of p.id (db.versions ++ v ∷ []))
        ≡ map entry_of vs ++ new_entry (length (map entry_of vs) + 1) a ∷ [] =
      ap (map entry_of) (versions_of-append_own p.id db.versions v self)
      ∙ map-append_one vs v
      ∙ ap (λ n. map entry_of vs ++ new_entry (n + 1) a ∷ []) next in
    view-put name db p (db.versions ++ v ∷ [])
      (map entry_of vs ++ new_entry (length (map entry_of vs) + 1) a ∷ []) m own_ids found rows
      (λ pid other. versions_of-append_other pid db.versions v other)
    ∙ sym
        (create_version_in-found name a (view db) (map entry_of vs) m (view-found name db p found))

-- A promoted version is a moved entry of its name.
pub view-moved :
    (name : Str) (n : ℕ) (target_env : Str) (env : PromptEnvironment) (db : PromptDb)
    (p : PromptModel) (pv : PromptVersionModel) (m : Str)
    → IsSound db
    → find_prompt name db.prompts ≡ some p
    → env_of target_env ≡ ok env
    → find_version p.id n db.versions ≡ some pv
    → view (with_rows (update version_id_of pv.id (moved_to env) db.versions) db) m
      ≡ promote_in name n target_env (view db) m
view-moved name n target_env env db p pv m (ref, ids, num, own_ids) found good there =
    let vs = versions_of p.id db.versions in
    let of_id : ℕ → PromptVersionModel → Bool = λ pid v. v.prompt_id == pid in
    let rows : map entry_of
          (versions_of p.id (update version_id_of pv.id (moved_to env) db.versions))
        ≡ map (moved_if n env) (map entry_of vs) =
      ap (map entry_of) (versions_of-update p.id pv.id env db.versions)
      ∙ map-update 0 n env vs pv (num p.id) (filter-HasDistinctIds (of_id p.id) db.versions ids)
          (sym (find_version-versions_of p.id n db.versions) ∙ there) in
    view-put name db p (update version_id_of pv.id (moved_to env) db.versions)
      (map (moved_if n env) (map entry_of vs)) m own_ids found rows
      (λ pid other.
        versions_of-update pid pv.id env db.versions
        ∙ update-absent pv.id env (versions_of pid db.versions) (
            id_taken-other (λ v. v.prompt_id == p.id && v.version == n) (of_id pid) db.versions pv
              (λ u hit. ground arith) ids there))
    ∙ sym (
        promote_in-found name n target_env env (view db) (map entry_of vs) m good
          (view-found name db p found))
