-- ===== src/Prompts/Manager/Versions.antt =====
-- Version numbers: the next number is free, the newest version is the one that is served, and
-- the numbers of a prompt have no gap.
use llmops_platform.Prelude.{
  ℕ, ◌+◌, ◌≤◌, ◌<◌, ◌≡◌, refl, inl, inr, Str, Bool, false, Option, none, some, List, [], ◌∷◌, ◌++◌,
  arith, ok, ◌==◌, nat_eq, string_eq, find, any, filter-append, In, In-append_right,
  In-append-cases,
}
use llmops_platform.Prelude.Sort.{top_nat_unique}
use llmops_platform.Prelude.Tx.{after, after-ok}
use llmops_platform.Prompts.Base.{PromptModel, PromptVersionModel, PromptDb, version_conflict}
use llmops_platform.Prompts.Manager.{
  TemplateArgs, create_version, get, versions_of, latest, max_version, new_version, version_to_dict,
  version_of,
}

abbrev pub find_prompt : Str → List PromptModel → Option PromptModel
find_prompt name rows = find (λ (p : PromptModel). p.name == name) rows

-- Some row has the id.
abbrev pub id_taken : ℕ → List PromptVersionModel → Bool
id_taken id rows = any (λ (v : PromptVersionModel). v.id == id) rows

pub max_version-ge :
    (rows : List PromptVersionModel) (v : PromptVersionModel)
    → In v rows
    → v.version ≤ max_version rows
unfolding max_version
max_version-ge [] v m = elim m [ ]
max_version-ge (r ∷ rows) v (inl e) = ground arith
max_version-ge (r ∷ rows) v (inr m) = ground (arith, max_version-ge rows v m)

pub no_conflict :
    (id pid n : ℕ) (rows : List PromptVersionModel)
    → max_version (versions_of pid rows) < n
    → id_taken id rows ≡ false
    → version_conflict id pid n rows ≡ false
unfolding version_conflict max_version
no_conflict id pid n [] lt free = refl
no_conflict id pid n (r ∷ rows) lt free = ground (arith, no_conflict id pid n rows)

-- The version that `create_version` writes, when it does.
abbrev pub next_version : ℕ → ℕ → PromptModel → TemplateArgs → PromptDb → PromptVersionModel
next_version vid now p a db =
    new_version vid now p.id (max_version (versions_of p.id db.versions) + 1) a

-- For a prompt that exists and an id that no version has, `create_version` succeeds: the number
-- one above the greatest is free, and the new version is added behind the others.
pub create_version_total :
    (vid now : ℕ) (name : Str) (a : TemplateArgs) (db : PromptDb) (p : PromptModel)
    → find_prompt name db.prompts ≡ some p
    → id_taken vid db.versions ≡ false
    → create_version vid now name a db
      ≡ ok (
        version_to_dict (next_version vid now p a db),
        record db { versions = db.versions ++ next_version vid now p a db ∷ [] },
      )
unfolding create_version
create_version_total vid now name a db p found free =
    ground
      (arith, no_conflict vid p.id (max_version (versions_of p.id db.versions) + 1) db.versions)

-- The greatest number comes first, wherever its row stands.
latest-append :
    (rows : List PromptVersionModel) (v : PromptVersionModel)
    → max_version rows < v.version
    → latest (rows ++ v ∷ []) ≡ some v
latest-append rows v lt =
    top_nat_unique version_of (rows ++ v ∷ []) v (In-append_right rows (v ∷ []) v (inl refl))
      (λ b m. elim (In-append-cases rows (v ∷ []) b m) [
        | inl old ↦ inr (omega (arith, max_version-ge rows b old))
        | inr new ↦ elim new [ inl e ↦ inl e | inr k ↦ absurd k ]
      ])

pub versions_of-next :
    (vid now : ℕ) (p : PromptModel) (a : TemplateArgs) (db : PromptDb)
    → versions_of p.id (db.versions ++ next_version vid now p a db ∷ [])
      ≡ versions_of p.id db.versions ++ next_version vid now p a db ∷ []
versions_of-next vid now p a db = rw filter-append (ground arith)

get-latest :
    (name : Str) (db : PromptDb) (p : PromptModel) (v : PromptVersionModel)
    → find_prompt name db.prompts ≡ some p
    → latest (versions_of p.id db.versions) ≡ some v
    → get name none none db ≡ ok (version_to_dict v, db)
unfolding get
get-latest name db p v found top = ground arith

-- A new version is the one that a `get` with neither number nor environment serves.
pub get-create_version :
    (vid now : ℕ) (name : Str) (a : TemplateArgs) (db : PromptDb) (p : PromptModel)
    → find_prompt name db.prompts ≡ some p
    → id_taken vid db.versions ≡ false
    → let db' = after (create_version vid now name a) db in
      get name none none db' ≡ ok (version_to_dict (next_version vid now p a db), db')
get-create_version vid now name a db p found free =
    let v = next_version vid now p a db in
    let written : PromptDb = record db { versions = db.versions ++ v ∷ [] } in
    let done : after (create_version vid now name a) db ≡ written =
      after-ok (create_version vid now name a) db written (version_to_dict v)
        (create_version_total vid now name a db p found free) in
    let newest : latest (versions_of p.id written.versions) ≡ some v =
      rw (versions_of-next vid now p a db)
        (latest-append (versions_of p.id db.versions) v (omega arith)) in
    rw done (get-latest name written p v found newest)
