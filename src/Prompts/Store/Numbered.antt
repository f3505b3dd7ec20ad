-- ===== src/Prompts/Store/Numbered.antt =====
-- The rows of versions that core/prompts/manager.py writes: distinct ids, and for each prompt the
-- numbers from 1 in the order of the rows.
use llmops_platform.Prelude.{
  ℕ, suc, ◌+◌, max, ◌≡◌, refl, inl, inr, false, ◌||◌, List, [], ◌∷◌, ◌++◌, arith, ◌==◌, nat_eq,
  find, filter, Bool-cases, length,
}
use llmops_platform.Prelude.Table.{update}
use llmops_platform.Prompts.Base.{PromptEnvironment, PromptVersionModel, same_env}
use llmops_platform.Prompts.Manager.{
  find_version, versions_of, max_version, version_id_of, moved_to, in_env,
}
use llmops_platform.Prompts.Manager.Versions.{id_taken}

abbrev pub HasDistinctIds : List PromptVersionModel → Type 0
HasDistinctIds [] = Unit
HasDistinctIds (v ∷ rows) = (id_taken v.id rows ≡ false) × HasDistinctIds rows

abbrev pub IsNumbered : ℕ → List PromptVersionModel → Type 0
IsNumbered k [] = Unit
IsNumbered k (v ∷ rows) = (v.version ≡ suc k) × IsNumbered (suc k) rows

id_taken-append :
    (i : ℕ) (rows : List PromptVersionModel) (v : PromptVersionModel)
    → id_taken i (rows ++ v ∷ []) ≡ (id_taken i rows || v.id == i)
id_taken-append i [] v = ground arith
id_taken-append i (r ∷ rows) v = ground (arith, id_taken-append i rows v)

pub append-HasDistinctIds :
    (rows : List PromptVersionModel) (v : PromptVersionModel)
    → id_taken v.id rows ≡ false
    → HasDistinctIds rows
    → HasDistinctIds (rows ++ v ∷ [])
append-HasDistinctIds [] v free h = (refl, tt)
append-HasDistinctIds (r ∷ rows) v free h = (
  ground (arith, id_taken-append r.id rows v, h.0),
  append-HasDistinctIds rows v (ground arith) h.1,
)

id_taken-update :
    (i id : ℕ) (env : PromptEnvironment) (rows : List PromptVersionModel)
    → id_taken i (update version_id_of id (moved_to env) rows) ≡ id_taken i rows
unfolding update
id_taken-update i id env [] = refl
id_taken-update i id env (r ∷ rows) = ground (arith, id_taken-update i id env rows)

pub update-HasDistinctIds :
    (id : ℕ) (env : PromptEnvironment) (rows : List PromptVersionModel)
    → HasDistinctIds rows
    → HasDistinctIds (update version_id_of id (moved_to env) rows)
unfolding update
update-HasDistinctIds id env [] h = tt
update-HasDistinctIds id env (r ∷ rows) h = elim (Bool-cases (r.id == id)) [
  | inl e ↦
      rw e (
        ground (arith, id_taken-update r.id id env rows, h.0),
        update-HasDistinctIds id env rows h.1,
      )
  | inr e ↦
      rw e (
        ground (arith, id_taken-update r.id id env rows, h.0),
        update-HasDistinctIds id env rows h.1,
      )
]

pub versions_of-update :
    (pid id : ℕ) (env : PromptEnvironment) (rows : List PromptVersionModel)
    → versions_of pid (update version_id_of id (moved_to env) rows)
      ≡ update version_id_of id (moved_to env) (versions_of pid rows)
unfolding update
versions_of-update pid id env [] = refl
versions_of-update pid id env (r ∷ rows) = ground (arith, versions_of-update pid id env rows)

pub update-IsNumbered :
    (k id : ℕ) (env : PromptEnvironment) (rows : List PromptVersionModel)
    → IsNumbered k rows
    → IsNumbered k (update version_id_of id (moved_to env) rows)
unfolding update
update-IsNumbered k id env [] h = tt
update-IsNumbered k id env (r ∷ rows) h = elim (Bool-cases (r.id == id)) [
  | inl e ↦ rw e (h.0, update-IsNumbered (suc k) id env rows h.1)
  | inr e ↦ rw e (h.0, update-IsNumbered (suc k) id env rows h.1)
]

pub append-IsNumbered :
    (k : ℕ) (rows : List PromptVersionModel) (v : PromptVersionModel)
    → v.version ≡ suc (k + length rows)
    → IsNumbered k rows
    → IsNumbered k (rows ++ v ∷ [])
append-IsNumbered k [] v num h = (omega arith, tt)
append-IsNumbered k (r ∷ rows) v num h = (h.0, append-IsNumbered (suc k) rows v (omega arith) h.1)

max_version-IsNumbered :
    (k : ℕ) (rows : List PromptVersionModel)
    → IsNumbered k rows
    → max k (max_version rows) ≡ k + length rows
unfolding max_version
max_version-IsNumbered k [] h = omega arith
max_version-IsNumbered k (r ∷ rows) h = omega (arith, h.0, max_version-IsNumbered (suc k) rows h.1)

-- The greatest number of a prompt is the number of its versions.
pub max_version-length :
    (rows : List PromptVersionModel) → IsNumbered 0 rows → max_version rows ≡ length rows
max_version-length rows h = omega (arith, max_version-IsNumbered 0 rows h)

pub find_version-versions_of :
    (pid n : ℕ) (rows : List PromptVersionModel)
    → find_version pid n rows ≡ find (λ v. v.version == n) (versions_of pid rows)
find_version-versions_of pid n [] = refl
find_version-versions_of pid n (r ∷ rows) = ground (arith, find_version-versions_of pid n rows)

pub in_env-versions_of :
    (pid : ℕ) (env : PromptEnvironment) (rows : List PromptVersionModel)
    → in_env pid env rows ≡ filter (λ v. same_env v.environment env) (versions_of pid rows)
in_env-versions_of pid env [] = refl
in_env-versions_of pid env (r ∷ rows) = ground (arith, in_env-versions_of pid env rows)
