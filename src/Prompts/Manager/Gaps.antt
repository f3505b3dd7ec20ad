-- ===== src/Prompts/Manager/Gaps.antt =====
-- The tables that the methods build up: every version belongs to a prompt, and the numbers of a
-- prompt's versions run from 1 with no gap.
use llmops_platform.Prelude.{
  ℕ, ◌+◌, ◌≤◌, max, ◌≡◌, refl, inl, inr, Str, Bool, true, false, ◌&&◌, none, some, List, [], ◌∷◌,
  ◌++◌, arith, ◌==◌, nat_eq, string_eq, find-append, any, All, All-append, All-map, Option-cases,
  Bool-cases, nat_beq_iff, if◌then◌else◌, dec_lt,
}
use llmops_platform.Prelude.Table.{update, find-update}
use llmops_platform.Prompts.Base.{
  PromptEnvironment, PromptModel, PromptVersionModel, PromptDb, prompt_conflict,
}
use llmops_platform.Prompts.Manager.{
  find_version, versions_of, max_version, version_id_of, moved_to,
}
use llmops_platform.Prompts.Manager.History.{Op, run, run_all}
use llmops_platform.Prompts.Manager.Versions.{find_prompt}
use llmops_platform.Prompts.Manager.Changes.{Change, run-Change}

abbrev pub has_prompt : ℕ → List PromptModel → Bool
has_prompt id rows = any (λ (p : PromptModel). p.id == id) rows

abbrev pub IsReferenced : PromptDb → Type 0
IsReferenced db =
    All (λ (v : PromptVersionModel). has_prompt v.prompt_id db.prompts ≡ true) db.versions

abbrev pub HasNoGap : List PromptVersionModel → Type 0
HasNoGap rows =
    (pid n : ℕ)
    → 1 ≤ n
    → n ≤ max_version (versions_of pid rows)
    → (v : PromptVersionModel) × (find_version pid n rows ≡ some v)

abbrev pub IsWellFormed : PromptDb → Type 0
IsWellFormed db = IsReferenced db × HasNoGap db.versions

max_version-append :
    (pid : ℕ) (rows : List PromptVersionModel) (v : PromptVersionModel)
    → max_version (versions_of pid (rows ++ v ∷ [])) ≡ (
        if v.prompt_id == pid
        then max (max_version (versions_of pid rows)) v.version
        else max_version (versions_of pid rows))
unfolding max_version
max_version-append pid [] v = ground arith
max_version-append pid (r ∷ rows) v = ground (arith, max_version-append pid rows v)

max_version-update :
    (pid id : ℕ) (env : PromptEnvironment) (rows : List PromptVersionModel)
    → max_version (versions_of pid (update version_id_of id (moved_to env) rows))
      ≡ max_version (versions_of pid rows)
unfolding max_version update
max_version-update pid id env [] = refl
max_version-update pid id env (r ∷ rows) = ground (arith, max_version-update pid id env rows)

absent :
    (pid n : ℕ) (rows : List PromptVersionModel)
    → find_version pid n rows ≡ none
    → (v : PromptVersionModel) × (find_version pid n rows ≡ some v)
    → ⊥
absent pid n rows no_row (v, found) = cc

add-HasNoGap :
    (rows : List PromptVersionModel) (v : PromptVersionModel)
    → v.version ≡ max_version (versions_of v.prompt_id rows) + 1
    → HasNoGap rows
    → HasNoGap (rows ++ v ∷ [])
add-HasNoGap rows v next gap pid n pos le = elim (Option-cases (find_version pid n rows)) [
  | inr (w, found) ↦ (w, rw find-append (rw found))
  | inl none_old ↦
      let total = max_version-append pid rows v in
      elim (Bool-cases (v.prompt_id == pid)) [
        | inr other ↦
            let le' : n ≤ max_version (versions_of pid rows) = ground arith in
            absurd (absent pid n rows none_old (gap pid n pos le'))
        | inl own ↦
            let at : v.prompt_id ≡ pid = (nat_beq_iff v.prompt_id pid).0 own in
            let next' : v.version ≡ max_version (versions_of pid rows) + 1 = rw (← at) next in
            elim (dec_lt (max_version (versions_of pid rows)) n) [
              | no small ↦ absurd (absent pid n rows none_old (gap pid n pos (omega arith)))
              | yes big ↦
                  let num : v.version ≡ n = ground arith in (v, rw find-append (ground arith))
            ]
      ]
]

update-HasNoGap :
    (id : ℕ) (env : PromptEnvironment) (rows : List PromptVersionModel)
    → HasNoGap rows
    → HasNoGap (update version_id_of id (moved_to env) rows)
update-HasNoGap id env rows gap pid n pos le =
    let test : PromptVersionModel → Bool = λ r. r.prompt_id == pid && r.version == n in
    let (v, found) = gap pid n pos (omega (arith, max_version-update pid id env rows)) in
    let (w, found', which) =
      find-update version_id_of test id (moved_to env) rows v (λ r. refl) found in
    (w, found')

-- A version belongs to a prompt of the table, also of a longer one.
pub has_prompt-append :
    (id : ℕ) (rows new : List PromptModel)
    → has_prompt id rows ≡ true
    → has_prompt id (rows ++ new) ≡ true
has_prompt-append id [] new h = absurd (cc)
has_prompt-append id (p ∷ rows) new h = ground (arith, has_prompt-append id rows new)

pub has_prompt-last :
    (rows : List PromptModel) (p : PromptModel) → has_prompt p.id (rows ++ p ∷ []) ≡ true
has_prompt-last [] p = ground arith
has_prompt-last (q ∷ rows) p = ground (arith, has_prompt-last rows p)

pub has_prompt-find :
    (name : Str) (rows : List PromptModel) (p : PromptModel)
    → find_prompt name rows ≡ some p
    → has_prompt p.id rows ≡ true
has_prompt-find name [] p h = absurd (cc)
has_prompt-find name (q ∷ rows) p h = ground (arith, has_prompt-find name rows p)

no_prompt :
    (id : ℕ) (name : Str) (rows : List PromptModel)
    → prompt_conflict id name rows ≡ false
    → has_prompt id rows ≡ false
unfolding prompt_conflict
no_prompt id name [] h = refl
no_prompt id name (p ∷ rows) h = ground (arith, no_prompt id name rows)

-- A prompt that is not in the table has no versions.
max_version-new :
    (prompts : List PromptModel) (id : ℕ) (rows : List PromptVersionModel)
    → has_prompt id prompts ≡ false
    → All (λ (v : PromptVersionModel). has_prompt v.prompt_id prompts ≡ true) rows
    → max_version (versions_of id rows) ≡ 0
unfolding max_version
max_version-new prompts id [] h all = refl
max_version-new prompts id (r ∷ rows) h all =
    ground (arith, max_version-new prompts id rows h all.1)

pub update-IsReferenced :
    (id : ℕ) (env : PromptEnvironment) (prompts : List PromptModel) (rows : List PromptVersionModel)
    → All (λ (v : PromptVersionModel). has_prompt v.prompt_id prompts ≡ true) rows
    → All
        (λ (v : PromptVersionModel). has_prompt v.prompt_id prompts ≡ true)
        (update version_id_of id (moved_to env) rows)
unfolding update
update-IsReferenced id env prompts [] h = tt
update-IsReferenced id env prompts (r ∷ rows) h = elim (Bool-cases (r.id == id)) [
  | inl e ↦ rw e (h.0, update-IsReferenced id env prompts rows h.1)
  | inr e ↦ rw e (h.0, update-IsReferenced id env prompts rows h.1)
]

Change-IsWellFormed : (db db' : PromptDb) → Change db db' → IsWellFormed db → IsWellFormed db'
Change-IsWellFormed db db' (inl e) h = rw e h
Change-IsWellFormed db db' (inr (inl (p, v, free, own, first, e))) (ref, gap) =
    let fresh : has_prompt p.id db.prompts ≡ false = no_prompt p.id p.name db.prompts free in
    let none_yet : max_version (versions_of v.prompt_id db.versions) ≡ 0 =
      rw own (max_version-new db.prompts p.id db.versions fresh ref) in
    let next : v.version ≡ max_version (versions_of v.prompt_id db.versions) + 1 = omega arith in
    rw e (
      All-append (λ (u : PromptVersionModel). has_prompt u.prompt_id (db.prompts ++ p ∷ []) ≡ true)
          db.versions (v ∷ [])
          (All-map (λ u k. has_prompt-append u.prompt_id db.prompts (p ∷ []) k) db.versions ref)
          (rw own (has_prompt-last db.prompts p), tt),
      add-HasNoGap db.versions v next gap,
    )
Change-IsWellFormed db db' (inr (inr (inl (p, v, name, found, own, num, e)))) (ref, gap) = rw e (
  All-append (λ (u : PromptVersionModel). has_prompt u.prompt_id db.prompts ≡ true) db.versions
      (v ∷ []) ref (rw own (has_prompt-find name db.prompts p found), tt),
  add-HasNoGap db.versions v (rw own num) gap,
)
Change-IsWellFormed db db' (inr (inr (inr (id, env, e)))) (ref, gap) =
    rw e (
      update-IsReferenced id env db.prompts db.versions ref,
      update-HasNoGap id env db.versions gap,
    )

-- Every call keeps the tables well formed, whether it succeeds or not.
pub run-IsWellFormed : (op : Op) (db : PromptDb) → IsWellFormed db → IsWellFormed (run op db)
run-IsWellFormed op db h = Change-IsWellFormed db (run op db) (run-Change op db) h

abbrev pub empty_db : PromptDb
empty_db = record { prompts = []; versions = [] }

empty_db-IsWellFormed : IsWellFormed empty_db
unfolding max_version
empty_db-IsWellFormed = (tt, λ pid n pos le. absurd (omega arith))

run_all-IsWellFormed :
    (ops : List Op) (db : PromptDb) → IsWellFormed db → IsWellFormed (run_all ops db)
unfolding run_all
run_all-IsWellFormed [] db h = h
run_all-IsWellFormed (op ∷ ops) db h =
    run_all-IsWellFormed ops (run op db) (run-IsWellFormed op db h)

-- In the tables that any calls build up from empty ones, every version belongs to a prompt that is
-- there, and every number from 1 to a prompt's greatest is the number of one of its versions.
pub versions_contiguous : (ops : List Op) → IsWellFormed (run_all ops empty_db)
versions_contiguous ops = run_all-IsWellFormed ops empty_db empty_db-IsWellFormed
