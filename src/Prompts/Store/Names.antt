-- ===== src/Prompts/Store/Names.antt =====
-- The prompts of core/prompts/manager.py under their names and ids, and the rows of each.
use llmops_platform.Prelude.{
  ℕ, ◌≡◌, ◌⊎◌, refl, sym, ap, ◌∙◌, inl, inr, Str, true, false, none, some, List, [], ◌∷◌, ◌++◌,
  arith, ◌==◌, nat_eq, string_eq, eq_iff, str_eq_iff, find-append, filter-append, append-nil, All,
  Bool-cases,
}
use llmops_platform.Prompts.Base.{PromptModel, PromptVersionModel, prompt_conflict}
use llmops_platform.Prompts.Manager.{versions_of}
use llmops_platform.Prompts.Manager.Versions.{find_prompt}
use llmops_platform.Prompts.Manager.Gaps.{has_prompt, has_prompt-find}

-- Prompts with the same id have the same name.
abbrev pub HasOwnIds : List PromptModel → Type 0
HasOwnIds prompts =
    (m n : Str) (p q : PromptModel)
    → find_prompt m prompts ≡ some p
    → find_prompt n prompts ≡ some q
    → p.id ≡ q.id
    → m ≡ n

pub versions_of-append_own :
    (pid : ℕ) (rows : List PromptVersionModel) (v : PromptVersionModel)
    → (v.prompt_id == pid) ≡ true
    → versions_of pid (rows ++ v ∷ []) ≡ versions_of pid rows ++ v ∷ []
versions_of-append_own pid rows v h = rw (filter-append, h) refl

pub versions_of-append_other :
    (pid : ℕ) (rows : List PromptVersionModel) (v : PromptVersionModel)
    → (v.prompt_id == pid) ≡ false
    → versions_of pid (rows ++ v ∷ []) ≡ versions_of pid rows
versions_of-append_other pid rows v h = rw (filter-append, h) (append-nil (versions_of pid rows))

pub versions_of-new :
    (id : ℕ) (prompts : List PromptModel) (rows : List PromptVersionModel)
    → has_prompt id prompts ≡ false
    → All (λ (v : PromptVersionModel). has_prompt v.prompt_id prompts ≡ true) rows
    → versions_of id rows ≡ []
versions_of-new id prompts [] h all = refl
versions_of-new id prompts (r ∷ rows) h all =
    ground (arith, versions_of-new id prompts rows h all.1)

-- A prompt of the table has another id than one that is not in it.
pub other_id :
    (id : ℕ) (name : Str) (prompts : List PromptModel) (q : PromptModel)
    → has_prompt id prompts ≡ false
    → find_prompt name prompts ≡ some q
    → (id == q.id) ≡ false
other_id id name prompts q h found = elim (Bool-cases (id == q.id)) [
  | inr e ↦ e
  | inl e ↦
      let same : id ≡ q.id = ground arith in
      let there : has_prompt id prompts ≡ true = rw same (has_prompt-find name prompts q found) in
      cc
]

pub find-append_other :
    (m : Str) (rows : List PromptModel) (p : PromptModel)
    → (m == p.name) ≡ false
    → find_prompt m (rows ++ p ∷ []) ≡ find_prompt m rows
find-append_other m [] p h = ground (arith, str_eq_iff m p.name, str_eq_iff p.name m)
find-append_other m (r ∷ rows) p h = ground (arith, find-append_other m rows p h)

pub find-append_new :
    (rows : List PromptModel) (p : PromptModel)
    → find_prompt p.name rows ≡ none
    → find_prompt p.name (rows ++ p ∷ []) ≡ some p
find-append_new rows p h =
    let own : (p.name == p.name) ≡ true = (eq_iff p.name p.name).1 refl in
    rw (find-append, h, own) refl

pub find_prompt-append-cases :
    (m : Str) (rows : List PromptModel) (p q : PromptModel)
    → find_prompt m (rows ++ p ∷ []) ≡ some q
    → (find_prompt m rows ≡ some q) ⊎ ((q ≡ p) × (p.name ≡ m))
find_prompt-append-cases m [] p q h = elim (Bool-cases (p.name == m)) [
  | inl e ↦ inr (ground arith, (str_eq_iff p.name m).0 e)
  | inr e ↦ absurd (ground arith)
]
find_prompt-append-cases m (r ∷ rows) p q h = elim (Bool-cases (r.name == m)) [
  | inl e ↦ inl (ground arith)
  | inr e ↦ elim (find_prompt-append-cases m rows p q (ground arith)) [
    | inl old ↦ inl (ground arith)
    | inr new ↦ inr new
  ]
]

pub append-HasOwnIds :
    (prompts : List PromptModel) (p : PromptModel)
    → has_prompt p.id prompts ≡ false
    → HasOwnIds prompts
    → HasOwnIds (prompts ++ p ∷ [])
append-HasOwnIds prompts p fresh own m n q r f g e =
    elim (find_prompt-append-cases m prompts p q f) [
      | inl f' ↦ elim (find_prompt-append-cases n prompts p r g) [
        | inl g' ↦ own m n q r f' g' e
        | inr (is_p, named) ↦
            let apart = other_id p.id m prompts q fresh f' in
            let same : r.id ≡ p.id = ap (λ (u : PromptModel). u.id) is_p in absurd (ground arith)
      ]
      | inr (is_p, named) ↦
          let same : q.id ≡ p.id = ap (λ (u : PromptModel). u.id) is_p in
          elim (find_prompt-append-cases n prompts p r g) [
            | inl g' ↦ let apart = other_id p.id n prompts r fresh g' in absurd (ground arith)
            | inr (is_p', named') ↦ sym named ∙ named'
          ]
    ]

pub no_prompt_conflict :
    (id : ℕ) (name : Str) (rows : List PromptModel)
    → has_prompt id rows ≡ false
    → find_prompt name rows ≡ none
    → prompt_conflict id name rows ≡ false
unfolding prompt_conflict
no_prompt_conflict id name [] h k = refl
no_prompt_conflict id name (r ∷ rows) h k = ground (arith, no_prompt_conflict id name rows)

pub name_conflict :
    (id : ℕ) (name : Str) (rows : List PromptModel) (p : PromptModel)
    → find_prompt name rows ≡ some p
    → prompt_conflict id name rows ≡ true
unfolding prompt_conflict
name_conflict id name [] p h = absurd (cc)
name_conflict id name (r ∷ rows) p h = ground (arith, name_conflict id name rows p)
