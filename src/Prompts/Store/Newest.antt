-- ===== src/Prompts/Store/Newest.antt =====
-- The newest version of core/prompts/manager.py in rows whose numbers ascend.
use llmops_platform.Prelude.{
  ℕ, suc, ◌<◌, ◌≡◌, refl, sym, ◌∙◌, inl, inr, Bool, some, List, [], ◌∷◌, arith, nat_eq, filter, All,
  All-map, Bool-cases, leb,
}
use llmops_platform.Prelude.Sort.{head?, insert_desc, sort_desc}
use llmops_platform.Prompts.Base.{PromptVersionModel}
use llmops_platform.Prompts.Manager.{version_of, latest}
use llmops_platform.Prompts.Store.{last?}
use llmops_platform.Prompts.Store.Numbered.{IsNumbered}

abbrev pub IsAscending : List PromptVersionModel → Type 0
IsAscending [] = Unit
IsAscending (v ∷ rows) =
    All (λ (w : PromptVersionModel). v.version < w.version) rows × IsAscending rows

IsNumbered-All :
    (k : ℕ) (rows : List PromptVersionModel)
    → IsNumbered k rows
    → All (λ (w : PromptVersionModel). k < w.version) rows
IsNumbered-All k [] h = tt
IsNumbered-All k (r ∷ rows) h =
    (omega (arith, h.0), All-map (λ w lt. omega arith) rows (IsNumbered-All (suc k) rows h.1))

pub IsNumbered-IsAscending :
    (k : ℕ) (rows : List PromptVersionModel) → IsNumbered k rows → IsAscending rows
IsNumbered-IsAscending k [] h = tt
IsNumbered-IsAscending k (r ∷ rows) h = (
  All-map (λ w lt. omega (arith, h.0)) rows (IsNumbered-All (suc k) rows h.1),
  IsNumbered-IsAscending (suc k) rows h.1,
)

All-filter :
    (P : PromptVersionModel → Type 0) (p : PromptVersionModel → Bool)
    (rows : List PromptVersionModel)
    → All P rows
    → All P (filter p rows)
All-filter P p [] h = tt
All-filter P p (r ∷ rows) h = elim (Bool-cases (p r)) [
  | inl e ↦ rw e (h.0, All-filter P p rows h.1)
  | inr e ↦ rw e (All-filter P p rows h.1)
]

pub filter-IsAscending :
    (p : PromptVersionModel → Bool) (rows : List PromptVersionModel)
    → IsAscending rows
    → IsAscending (filter p rows)
filter-IsAscending p [] h = tt
filter-IsAscending p (r ∷ rows) h = elim (Bool-cases (p r)) [
  | inl e ↦ rw e (
    All-filter (λ (w : PromptVersionModel). r.version < w.version) p rows h.0,
    filter-IsAscending p rows h.1,
  )
  | inr e ↦ rw e (filter-IsAscending p rows h.1)
]

insert_desc-less :
    (v w : PromptVersionModel) (rows : List PromptVersionModel)
    → head? leb version_of rows ≡ some w
    → v.version < w.version
    → head? leb version_of (insert_desc leb version_of v rows) ≡ some w
unfolding insert_desc
insert_desc-less v w [] h lt = absurd (cc)
insert_desc-less v w (r ∷ rows) h lt = let same : r ≡ w = ground arith in ground arith

last?-All :
    (P : PromptVersionModel → Type 0) (r : PromptVersionModel) (rows : List PromptVersionModel)
    → All P (r ∷ rows)
    → (w : PromptVersionModel) × (last? (r ∷ rows) ≡ some w) × P w
last?-All P r [] h = (r, refl, h.0)
last?-All P r (s ∷ rows) h = last?-All P s rows h.1

-- In ascending rows the newest one is the last one.
pub latest-last? : (rows : List PromptVersionModel) → IsAscending rows → latest rows ≡ last? rows
unfolding sort_desc insert_desc
latest-last? [] h = refl
latest-last? (r ∷ []) h = refl
latest-last? (r ∷ s ∷ rows) h =
    let (w, at, lt) = last?-All (λ (w : PromptVersionModel). r.version < w.version) s rows h.0 in
    insert_desc-less r w (sort_desc leb version_of (s ∷ rows)) (latest-last? (s ∷ rows) h.1 ∙ at) lt
    ∙ sym at
