-- ===== src/Prompts/Store/Rows.antt =====
-- The rows of core/prompts/manager.py seen as entries: what a promotion does to them.
use llmops_platform.Prelude.{
  ℕ, suc, ◌≤◌, ◌≡◌, refl, inl, inr, Bool, true, false, none, some, List, [], ◌∷◌, map, arith, ◌==◌,
  nat_eq, find, filter, Bool-cases, Option,
}
use llmops_platform.Prelude.Table.{update}
use llmops_platform.Prompts.Base.{PromptEnvironment, PromptVersionModel, same_env}
use llmops_platform.Prompts.Manager.{version_id_of, moved_to}
use llmops_platform.Prompts.Manager.Versions.{id_taken}
use llmops_platform.Prompts.Store.{Entry, last?, moved_if}
use llmops_platform.Prompts.Store.Numbered.{HasDistinctIds, IsNumbered}

abbrev pub entry_of : PromptVersionModel → Entry
entry_of v = record {
  number = v.version;
  template = v.template;
  variables = v.variables;
  change_note = v.change_note;
  environment = v.environment;
}

abbrev pub map_entry : Option PromptVersionModel → Option Entry
map_entry none = none
map_entry (some v) = some (entry_of v)

pub update-absent :
    (id : ℕ) (env : PromptEnvironment) (rows : List PromptVersionModel)
    → id_taken id rows ≡ false
    → update version_id_of id (moved_to env) rows ≡ rows
unfolding update
update-absent id env [] h = refl
update-absent id env (r ∷ rows) h = ground (arith, update-absent id env rows)

id_taken-find :
    (p : PromptVersionModel → Bool) (rows : List PromptVersionModel) (v w : PromptVersionModel)
    → id_taken w.id rows ≡ false
    → find p rows ≡ some v
    → (w.id == v.id) ≡ false
id_taken-find p [] v w h f = absurd (cc)
id_taken-find p (r ∷ rows) v w h f = ground (arith, id_taken-find p rows v w)

id_taken-filter :
    (id : ℕ) (p : PromptVersionModel → Bool) (rows : List PromptVersionModel)
    → id_taken id rows ≡ false
    → id_taken id (filter p rows) ≡ false
id_taken-filter id p [] h = refl
id_taken-filter id p (r ∷ rows) h = ground (arith, id_taken-filter id p rows)

pub filter-HasDistinctIds :
    (p : PromptVersionModel → Bool) (rows : List PromptVersionModel)
    → HasDistinctIds rows
    → HasDistinctIds (filter p rows)
filter-HasDistinctIds p [] h = tt
filter-HasDistinctIds p (r ∷ rows) h = elim (Bool-cases (p r)) [
  | inl e ↦ rw e (id_taken-filter r.id p rows h.0, filter-HasDistinctIds p rows h.1)
  | inr e ↦ rw e (filter-HasDistinctIds p rows h.1)
]

-- The row that one test finds is not among those that pass another.
pub id_taken-other :
    (p q : PromptVersionModel → Bool) (rows : List PromptVersionModel) (v : PromptVersionModel)
    → ((u : PromptVersionModel) → p u ≡ true → q u ≡ false)
    → HasDistinctIds rows
    → find p rows ≡ some v
    → id_taken v.id (filter q rows) ≡ false
id_taken-other p q [] v apart h f = absurd (cc)
id_taken-other p q (r ∷ rows) v apart h f = elim (Bool-cases (p r)) [
  | inl hit ↦
      let same : r ≡ v = ground arith in
      rw (apart r hit) (rw (← same) (id_taken-filter r.id q rows h.0))
  | inr miss ↦
      let there : find p rows ≡ some v = ground arith in
      let rest = id_taken-other p q rows v apart h.1 there in
      let other = id_taken-find p rows v r h.0 there in ground arith
]

map-moved_if-greater :
    (k n : ℕ) (env : PromptEnvironment) (rows : List PromptVersionModel)
    → n ≤ k
    → IsNumbered k rows
    → map (moved_if n env) (map entry_of rows) ≡ map entry_of rows
map-moved_if-greater k n env [] le h = refl
map-moved_if-greater k n env (r ∷ rows) le h =
    let rest = map-moved_if-greater (suc k) n env rows (omega arith) h.1 in
    let other : (r.version == n) ≡ false = ground (arith, h.0) in rw (other, rest) refl

-- The promotion of the row with a number moves the entry with that number.
pub map-update :
    (k n : ℕ) (env : PromptEnvironment) (rows : List PromptVersionModel) (pv : PromptVersionModel)
    → IsNumbered k rows
    → HasDistinctIds rows
    → find (λ v. v.version == n) rows ≡ some pv
    → map entry_of (update version_id_of pv.id (moved_to env) rows)
      ≡ map (moved_if n env) (map entry_of rows)
unfolding update
map-update k n env [] pv num ids f = absurd (cc)
map-update k n env (r ∷ rows) pv num ids f = elim (Bool-cases (r.version == n)) [
  | inl hit ↦
      let same : r ≡ pv = ground arith in
      let tail = map-moved_if-greater (suc k) n env rows (ground (arith, num.0)) num.1 in
      let kept = update-absent pv.id env rows (rw (← same) ids.0) in
      let own : (r.id == pv.id) ≡ true = rw (← same) (ground arith) in
      rw (own, hit, kept, tail) refl
  | inr miss ↦
      let there : find (λ v. v.version == n) rows ≡ some pv = ground arith in
      let other = id_taken-find (λ v. v.version == n) rows pv r ids.0 there in
      let rest = map-update (suc k) n env rows pv num.1 ids.1 there in rw (other, miss, rest) refl
]

pub find-map_entry :
    (n : ℕ) (rows : List PromptVersionModel)
    → find (λ (e : Entry). e.number == n) (map entry_of rows)
      ≡ map_entry (find (λ v. v.version == n) rows)
find-map_entry n [] = refl
find-map_entry n (r ∷ rows) = ground (arith, find-map_entry n rows)

-- Nothing is moved where no row has the number.
pub moved_if-absent :
    (n : ℕ) (env : PromptEnvironment) (rows : List PromptVersionModel)
    → find (λ v. v.version == n) rows ≡ none
    → map (moved_if n env) (map entry_of rows) ≡ map entry_of rows
moved_if-absent n env [] h = refl
moved_if-absent n env (r ∷ rows) h = elim (Bool-cases (r.version == n)) [
  | inl hit ↦ absurd (ground arith)
  | inr miss ↦ rw (miss, moved_if-absent n env rows (ground arith)) refl
]

pub filter-map_entry :
    (env : PromptEnvironment) (rows : List PromptVersionModel)
    → filter (λ (e : Entry). same_env e.environment env) (map entry_of rows)
      ≡ map entry_of (filter (λ v. same_env v.environment env) rows)
filter-map_entry env [] = refl
filter-map_entry env (r ∷ rows) = elim (Bool-cases (same_env r.environment env)) [
  | inl e ↦ rw (e, filter-map_entry env rows) refl
  | inr e ↦ rw (e, filter-map_entry env rows) refl
]

pub last?-map_entry :
    (rows : List PromptVersionModel) → last? (map entry_of rows) ≡ map_entry (last? rows)
last?-map_entry [] = refl
last?-map_entry (r ∷ []) = refl
last?-map_entry (r ∷ s ∷ rows) = last?-map_entry (s ∷ rows)
