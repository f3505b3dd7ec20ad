-- ===== src/Migrations/Undone.antt =====
-- The migration and its way back, beside whatever else the database holds.
use llmops_platform.Prelude.{
  ◌≡◌, refl, sym, ap, ap₂, ◌∙◌, Str, codes, Bool, true, false, not, ◌&&◌, ◌||◌, List, [], ◌∷◌, ◌++◌,
  ◌==◌, string_eq, str_eq, eq_iff, arith, any, all, filter, contains, All, append_assoc, append-nil,
  Result, ok, err, inl, inr, Result-cases,
}
use llmops_platform.Migrations.{
  Table, Index, Schema, enums_of, targets_of, Operation, create_table, create_index, drop_table,
  drop_type, has_table, has_index, is_referred, guard, run, run_all, prompts, prompt_versions,
  scoring_pipelines, score_results, experiments, experiment_trials, upgrade, downgrade,
}

-- What a schema is beside another one.
abbrev grow : Schema → Schema → Schema
grow base s = record {
  tables = base.tables ++ s.tables;
  indexes = base.indexes ++ s.indexes;
  types = base.types ++ s.types;
}

abbrev grow_result : Schema → Result Schema → Result Schema
grow_result base (ok s) = ok (grow base s)
grow_result base (err e) = err e

-- The schema has nothing under the names that an operation reads or writes.
abbrev pub IsClear : Schema → Operation → Type 0
IsClear base (create_table t) =
    (has_table t.name base.tables ≡ false)
    × All (λ n. has_table n base.tables ≡ false) (targets_of t.constraints)
    × All (λ n. contains base.types n ≡ false) (enums_of t.columns)
IsClear base (create_index i) =
    (has_table i.table base.tables ≡ false) × (has_index i.name base.indexes ≡ false)
IsClear base (drop_table n) =
    (has_table n base.tables ≡ false)
    × (is_referred n base.tables ≡ false)
    × (any (λ (i : Index). i.table == n) base.indexes ≡ false)
IsClear base (drop_type n) = contains base.types n ≡ false

module _ {A : Type 0} where
  any-append : (p : A → Bool) (xs ys : List A) → any p (xs ++ ys) ≡ (any p xs || any p ys)
  any-append p [] ys = refl
  any-append p (x ∷ xs) ys = ground (arith, any-append p xs ys)

  any-clear : (p : A → Bool) (xs ys : List A) → any p xs ≡ false → any p (xs ++ ys) ≡ any p ys
  any-clear p xs ys h = any-append p xs ys ∙ rw h refl

  filter-clear :
      (p : A → Bool) (xs ys : List A)
      → any p xs ≡ false
      → filter (λ x. not (p x)) (xs ++ ys) ≡ xs ++ filter (λ x. not (p x)) ys
  filter-clear p [] ys h = refl
  filter-clear p (x ∷ xs) ys h = ground (arith, filter-clear p xs ys)

contains-clear :
    (xs ys : List Str) (n : Str) → contains xs n ≡ false → contains (xs ++ ys) n ≡ contains ys n
contains-clear [] ys n h = refl
contains-clear (x ∷ xs) ys n h = ground (arith, contains-clear xs ys n)

filter-names :
    (xs ys : List Str) (n : Str)
    → contains xs n ≡ false
    → filter (λ x. not (x == n)) (xs ++ ys) ≡ xs ++ filter (λ x. not (x == n)) ys
filter-names [] ys n h = refl
filter-names (x ∷ xs) ys n h = ground (arith, filter-names xs ys n, eq_iff n x, eq_iff x n)

all-targets :
    (base made : List Table) (ns : List Str)
    → All (λ n. has_table n base ≡ false) ns
    → all (λ n. has_table n (base ++ made)) ns ≡ all (λ n. has_table n made) ns
all-targets base made [] h = refl
all-targets base made (n ∷ ns) h =
    ap₂ (λ a b. a && b) (any-clear (λ (t : Table). t.name == n) base made h.0)
      (all-targets base made ns h.1)

all-types :
    (base made ns : List Str)
    → All (λ n. contains base n ≡ false) ns
    → all (λ n. not (contains (base ++ made) n)) ns ≡ all (λ n. not (contains made n)) ns
all-types base made [] h = refl
all-types base made (n ∷ ns) h =
    ap₂ (λ a b. not a && b) (contains-clear base made n h.0) (all-types base made ns h.1)

guard-grow :
    (base s s' : Schema) (b b' : Bool)
    → b' ≡ b
    → s' ≡ grow base s
    → guard b' s' ≡ grow_result base (guard b s)
guard-grow base s s' b b' e f = ap₂ guard e f ∙ both b
  where
    both : (b : Bool) → guard b (grow base s) ≡ grow_result base (guard b s)
    both true = refl
    both false = refl

-- Beside a schema that is clear of it, an operation does what it does alone.
run-grow :
    (base s : Schema) (o : Operation)
    → IsClear base o
    → run o (grow base s) ≡ grow_result base (run o s)
unfolding run
run-grow base s (create_table t) (free, targets, types) =
    guard-grow base
      (record s { tables = s.tables ++ t ∷ []; types = s.types ++ enums_of t.columns })
      (record (grow base s) {
        tables = (base.tables ++ s.tables) ++ t ∷ [];
        types = (base.types ++ s.types) ++ enums_of t.columns;
      })
      (not (has_table t.name s.tables)
        && (all (λ n. has_table n s.tables) (targets_of t.constraints)
            && all (λ n. not (contains s.types n)) (enums_of t.columns)))
      (not (has_table t.name (base.tables ++ s.tables))
        && (all (λ n. has_table n (base.tables ++ s.tables)) (targets_of t.constraints)
            && all (λ n. not (contains (base.types ++ s.types) n)) (enums_of t.columns)))
      (ap₂ (λ a b. not a && b)
        (any-clear (λ (u : Table). u.name == t.name) base.tables s.tables free)
        (ap₂ (λ a b. a && b) (all-targets base.tables s.tables (targets_of t.constraints) targets)
          (all-types base.types s.types (enums_of t.columns) types)))
      (ap₂ (λ ts ns. record { tables = ts; indexes = base.indexes ++ s.indexes; types = ns })
        (append_assoc base.tables s.tables (t ∷ []))
        (append_assoc base.types s.types (enums_of t.columns)))
run-grow base s (create_index i) (table, free) =
    guard-grow base (record s { indexes = s.indexes ++ i ∷ [] })
      (record (grow base s) { indexes = (base.indexes ++ s.indexes) ++ i ∷ [] })
      (has_table i.table s.tables && not (has_index i.name s.indexes))
      (has_table i.table (base.tables ++ s.tables)
        && not (has_index i.name (base.indexes ++ s.indexes)))
      (ap₂ (λ a b. a && not b)
        (any-clear (λ (u : Table). u.name == i.table) base.tables s.tables table)
        (any-clear (λ (j : Index). j.name == i.name) base.indexes s.indexes free))
      (ap (λ is. record (grow base s) { indexes = is })
        (append_assoc base.indexes s.indexes (i ∷ [])))
run-grow base s (drop_table n) (free, unreferred, indexes) =
    guard-grow base
      (record s {
        tables = filter (λ (t : Table). not (t.name == n)) s.tables;
        indexes = filter (λ (i : Index). not (i.table == n)) s.indexes;
      })
      (record (grow base s) {
        tables = filter (λ (t : Table). not (t.name == n)) (base.tables ++ s.tables);
        indexes = filter (λ (i : Index). not (i.table == n)) (base.indexes ++ s.indexes);
      })
      (has_table n s.tables && not (is_referred n s.tables))
      (has_table n (base.tables ++ s.tables) && not (is_referred n (base.tables ++ s.tables)))
      (ap₂ (λ a b. a && not b) (any-clear (λ (t : Table). t.name == n) base.tables s.tables free)
        (any-clear (λ (t : Table). not (t.name == n) && contains (targets_of t.constraints) n)
          base.tables s.tables unreferred))
      (ap₂ (λ ts is. record { tables = ts; indexes = is; types = base.types ++ s.types })
        (filter-clear (λ (t : Table). t.name == n) base.tables s.tables free)
        (filter-clear (λ (i : Index). i.table == n) base.indexes s.indexes indexes))
run-grow base s (drop_type n) h =
    ap (λ ns. ok (record (grow base s) { types = ns })) (filter-names base.types s.types n h)

run_all-grow :
    (base : Schema) (os : List Operation) (s : Schema)
    → All (IsClear base) os
    → run_all os (grow base s) ≡ grow_result base (run_all os s)
unfolding run_all
run_all-grow base [] s h = refl
run_all-grow base (o ∷ os) s h = elim (Result-cases (run o s)) [
  | inl (e, bad) ↦ ground (arith, run-grow base s o h.0)
  | inr (s', good) ↦ ground (arith, run-grow base s o h.0, run_all-grow base os s' h.1)
]

abbrev nothing : Schema
nothing = record { tables = []; indexes = []; types = [] }

abbrev index_on : Str → Str → Str → Bool → Index
index_on name table column unique = record {
  name = name;
  table = table;
  columns = column ∷ [];
  unique = unique;
}

-- What the migration adds.
abbrev pub created : Schema
created = record {
  tables =
      prompts ∷ prompt_versions ∷ scoring_pipelines ∷ score_results ∷ experiments
      ∷ experiment_trials ∷ [];
  indexes =
      index_on (codes "ix_prompts_name") (codes "prompts") (codes "name") true
      ∷ index_on (codes "ix_score_results_trace_id") (codes "score_results") (codes "trace_id")
          false
      ∷ index_on (codes "ix_experiment_trials_experiment_id") (codes "experiment_trials")
          (codes "experiment_id") false
      ∷ index_on (codes "ix_experiment_trials_variant_id") (codes "experiment_trials")
          (codes "variant_id") false
      ∷ [];
  types = codes "promptenvironment" ∷ [];
}

upgrade-nothing : run_all upgrade nothing ≡ ok created
unfolding run_all upgrade str_eq
upgrade-nothing = refl

downgrade-created : run_all downgrade created ≡ ok nothing
unfolding run_all downgrade str_eq
downgrade-created = refl

grow-nothing : (base : Schema) → grow base nothing ≡ base
grow-nothing base =
    ap₂ (λ ts is. record { tables = ts; indexes = is; types = base.types ++ [] })
      (append-nil base.tables) (append-nil base.indexes)
    ∙ ap (λ ns. record base { types = ns }) (append-nil base.types)

-- In a database that has nothing under the names of the migration, whatever else it holds, the upgrade
-- succeeds and adds the six tables, the four indexes and the enumerated type, leaving the rest as it
-- is; the downgrade then succeeds, too, and leaves exactly the database from before.
pub downgrade-upgrade :
    (base : Schema)
    → All (IsClear base) upgrade
    → All (IsClear base) downgrade
    → (s : Schema) × (run_all upgrade base ≡ ok s)
      × (s.tables ≡ base.tables ++ created.tables)
      × (s.indexes ≡ base.indexes ++ created.indexes)
      × (s.types ≡ base.types ++ created.types)
      × (run_all downgrade s ≡ ok base)
downgrade-upgrade base up down = (
  grow base created,
  ap (run_all upgrade) (sym (grow-nothing base))
      ∙ run_all-grow base upgrade nothing up
      ∙ ap (grow_result base) upgrade-nothing,
  refl,
  refl,
  refl,
  run_all-grow base downgrade created down
      ∙ ap (grow_result base) downgrade-created
      ∙ ap ok (grow-nothing base),
)
