-- ===== src/Migrations.antt =====
-- db/migrations/versions/6bb66dd772ba_initial_schema.py: the initial schema, as the operations that alembic
-- runs, over the tables, indexes and enumerated types of a database.
pub mod Undone
use llmops_platform.Prelude.{
  ℕ, Str, codes, Bool, true, false, not, ◌&&◌, ◌||◌, Option, none, some, List, [], ◌∷◌, ◌++◌, ◌==◌,
  string_eq, if◌then◌else◌, any, all, filter, map, contains, Result, ok, err, Exc, ◌>>=◌,
}

pub data ColumnType : Type 0 where
  uuid timestamp text boolean integer json float : ColumnType
  string : ℕ → ColumnType
  enum : (name : Str) → (values : List Str) → ColumnType

pub record Column : Type 0 where
  pub name : Str
  pub type : ColumnType
  pub nullable : Bool
  pub server_default : Option Str
  pub unique : Bool

pub data Constraint : Type 0 where
  primary_key : List Str → Constraint
  foreign_key : (column table target : Str) → (cascade : Bool) → Constraint
  unique_constraint : (name : Str) → List Str → Constraint

pub record Table : Type 0 where
  pub name : Str
  pub columns : List Column
  pub constraints : List Constraint

pub record Index : Type 0 where
  pub name : Str
  pub table : Str
  pub columns : List Str
  pub unique : Bool

pub record Schema : Type 0 where
  pub tables : List Table
  pub indexes : List Index
  pub types : List Str

abbrev pub enum_of : ColumnType → List Str
enum_of (enum name values) = name ∷ []
enum_of _ = []

abbrev pub enums_of : List Column → List Str
enums_of [] = []
enums_of (c ∷ cs) = enum_of c.type ++ enums_of cs

abbrev pub targets_of : List Constraint → List Str
targets_of [] = []
targets_of (foreign_key column table target cascade ∷ cs) = table ∷ targets_of cs
targets_of (primary_key columns ∷ cs) = targets_of cs
targets_of (unique_constraint name columns ∷ cs) = targets_of cs

-- A call of `op`; `drop_type` is `DROP TYPE IF EXISTS`.
pub data Operation : Type 0 where
  create_table : Table → Operation
  create_index : Index → Operation
  drop_table : Str → Operation
  drop_type : Str → Operation

abbrev pub has_table : Str → List Table → Bool
has_table name ts = any (λ (t : Table). t.name == name) ts

abbrev pub has_index : Str → List Index → Bool
has_index name is = any (λ (i : Index). i.name == name) is

-- A table whose foreign key names another one.
abbrev pub is_referred : Str → List Table → Bool
is_referred name ts =
    any (λ (t : Table). not (t.name == name) && contains (targets_of t.constraints) name) ts

abbrev guard : Bool → Schema → Result Schema
guard true s = ok s
guard false s = err Exc.other

-- What the database makes of an operation: it refuses a name that is taken, and one that is missing.
unfoldable pub run : Operation → Schema → Result Schema
run (create_table t) s =
    guard
      (not (has_table t.name s.tables)
        && (all (λ n. has_table n s.tables) (targets_of t.constraints)
            && all (λ n. not (contains s.types n)) (enums_of t.columns)))
      (record s { tables = s.tables ++ t ∷ []; types = s.types ++ enums_of t.columns })
run (create_index i) s =
    guard (has_table i.table s.tables && not (has_index i.name s.indexes))
      (record s { indexes = s.indexes ++ i ∷ [] })
run (drop_table name) s =
    guard (has_table name s.tables && not (is_referred name s.tables)) (record s {
      tables = filter (λ (t : Table). not (t.name == name)) s.tables;
      indexes = filter (λ (i : Index). not (i.table == name)) s.indexes;
    })
run (drop_type name) s = ok (record s { types = filter (λ n. not (n == name)) s.types })

unfoldable pub run_all : List Operation → Schema → Result Schema
unfolding run
run_all [] s = ok s
run_all (o ∷ os) s = run o s >>= run_all os

abbrev column : Str → ColumnType → Bool → Option Str → Column
column name type nullable default = record {
  name = name;
  type = type;
  nullable = nullable;
  server_default = default;
  unique = false;
}

-- `_id_col`, `_ts_cols`
abbrev id_col : Column
id_col = column (codes "id") uuid false none

abbrev ts_cols : List Column
ts_cols =
    column (codes "created_at") timestamp false (some (codes "now()"))
    ∷ column (codes "updated_at") timestamp false (some (codes "now()"))
    ∷ []

abbrev unique_name : Column
unique_name = record {
  name = codes "name";
  type = string 255;
  nullable = false;
  server_default = none;
  unique = true;
}

abbrev pub prompts : Table
prompts = record {
  name = codes "prompts";
  columns =
      id_col ∷ ts_cols
      ++ column (codes "name") (string 255) false none
        ∷ column (codes "description") text true (some [])
        ∷ column (codes "is_active") boolean false (some (codes "true"))
        ∷ [];
  constraints = primary_key (codes "id" ∷ []) ∷ [];
}

abbrev pub prompt_versions : Table
prompt_versions = record {
  name = codes "prompt_versions";
  columns =
      id_col ∷ ts_cols
      ++ column (codes "prompt_id") uuid false none
        ∷ column (codes "version") integer false none
        ∷ column (codes "template") text false none
        ∷ column (codes "environment")
            (enum (codes "promptenvironment")
              (codes "draft" ∷ codes "staging" ∷ codes "production" ∷ []))
            false (some (codes "draft"))
        ∷ column (codes "variables") json false (some (codes "{}"))
        ∷ column (codes "metadata") json true (some (codes "{}"))
        ∷ column (codes "change_note") text true (some [])
        ∷ [];
  constraints =
      primary_key (codes "id" ∷ [])
      ∷ foreign_key (codes "prompt_id") (codes "prompts") (codes "id") true
      ∷ unique_constraint (codes "uq_prompt_version") (codes "prompt_id" ∷ codes "version" ∷ [])
      ∷ [];
}

abbrev pub scoring_pipelines : Table
scoring_pipelines = record {
  name = codes "scoring_pipelines";
  columns =
      id_col ∷ ts_cols
      ++ unique_name
        ∷ column (codes "description") text true (some [])
        ∷ column (codes "scorers_config") json false none
        ∷ column (codes "is_active") boolean false (some (codes "true"))
        ∷ [];
  constraints = primary_key (codes "id" ∷ []) ∷ [];
}

abbrev pub score_results : Table
score_results = record {
  name = codes "score_results";
  columns =
      id_col ∷ ts_cols
      ++ column (codes "pipeline_id") uuid false none
        ∷ column (codes "trace_id") (string 255) false none
        ∷ column (codes "input_text") text false none
        ∷ column (codes "output_text") text false none
        ∷ column (codes "reference_text") text true none
        ∷ column (codes "aggregate_score") float false none
        ∷ column (codes "individual_scores") json false none
        ∷ column (codes "metadata") json true none
        ∷ [];
  constraints =
      primary_key (codes "id" ∷ [])
      ∷ foreign_key (codes "pipeline_id") (codes "scoring_pipelines") (codes "id") false
      ∷ [];
}

abbrev pub experiments : Table
experiments = record {
  name = codes "experiments";
  columns =
      id_col ∷ ts_cols
      ++ unique_name
        ∷ column (codes "description") text true (some [])
        ∷ column (codes "status") (string 50) false (some (codes "draft"))
        ∷ column (codes "allocation_strategy") (string 50) false (some (codes "ab_test"))
        ∷ column (codes "parameter_space") json false none
        ∷ column (codes "variants") json false none
        ∷ column (codes "scoring_pipeline_id") (string 255) true none
        ∷ column (codes "traffic_percentage") float false (some (codes "100.0"))
        ∷ column (codes "winner_variant_id") (string 255) true none
        ∷ column (codes "concluded_at") timestamp true none
        ∷ [];
  constraints = primary_key (codes "id" ∷ []) ∷ [];
}

abbrev pub experiment_trials : Table
experiment_trials = record {
  name = codes "experiment_trials";
  columns =
      id_col ∷ ts_cols
      ++ column (codes "experiment_id") uuid false none
        ∷ column (codes "variant_id") (string 255) false none
        ∷ column (codes "trace_id") (string 255) false none
        ∷ column (codes "parameters") json false none
        ∷ column (codes "input_text") text false none
        ∷ column (codes "output_text") text true (some [])
        ∷ column (codes "score") float true none
        ∷ column (codes "metadata") json true none
        ∷ [];
  constraints = primary_key (codes "id" ∷ []) ∷ [];
}

abbrev index : Str → Str → Str → Bool → Operation
index name table column unique =
    create_index (record { name = name; table = table; columns = column ∷ []; unique = unique })

-- `upgrade`
unfoldable pub upgrade : List Operation
upgrade =
    create_table prompts
    ∷ index (codes "ix_prompts_name") (codes "prompts") (codes "name") true
    ∷ create_table prompt_versions
    ∷ create_table scoring_pipelines
    ∷ create_table score_results
    ∷ index (codes "ix_score_results_trace_id") (codes "score_results") (codes "trace_id") false
    ∷ create_table experiments
    ∷ create_table experiment_trials
    ∷ index (codes "ix_experiment_trials_experiment_id") (codes "experiment_trials")
        (codes "experiment_id") false
    ∷ index (codes "ix_experiment_trials_variant_id") (codes "experiment_trials")
        (codes "variant_id") false
    ∷ []

-- `downgrade`
unfoldable pub downgrade : List Operation
downgrade =
    drop_table (codes "experiment_trials")
    ∷ drop_table (codes "experiments")
    ∷ drop_table (codes "score_results")
    ∷ drop_table (codes "scoring_pipelines")
    ∷ drop_table (codes "prompt_versions")
    ∷ drop_table (codes "prompts")
    ∷ drop_type (codes "promptenvironment")
    ∷ []
