-- ===== src/Tests/Migrations.antt =====
-- The migration of src/llmops/db/migrations at a database that holds a table and an index of its own.
use llmops_platform.Prelude.{
  ◌≡◌, refl, codes, true, false, none, [], ◌∷◌, ◌++◌, All, ok, string_eq, str_eq,
}
use llmops_platform.Migrations.{Schema, uuid, run_all, upgrade, downgrade}
use llmops_platform.Migrations.Undone.{IsClear, created, downgrade-upgrade}

abbrev other : Schema
other = record {
  tables =
      record {
        name = codes "alembic_version";
        columns =
            record {
              name = codes "version_num";
              type = uuid;
              nullable = false;
              server_default = none;
              unique = true;
            }
            ∷ [];
        constraints = [];
      }
      ∷ [];
  indexes =
      record {
        name = codes "ix_version";
        table = codes "alembic_version";
        columns = codes "version_num" ∷ [];
        unique = true;
      }
      ∷ [];
  types = [];
}

up : All (IsClear other) upgrade
unfolding upgrade str_eq
up = (
  (refl, tt, tt),
  (
    (refl, refl),
    (
      (refl, (refl, tt), (refl, tt)),
      (
        (refl, tt, tt),
        (
          (refl, (refl, tt), tt),
          ((refl, refl), ((refl, tt, tt), ((refl, tt, tt), ((refl, refl), ((refl, refl), tt))))),
        ),
      ),
    ),
  ),
)

down : All (IsClear other) downgrade
unfolding downgrade str_eq
down = (
  (refl, refl, refl),
  (
    (refl, refl, refl),
    (
      (refl, refl, refl),
      ((refl, refl, refl), ((refl, refl, refl), ((refl, refl, refl), (refl, tt)))),
    ),
  ),
)

downgrade-upgrade_example :
    (s : Schema) × (run_all upgrade other ≡ ok s)
    × (s.tables ≡ other.tables ++ created.tables)
    × (s.indexes ≡ other.indexes ++ created.indexes)
    × (s.types ≡ other.types ++ created.types)
    × (run_all downgrade s ≡ ok other)
downgrade-upgrade_example = downgrade-upgrade other up down
