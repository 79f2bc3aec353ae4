-- ===== src/Tests/Schemas.antt =====
-- The migrations at concrete databases.
use aerp.Prelude.{◌≡◌, refl, String, str_eq, Bool, false, true, none, some, List, [], ◌∷◌, ◌++◌, ok}
use mathlib.Core.List.{Perm}
use aerp.Database.{Db}
use aerp.Tasks.Review.{stored_token, github_account}
use aerp.Integrations.{connect_integration_pat}
use aerp.Schema.{Table, Index, Schema, run, then_run, insert_into, uuid}
use aerp.Schema.Mapped.{tables_of, indexes_of}
use aerp.Schema.Declared.{models}
use aerp.Schema.Initial.{column, index}
use aerp.Schema.Versions.{
  upgrade, upgrade_integrations, downgrade, downgrade_integrations, log_columns, embedding_columns,
}
use aerp.Schema.Seed.{seed_integrations, seed_integrations-connects}
use aerp.Schema.Created.{SameTables, IsFresh}
use aerp.Schema.Laws.{migrations-declared, inserts-taken}
use aerp.Schema.Downgrades.{IsApart, downgrade-restores, downgrades-restored}
use aerp.Tests.Accounts
use aerp.Tests.Accounts.{fernet, empty_db}

-- pgvector marks a default operator class for the method ivfflat only.
abbrev has_default : String → Bool
has_default method = str_eq method "ivfflat"

-- A database that another program has a table and an index in.
abbrev shared : Schema
shared = record {
  extensions = [];
  tables =
      record {
        name = "jobs";
        columns = column "id" uuid false ∷ [];
        foreign_keys = [];
        primary_key = "id";
        uniques = [];
      }
      ∷ [];
  indexes = index "ix_jobs_id" "jobs" ("id" ∷ []) true ∷ [];
}

shared-IsFresh : IsFresh shared
shared-IsFresh = (
  (refl, (refl, (refl, (refl, (refl, (refl, (refl, (refl, (refl, tt))))))))),
  (
    refl,
    (
      refl,
      (refl, (refl, (refl, (refl, (refl, (refl, (refl, (refl, (refl, (refl, (refl, tt))))))))))),
    ),
  ),
)

shared-IsApart : IsApart shared
shared-IsApart = (
  (refl, refl),
  (
    (refl, refl),
    (
      (refl, refl),
      (
        (refl, refl),
        ((refl, refl), ((refl, refl), ((refl, refl), ((refl, refl), ((refl, refl), tt))))),
      ),
    ),
  ),
)

migrations-declared_example :
    (t : Schema) × (new_tables : List Table) × (new_indexes : List Index) × (then_run
        (run has_default upgrade shared)
        (run has_default upgrade_integrations)
      ≡ some t)
    × (t.tables ≡ new_tables ++ shared.tables)
    × SameTables new_tables (tables_of models)
    × (t.indexes ≡ new_indexes ++ shared.indexes)
    × Perm new_indexes (indexes_of models)
migrations-declared_example = migrations-declared has_default shared shared-IsFresh

seed_integrations-connects_example :
    (connected : Db) × (connect_integration_pat fernet "github" "secret" "u1"
        (seed_integrations Accounts.uuid empty_db)
      ≡ (ok "Successfully connected to GitHub", connected))
    × (stored_token fernet (github_account connected "u1") ≡ ok (some "secret"))
seed_integrations-connects_example =
    seed_integrations-connects fernet Accounts.uuid "secret" "u1" empty_db refl refl

downgrade-restores_example :
    (t : Schema) × (then_run (run has_default upgrade shared) (run has_default downgrade) ≡ some t)
    × (t.tables ≡ shared.tables)
    × (t.indexes ≡ shared.indexes)
downgrade-restores_example = downgrade-restores has_default shared shared-IsFresh shared-IsApart

downgrades-restored_example :
    then_run
      (then_run
        (then_run (run has_default upgrade shared) (run has_default upgrade_integrations))
        (run has_default downgrade_integrations))
      (run has_default downgrade)
    ≡ none
downgrades-restored_example = downgrades-restored has_default shared shared-IsFresh shared-IsApart

inserts-taken_example :
    (t : Schema) × (then_run (run has_default upgrade shared) (run has_default upgrade_integrations)
      ≡ some t)
    × (run has_default
          (insert_into "review_logs" log_columns ∷ insert_into "embeddings" embedding_columns ∷ [])
          t
        ≡ some t)
inserts-taken_example = inserts-taken has_default shared shared-IsFresh
