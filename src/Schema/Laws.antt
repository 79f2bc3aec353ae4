-- ===== src/Schema/Laws.antt =====
-- What the migrations make of a database.
use aerp.Prelude.{◌≡◌, refl, String, Bool, some, List, [], ◌∷◌, ◌++◌}
use mathlib.Core.List.{Perm}
use aerp.Schema.{Table, Index, Schema, insert_into, then_run, with_extension, apply, run}
use aerp.Schema.Mapped.{tables_of, indexes_of}
use aerp.Schema.Declared.{models}
use aerp.Schema.Initial
use aerp.Schema.Initial.{index, foreign_key}
use aerp.Schema.Versions.{
  upgrade, upgrade_integrations, vector_index, log_columns, embedding_columns,
}
use package.aerp.Schema.Created.{
  IsFresh, created_tables, created_indexes, SameTables, created-tables_of, created-indexes_of,
}
use package.aerp.Schema.Steps.{
  Runs, by_extension, by_table, by_index, by_insert, at_end, by_drop_index,
}

module _ (has_default_class : String → Bool) where
  -- After the first migration.
  abbrev pub migrated : Schema → Schema
  migrated s = record {
    extensions = with_extension "uuid-ossp" (with_extension "vector" s.extensions);
    tables = created_tables ++ s.tables;
    indexes = vector_index ∷ (created_indexes ++ s.indexes);
  }

  pub upgrade-Runs : (s : Schema) → IsFresh s → Runs has_default_class upgrade s (migrated s)
  unfolding upgrade Initial.third_party_integrations Initial.users Initial.pull_requests
      Initial.refresh_tokens Initial.third_party_user_accounts Initial.comments Initial.embeddings
      Initial.human_decisions Initial.review_logs
  upgrade-Runs s
        (
          (t0, (t1, (t2, (t3, (t4, (t5, (t6, (t7, (t8, _))))))))),
          (i0, (i1, (i2, (i3, (i4, (i5, (i6, (i7, (i8, (i9, (i10, (i11, (i12, _))))))))))))),
        ) =
      by_extension (
        by_extension (
          by_table t8 refl (
            by_index i12 refl refl (
              by_table t7 refl (
                by_index i11 refl refl (
                  by_table t6 refl (
                    by_index i10 refl refl (
                      by_index i9 refl refl (
                        by_table t5 refl (
                          by_index i8 refl refl (
                            by_table t4 refl (
                              by_index i7 refl refl (
                                by_table t3 refl (
                                  by_index i6 refl refl (
                                    by_index i5 refl refl (
                                      by_table t2 refl (
                                        by_index i4 refl refl (
                                          by_index i3 refl refl (
                                            by_table t1 refl (
                                              by_index i2 refl refl (
                                                by_table t0 refl (
                                                  by_index i1 refl refl (
                                                    by_index i0 refl refl (
                                                      by_insert refl
                                                        (at_end)))))))))))))))))))))))))

  -- After both migrations.
  abbrev pub current : Schema → Schema
  current s = record (migrated s) { indexes = created_indexes ++ s.indexes }

  pub upgrade_integrations-Runs :
      (s : Schema)
      → IsFresh s
      → Runs has_default_class upgrade_integrations (migrated s) (current s)
  unfolding upgrade_integrations
  upgrade_integrations-Runs s (tables, (i0, others)) = by_drop_index refl i0 at_end

  -- On a database that has none of the program's tables and indexes, both migrations run, whatever
  -- default operator classes there are, and they add exactly the tables that the models declare,
  -- each with the declared columns, constraints and, in some order, foreign keys, and exactly the
  -- declared indexes; all else in the database stays.
  pub migrations-declared :
      (s : Schema)
      → IsFresh s
      → (t : Schema) × (new_tables : List Table) × (new_indexes : List Index) × (then_run
            (run has_default_class upgrade s)
            (run has_default_class upgrade_integrations)
          ≡ some t)
        × (t.tables ≡ new_tables ++ s.tables)
        × SameTables new_tables (tables_of models)
        × (t.indexes ≡ new_indexes ++ s.indexes)
        × Perm new_indexes (indexes_of models)
  migrations-declared s h = (
    current s,
    created_tables,
    created_indexes,
    rw ((upgrade-Runs s h).result) ((upgrade_integrations-Runs s h).result),
    refl,
    created-tables_of,
    refl,
    created-indexes_of,
  )

  inserts-Runs :
      (s : Schema)
      → run has_default_class
          (insert_into "review_logs" log_columns ∷ insert_into "embeddings" embedding_columns ∷ [])
          (current s)
        ≡ some (current s)
  unfolding run apply Initial.third_party_integrations Initial.users Initial.pull_requests
      Initial.refresh_tokens Initial.third_party_user_accounts Initial.comments Initial.embeddings
      Initial.human_decisions Initial.review_logs
  inserts-Runs s = refl

  -- On a database that has none of the program's tables and indexes, both migrations run, and
  -- after them the rows that the progress messages and the indexer insert with SQL of their own
  -- are well formed for the tables: the columns that they name are there, and each column that
  -- they leave out may be null or has a default.
  pub inserts-taken :
      (s : Schema)
      → IsFresh s
      → (t : Schema) × (then_run
            (run has_default_class upgrade s)
            (run has_default_class upgrade_integrations)
          ≡ some t)
        × (run has_default_class
              (insert_into "review_logs" log_columns
                ∷ insert_into "embeddings" embedding_columns
                ∷ [])
              t
            ≡ some t)
  inserts-taken s h = (
    current s,
    rw ((upgrade-Runs s h).result) ((upgrade_integrations-Runs s h).result),
    inserts-Runs s,
  )
