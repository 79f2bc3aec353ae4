-- ===== src/Schema/Downgrades.antt =====
-- The migrations taken back, in the order in which Alembic takes them back.
use aerp.Prelude.{
  ◌≡◌, refl, any_of, String, Bool, false, Option, none, some, ◌∷◌, ◌++◌, All, Bool-cases, inl, inr,
  if◌then◌else◌,
}
use aerp.Schema.{Schema, then_run, with_extension, run, refers_to, apply}
use aerp.Schema.Initial
use aerp.Schema.Initial.{index, foreign_key}
use aerp.Schema.Versions.{
  upgrade, upgrade_integrations, downgrade, vector_index, downgrade_integrations,
}
use package.aerp.Schema.Created.{table_names, IsFresh, created_indexes}
use package.aerp.Schema.Steps.{
  Runs, is_on, at_end, by_drop_index, by_drop_index_under, by_drop_table, by_drop_table_with,
}
use package.aerp.Schema.Laws.{migrated, current, upgrade-Runs, upgrade_integrations-Runs}

-- Nothing in the database refers to the tables of the program.
abbrev pub IsApart : Schema → Type 0
IsApart s =
    All
      (λ name. (any_of (refers_to name) s.tables ≡ false) × (any_of (is_on name) s.indexes ≡ false))
      table_names

module _ (has_default_class : String → Bool) where
  -- After the first migration, with this method of the index on the vectors.
  abbrev held : Option (String × Option String) → Schema → Schema
  held m s = record (migrated has_default_class s) {
    indexes = record vector_index { method = m } ∷ (created_indexes ++ s.indexes);
  }

  downgrade-Runs :
      (m : Option (String × Option String)) (s : Schema)
      → IsFresh s
      → IsApart s
      → Runs has_default_class downgrade
          (held m s)
          (record s { extensions = (migrated has_default_class s).extensions })
  unfolding downgrade Initial.third_party_integrations Initial.users Initial.pull_requests
      Initial.refresh_tokens Initial.third_party_user_accounts Initial.comments Initial.embeddings
      Initial.human_decisions Initial.review_logs
  downgrade-Runs m s
        (
          (t0, (t1, (t2, (t3, (t4, (t5, (t6, (t7, (t8, _))))))))),
          (i0, (i1, (i2, (i3, (i4, (i5, (i6, (i7, (i8, (i9, (i10, (i11, (i12, _))))))))))))),
        )
        (a0, (a1, (a2, (a3, (a4, (a5, (a6, (a7, (a8, _))))))))) =
      by_drop_index_under refl refl i1 (
        by_drop_table refl t0 a0.0 a0.1 (
          by_drop_index_under refl refl i2 (
            by_drop_table refl t1 a1.0 a1.1 (
              by_drop_index_under refl refl i3 (
                by_drop_index_under refl refl i4 (
                  by_drop_table_with refl refl t2 a2.0 a2.1 (
                    by_drop_index refl i5 (
                      by_drop_index refl i6 (
                        by_drop_table refl t3 a3.0 a3.1 (
                          by_drop_index refl i7 (
                            by_drop_table refl t4 a4.0 a4.1 (
                              by_drop_index refl i8 (
                                by_drop_table refl t5 a5.0 a5.1 (
                                  by_drop_index refl i9 (
                                    by_drop_index refl i10 (
                                      by_drop_table refl t6 a6.0 a6.1 (
                                        by_drop_index refl i11 (
                                          by_drop_table refl t7 a7.0 a7.1 (
                                            by_drop_index refl i12 (
                                              by_drop_table refl t8 a8.0 a8.1
                                                (at_end)))))))))))))))))))))

  -- On a database that has none of the program's tables and indexes, and nothing that refers to
  -- tables of their names, the first migration runs and can be taken back, and its downgrade
  -- leaves the tables and the indexes that there were before.
  pub downgrade-restores :
      (s : Schema)
      → IsFresh s
      → IsApart s
      → (t : Schema) × (then_run (run has_default_class upgrade s) (run has_default_class downgrade)
          ≡ some t)
        × (t.tables ≡ s.tables)
        × (t.indexes ≡ s.indexes)
  downgrade-restores s h apart = (
    record s { extensions = (migrated has_default_class s).extensions },
    rw ((upgrade-Runs has_default_class s h).result)
        ((downgrade-Runs (some ("hnsw", some "vector_cosine_ops")) s h apart).result),
    refl,
    refl,
  )

  restore_index :
      (s : Schema)
      → IsFresh s
      → run has_default_class downgrade_integrations (current has_default_class s)
        ≡ (if has_default_class "hnsw" then some (held (some ("hnsw", none)) s) else none)
  unfolding run apply downgrade_integrations Initial.embeddings Initial.human_decisions
      Initial.review_logs
  restore_index s (tables, (i0, others)) = elim (Bool-cases (has_default_class "hnsw")) [
    | inl e ↦ rw (i0, e) refl
    | inr e ↦ rw (i0, e) refl
  ]

  -- On a database that has none of the program's tables and indexes, and nothing that refers to
  -- tables of their names, both migrations, taken back in the order opposite to theirs, leave the
  -- tables and the indexes that there were before if hnsw has a default operator class for
  -- vectors; if it has none, the database refuses.
  pub downgrades-restored :
      (s : Schema)
      → IsFresh s
      → IsApart s
      → then_run
          (then_run
            (then_run
              (run has_default_class upgrade s)
              (run has_default_class upgrade_integrations))
            (run has_default_class downgrade_integrations))
          (run has_default_class downgrade)
        ≡ (if has_default_class "hnsw"
            then some (record s {
              extensions = with_extension "uuid-ossp" (with_extension "vector" s.extensions);
            })
            else none)
  downgrades-restored s h apart =
      let back = restore_index s h in
      rw
        (
          (upgrade-Runs has_default_class s h).result,
          (upgrade_integrations-Runs has_default_class s h).result,
          back,
        )
        (elim (Bool-cases (has_default_class "hnsw")) [
          | inl e ↦ rw e ((downgrade-Runs (some ("hnsw", none)) s h apart).result)
          | inr e ↦ rw e refl
        ])
