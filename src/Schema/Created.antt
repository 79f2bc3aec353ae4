-- ===== src/Schema/Created.antt =====
-- What the first migration creates is what the models declare.
use aerp.Prelude.{◌≡◌, refl, ap, String, true, false, List, [], ◌∷◌, All}
use mathlib.Core.List.Perm
use mathlib.Core.List.{Perm}
use aerp.Schema.{Table, Index, Schema, cascade, set_null, ForeignKey, has_table, has_index}
use aerp.Schema.Mapped.{to_table, to_indexes, tables_of, indexes_of}
use aerp.Schema.Declared
use aerp.Schema.Declared.{models}
use aerp.Schema.Initial
use aerp.Schema.Initial.{index, foreign_key}

abbrev pub table_names : List String
table_names =
    "review_logs" ∷ "human_decisions" ∷ "embeddings" ∷ "comments" ∷ "third_party_user_accounts"
    ∷ "refresh_tokens" ∷ "pull_requests" ∷ "users" ∷ "third_party_integrations" ∷ []

abbrev pub index_names : List String
index_names =
    "ix_embeddings_vector" ∷ "ix_review_logs_pull_request_id" ∷ "ix_human_decisions_pull_request_id"
    ∷ "ix_embeddings_source" ∷ "ix_embeddings_pull_request_id" ∷ "ix_comments_status"
    ∷ "ix_comments_pull_request_id" ∷ "ix_third_party_user_accounts_user_id"
    ∷ "ix_refresh_tokens_user_id" ∷ "ix_pull_requests_user_id" ∷ "ix_pull_requests_status"
    ∷ "ix_users_email" ∷ "ix_third_party_integrations_name" ∷ []

-- The database has none of the tables and indexes of the program.
abbrev pub IsFresh : Schema → Type 0
IsFresh s =
    All (λ name. has_table name s.tables ≡ false) table_names
    × All (λ name. has_index name s.indexes ≡ false) index_names

-- The tables and the indexes of the first migration, the last one first.
abbrev pub created_tables : List Table
created_tables =
    Initial.review_logs ∷ Initial.human_decisions ∷ Initial.embeddings ∷ Initial.comments
    ∷ Initial.third_party_user_accounts ∷ Initial.refresh_tokens ∷ Initial.pull_requests
    ∷ Initial.users ∷ Initial.third_party_integrations ∷ []

abbrev pub created_indexes : List Index
created_indexes =
    index "ix_review_logs_pull_request_id" "review_logs" ("pull_request_id" ∷ []) false
    ∷ index "ix_human_decisions_pull_request_id" "human_decisions" ("pull_request_id" ∷ []) false
    ∷ index "ix_embeddings_source" "embeddings" ("source" ∷ []) false
    ∷ index "ix_embeddings_pull_request_id" "embeddings" ("pull_request_id" ∷ []) false
    ∷ index "ix_comments_status" "comments" ("status" ∷ []) false
    ∷ index "ix_comments_pull_request_id" "comments" ("pull_request_id" ∷ []) false
    ∷ index "ix_third_party_user_accounts_user_id" "third_party_user_accounts" ("user_id" ∷ [])
        false
    ∷ index "ix_refresh_tokens_user_id" "refresh_tokens" ("user_id" ∷ []) false
    ∷ index "ix_pull_requests_user_id" "pull_requests" ("user_id" ∷ []) false
    ∷ index "ix_pull_requests_status" "pull_requests" ("status" ∷ []) false
    ∷ index "ix_users_email" "users" ("email" ∷ []) true
    ∷ index "ix_third_party_integrations_name" "third_party_integrations" ("name" ∷ []) true
    ∷ []

-- The same table, but for the order of its foreign keys.
pub record SameTable (t u : Table) : Type 0 where
  pub same_name : t.name ≡ u.name
  pub same_columns : t.columns ≡ u.columns
  pub same_key : t.primary_key ≡ u.primary_key
  pub same_uniques : t.uniques ≡ u.uniques
  pub same_foreign_keys : Perm t.foreign_keys u.foreign_keys

abbrev pub SameTables : List Table → List Table → Type 0
SameTables [] [] = Unit
SameTables [] (u ∷ us) = ⊥
SameTables (t ∷ ts) [] = ⊥
SameTables (t ∷ ts) (u ∷ us) = SameTable t u × SameTables ts us

same : {t u : Table} → t ≡ u → SameTable t u
same {t} e = record {
  same_name = ap (λ (x : Table). x.name) e;
  same_columns = ap (λ (x : Table). x.columns) e;
  same_key = ap (λ (x : Table). x.primary_key) e;
  same_uniques = ap (λ (x : Table). x.uniques) e;
  same_foreign_keys = rw e (Perm.refl _);
}

same_swapped :
    (t : Table) (j k : ForeignKey)
    → SameTable (record t { foreign_keys = j ∷ k ∷ [] }) (record t { foreign_keys = k ∷ j ∷ [] })
same_swapped t j k = record {
  same_name = refl;
  same_columns = refl;
  same_key = refl;
  same_uniques = refl;
  same_foreign_keys = Perm.swap k j [];
}

pub created-tables_of : SameTables created_tables (tables_of models)
unfolding tables_of to_table to_indexes Declared.third_party_integrations_model Declared.users_model
    Declared.pull_requests_model Declared.refresh_tokens_model
    Declared.third_party_user_accounts_model Declared.comments_model Declared.embeddings_model
    Declared.human_decisions_model Declared.review_logs_model Initial.third_party_integrations
    Initial.users Initial.pull_requests Initial.refresh_tokens Initial.third_party_user_accounts
    Initial.comments Initial.embeddings Initial.human_decisions Initial.review_logs
created-tables_of = (
  same refl,
  (
    same refl,
    (
      same refl,
      (
        same_swapped Initial.comments (foreign_key "merged_into_id" "comments" "id" set_null)
            (foreign_key "pull_request_id" "pull_requests" "id" cascade),
        (
          same_swapped Initial.third_party_user_accounts
              (foreign_key "integration_id" "third_party_integrations" "id" cascade)
              (foreign_key "user_id" "users" "id" cascade),
          (same refl, (same refl, (same refl, (same refl, tt)))),
        ),
      ),
    ),
  ),
)

pub created-indexes_of : Perm created_indexes (indexes_of models)
unfolding indexes_of to_table to_indexes Declared.third_party_integrations_model
    Declared.users_model Declared.pull_requests_model Declared.refresh_tokens_model
    Declared.third_party_user_accounts_model Declared.comments_model Declared.embeddings_model
    Declared.human_decisions_model Declared.review_logs_model Initial.third_party_integrations
    Initial.users Initial.pull_requests Initial.refresh_tokens Initial.third_party_user_accounts
    Initial.comments Initial.embeddings Initial.human_decisions Initial.review_logs
created-indexes_of = Perm.cons _ (
    Perm.cons _ (
      Perm.trans (Perm.swap _ _ _) (
        Perm.cons _
          (Perm.cons _ (Perm.trans (Perm.swap _ _ _) (Perm.cons _ (Perm.cons _ (Perm.refl _))))))))
