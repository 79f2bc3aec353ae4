-- ===== src/Schema/Versions.antt =====
-- backend/db/migrations/versions: the statements of the two migrations, in order.
use aerp.Prelude.{String, true, false, none, some, List, [], ◌∷◌}
use aerp.Schema.{
  Index, Op, create_extension, create_table, create_index, drop_index, drop_table, insert_into,
}
use aerp.Schema.Initial
use aerp.Schema.Initial.{index}

abbrev pub vector_index : Index
vector_index = record {
  name = "ix_embeddings_vector";
  table = "embeddings";
  columns = "embedding" ∷ [];
  unique = false;
  method = some ("hnsw", some "vector_cosine_ops");
}

abbrev pub seed_columns : List String
seed_columns =
    "id" ∷ "name" ∷ "display_name" ∷ "description" ∷ "auth_type" ∷ "oauth_authorize_url"
    ∷ "oauth_token_url" ∷ "required_scopes" ∷ "is_enabled" ∷ "created_at" ∷ "updated_at" ∷ []

-- The columns of the two INSERT statements of the program's own: in utils/pubsub.py and in
-- rag/indexer.py.
abbrev pub log_columns : List String
log_columns = "id" ∷ "pull_request_id" ∷ "agent_name" ∷ "status" ∷ "message" ∷ []

abbrev pub embedding_columns : List String
embedding_columns = "id" ∷ "pull_request_id" ∷ "source" ∷ "content" ∷ "metadata" ∷ "embedding" ∷ []

-- `upgrade` of e626b43574df
unfoldable pub upgrade : List Op
upgrade =
    create_extension "vector"
    ∷ create_extension "uuid-ossp"
    ∷ create_table Initial.third_party_integrations
    ∷ create_index
        (index "ix_third_party_integrations_name" "third_party_integrations" ("name" ∷ []) true)
    ∷ create_table Initial.users
    ∷ create_index (index "ix_users_email" "users" ("email" ∷ []) true)
    ∷ create_table Initial.pull_requests
    ∷ create_index (index "ix_pull_requests_status" "pull_requests" ("status" ∷ []) false)
    ∷ create_index (index "ix_pull_requests_user_id" "pull_requests" ("user_id" ∷ []) false)
    ∷ create_table Initial.refresh_tokens
    ∷ create_index (index "ix_refresh_tokens_user_id" "refresh_tokens" ("user_id" ∷ []) false)
    ∷ create_table Initial.third_party_user_accounts
    ∷ create_index (
        index "ix_third_party_user_accounts_user_id" "third_party_user_accounts" ("user_id" ∷ [])
          false)
    ∷ create_table Initial.comments
    ∷ create_index (index "ix_comments_pull_request_id" "comments" ("pull_request_id" ∷ []) false)
    ∷ create_index (index "ix_comments_status" "comments" ("status" ∷ []) false)
    ∷ create_table Initial.embeddings
    ∷ create_index
        (index "ix_embeddings_pull_request_id" "embeddings" ("pull_request_id" ∷ []) false)
    ∷ create_index (index "ix_embeddings_source" "embeddings" ("source" ∷ []) false)
    ∷ create_table Initial.human_decisions
    ∷ create_index (
        index "ix_human_decisions_pull_request_id" "human_decisions" ("pull_request_id" ∷ []) false)
    ∷ create_table Initial.review_logs
    ∷ create_index
        (index "ix_review_logs_pull_request_id" "review_logs" ("pull_request_id" ∷ []) false)
    ∷ create_index vector_index
    ∷ insert_into "third_party_integrations" seed_columns
    ∷ []

-- `downgrade` of e626b43574df
unfoldable pub downgrade : List Op
downgrade =
    drop_index "ix_review_logs_pull_request_id"
    ∷ drop_table "review_logs"
    ∷ drop_index "ix_human_decisions_pull_request_id"
    ∷ drop_table "human_decisions"
    ∷ drop_index "ix_embeddings_source"
    ∷ drop_index "ix_embeddings_pull_request_id"
    ∷ drop_table "embeddings"
    ∷ drop_index "ix_comments_status"
    ∷ drop_index "ix_comments_pull_request_id"
    ∷ drop_table "comments"
    ∷ drop_index "ix_third_party_user_accounts_user_id"
    ∷ drop_table "third_party_user_accounts"
    ∷ drop_index "ix_refresh_tokens_user_id"
    ∷ drop_table "refresh_tokens"
    ∷ drop_index "ix_pull_requests_user_id"
    ∷ drop_index "ix_pull_requests_status"
    ∷ drop_table "pull_requests"
    ∷ drop_index "ix_users_email"
    ∷ drop_table "users"
    ∷ drop_index "ix_third_party_integrations_name"
    ∷ drop_table "third_party_integrations"
    ∷ []

-- `upgrade` of 1f45463dc74e
unfoldable pub upgrade_integrations : List Op
upgrade_integrations = drop_index "ix_embeddings_vector" ∷ []

-- `downgrade` of 1f45463dc74e: the index is named with its method, and without an operator class.
unfoldable pub downgrade_integrations : List Op
downgrade_integrations = create_index (record vector_index { method = some ("hnsw", none) }) ∷ []
