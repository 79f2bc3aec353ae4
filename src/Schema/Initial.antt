-- ===== src/Schema/Initial.antt =====
-- backend/db/migrations/versions/e626b43574df: the tables and indexes that `upgrade` creates.
use aerp.Prelude.{String, Bool, true, false, none, some, List, [], ◌∷◌}
use aerp.Schema.{
  ColumnType, uuid, text, boolean, integer, float, timestamp, jsonb, string, vector, Column,
  cascade, set_null, OnDelete, ForeignKey, Table, Index,
}

-- `sa.Column(name, type, nullable=…)`
abbrev pub column : String → ColumnType → Bool → Column
column name column_type nullable = record {
  name = name;
  column_type = column_type;
  nullable = nullable;
  server_default = none;
}

-- `sa.Column(name, sa.DateTime(timezone=True), server_default=sa.text("now()"), nullable=False)`
abbrev pub now_column : String → Column
now_column name = record {
  name = name;
  column_type = timestamp;
  nullable = false;
  server_default = some "now()";
}

abbrev pub foreign_key : String → String → String → OnDelete → ForeignKey
foreign_key name target target_column on_delete = record {
  column = name;
  target = target;
  target_column = target_column;
  on_delete = on_delete;
}

abbrev pub index : String → String → List String → Bool → Index
index name table columns unique = record {
  name = name;
  table = table;
  columns = columns;
  unique = unique;
  method = none;
}

unfoldable pub third_party_integrations : Table
third_party_integrations = record {
  name = "third_party_integrations";
  columns =
      column "id" uuid false
      ∷ column "name" text false
      ∷ column "display_name" text false
      ∷ column "description" text true
      ∷ column "logo_url" text true
      ∷ column "auth_type" text false
      ∷ column "oauth_authorize_url" text true
      ∷ column "oauth_token_url" text true
      ∷ column "required_scopes" text true
      ∷ column "docs_url" text true
      ∷ column "is_enabled" boolean false
      ∷ now_column "created_at"
      ∷ now_column "updated_at"
      ∷ [];
  foreign_keys = [];
  primary_key = "id";
  uniques = [];
}

unfoldable pub users : Table
users = record {
  name = "users";
  columns =
      column "id" uuid false
      ∷ column "email" (string (some 255)) false
      ∷ column "password_hash" text true
      ∷ column "first_name" text true
      ∷ column "middle_name" text true
      ∷ column "last_name" text true
      ∷ column "avatar_url" text true
      ∷ column "is_active" boolean false
      ∷ column "is_email_verified" boolean false
      ∷ column "last_login_at" (string none) true
      ∷ now_column "created_at"
      ∷ now_column "updated_at"
      ∷ [];
  foreign_keys = [];
  primary_key = "id";
  uniques = [];
}

unfoldable pub pull_requests : Table
pull_requests = record {
  name = "pull_requests";
  columns =
      column "id" uuid false
      ∷ column "user_id" uuid true
      ∷ column "pr_url" text false
      ∷ column "jira_url" text true
      ∷ column "doc_url" text true
      ∷ column "status" text false
      ∷ column "risk_score" integer true
      ∷ column "recommendation" text true
      ∷ column "llm_provider" text true
      ∷ column "llm_model" text true
      ∷ column "task_id" text true
      ∷ column "error" text true
      ∷ column "completed_at" timestamp true
      ∷ now_column "created_at"
      ∷ now_column "updated_at"
      ∷ [];
  foreign_keys = foreign_key "user_id" "users" "id" set_null ∷ [];
  primary_key = "id";
  uniques = [];
}

unfoldable pub refresh_tokens : Table
refresh_tokens = record {
  name = "refresh_tokens";
  columns =
      column "id" uuid false
      ∷ column "user_id" uuid false
      ∷ column "token_hash" text false
      ∷ column "expires_at" timestamp false
      ∷ column "revoked_at" timestamp true
      ∷ column "device_info" text true
      ∷ column "ip_address" text true
      ∷ now_column "created_at"
      ∷ now_column "updated_at"
      ∷ [];
  foreign_keys = foreign_key "user_id" "users" "id" cascade ∷ [];
  primary_key = "id";
  uniques = ("token_hash" ∷ []) ∷ [];
}

unfoldable pub third_party_user_accounts : Table
third_party_user_accounts = record {
  name = "third_party_user_accounts";
  columns =
      column "id" uuid false
      ∷ column "user_id" uuid false
      ∷ column "integration_id" uuid false
      ∷ column "access_token_encrypted" text false
      ∷ column "credentials" jsonb false
      ∷ column "provider_user_id" text true
      ∷ column "provider_email" text true
      ∷ column "provider_username" text true
      ∷ column "granted_scopes" text true
      ∷ column "is_active" boolean false
      ∷ now_column "created_at"
      ∷ now_column "updated_at"
      ∷ [];
  foreign_keys =
      foreign_key "integration_id" "third_party_integrations" "id" cascade
      ∷ foreign_key "user_id" "users" "id" cascade
      ∷ [];
  primary_key = "id";
  uniques = ("user_id" ∷ "integration_id" ∷ []) ∷ [];
}

unfoldable pub comments : Table
comments = record {
  name = "comments";
  columns =
      column "id" uuid false
      ∷ column "pull_request_id" uuid false
      ∷ column "merged_into_id" uuid true
      ∷ column "agent" text false
      ∷ column "severity" text false
      ∷ column "confidence" float false
      ∷ column "title" text false
      ∷ column "description" text false
      ∷ column "evidence" text false
      ∷ column "suggested_fix" text true
      ∷ column "file_path" text true
      ∷ column "line_number" integer true
      ∷ column "owasp_category" text true
      ∷ column "status" text false
      ∷ column "is_posted_to_github" boolean false
      ∷ now_column "created_at"
      ∷ now_column "updated_at"
      ∷ [];
  foreign_keys =
      foreign_key "merged_into_id" "comments" "id" set_null
      ∷ foreign_key "pull_request_id" "pull_requests" "id" cascade
      ∷ [];
  primary_key = "id";
  uniques = [];
}

unfoldable pub embeddings : Table
embeddings = record {
  name = "embeddings";
  columns =
      column "id" uuid false
      ∷ column "pull_request_id" uuid false
      ∷ column "source" text false
      ∷ column "content" text false
      ∷ column "metadata" jsonb true
      ∷ column "embedding" (vector 768) true
      ∷ now_column "created_at"
      ∷ now_column "updated_at"
      ∷ [];
  foreign_keys = foreign_key "pull_request_id" "pull_requests" "id" cascade ∷ [];
  primary_key = "id";
  uniques = [];
}

unfoldable pub human_decisions : Table
human_decisions = record {
  name = "human_decisions";
  columns =
      column "id" uuid false
      ∷ column "pull_request_id" uuid false
      ∷ column "user_id" uuid true
      ∷ column "decision" text false
      ∷ column "reviewer_name" text false
      ∷ column "comment" text true
      ∷ now_column "decided_at"
      ∷ now_column "created_at"
      ∷ now_column "updated_at"
      ∷ [];
  foreign_keys =
      foreign_key "pull_request_id" "pull_requests" "id" cascade
      ∷ foreign_key "user_id" "users" "id" set_null
      ∷ [];
  primary_key = "id";
  uniques = [];
}

unfoldable pub review_logs : Table
review_logs = record {
  name = "review_logs";
  columns =
      column "id" uuid false
      ∷ column "pull_request_id" uuid false
      ∷ column "agent_name" text false
      ∷ column "status" text false
      ∷ column "message" text false
      ∷ now_column "created_at"
      ∷ now_column "updated_at"
      ∷ [];
  foreign_keys = foreign_key "pull_request_id" "pull_requests" "id" cascade ∷ [];
  primary_key = "id";
  uniques = [];
}
