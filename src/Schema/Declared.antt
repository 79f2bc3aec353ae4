-- ===== src/Schema/Declared.antt =====
-- backend/db/models: what the models declare, a model a file. Defaults that Python sets, relationships
-- and comments are left out.
use aerp.Prelude.{some, none, List, [], ◌∷◌}
use aerp.Schema.{
  uuid, text, boolean, integer, float, timestamp, jsonb, string, vector, cascade, set_null,
}
use aerp.Schema.Mapped.{Model, required, optional, stamped, indexed, unique_one, refer}

unfoldable pub third_party_integrations_model : Model
third_party_integrations_model = record {
  tablename = "third_party_integrations";
  mapped =
      required "id" uuid
      ∷ unique_one (indexed (required "name" text))
      ∷ required "display_name" text
      ∷ optional "description" text
      ∷ optional "logo_url" text
      ∷ required "auth_type" text
      ∷ optional "oauth_authorize_url" text
      ∷ optional "oauth_token_url" text
      ∷ optional "required_scopes" text
      ∷ optional "docs_url" text
      ∷ required "is_enabled" boolean
      ∷ [];
  table_args = [];
}

unfoldable pub users_model : Model
users_model = record {
  tablename = "users";
  mapped =
      required "id" uuid
      ∷ unique_one (indexed (required "email" (string (some 255))))
      ∷ optional "password_hash" text
      ∷ optional "first_name" text
      ∷ optional "middle_name" text
      ∷ optional "last_name" text
      ∷ optional "avatar_url" text
      ∷ required "is_active" boolean
      ∷ required "is_email_verified" boolean
      ∷ optional "last_login_at" (string none)
      ∷ [];
  table_args = [];
}

unfoldable pub pull_requests_model : Model
pull_requests_model = record {
  tablename = "pull_requests";
  mapped =
      required "id" uuid
      ∷ indexed (refer "users" "id" set_null (optional "user_id" uuid))
      ∷ required "pr_url" text
      ∷ optional "jira_url" text
      ∷ optional "doc_url" text
      ∷ indexed (required "status" text)
      ∷ optional "risk_score" integer
      ∷ optional "recommendation" text
      ∷ optional "llm_provider" text
      ∷ optional "llm_model" text
      ∷ optional "task_id" text
      ∷ optional "error" text
      ∷ optional "completed_at" timestamp
      ∷ [];
  table_args = [];
}

unfoldable pub refresh_tokens_model : Model
refresh_tokens_model = record {
  tablename = "refresh_tokens";
  mapped =
      required "id" uuid
      ∷ indexed (refer "users" "id" cascade (required "user_id" uuid))
      ∷ unique_one (required "token_hash" text)
      ∷ required "expires_at" timestamp
      ∷ optional "revoked_at" timestamp
      ∷ optional "device_info" text
      ∷ optional "ip_address" text
      ∷ [];
  table_args = [];
}

unfoldable pub third_party_user_accounts_model : Model
third_party_user_accounts_model = record {
  tablename = "third_party_user_accounts";
  mapped =
      required "id" uuid
      ∷ indexed (refer "users" "id" cascade (required "user_id" uuid))
      ∷ refer "third_party_integrations" "id" cascade (required "integration_id" uuid)
      ∷ required "access_token_encrypted" text
      ∷ required "credentials" jsonb
      ∷ optional "provider_user_id" text
      ∷ optional "provider_email" text
      ∷ optional "provider_username" text
      ∷ optional "granted_scopes" text
      ∷ required "is_active" boolean
      ∷ [];
  table_args = ("user_id" ∷ "integration_id" ∷ []) ∷ [];
}

unfoldable pub comments_model : Model
comments_model = record {
  tablename = "comments";
  mapped =
      required "id" uuid
      ∷ indexed (refer "pull_requests" "id" cascade (required "pull_request_id" uuid))
      ∷ refer "comments" "id" set_null (optional "merged_into_id" uuid)
      ∷ required "agent" text
      ∷ required "severity" text
      ∷ required "confidence" float
      ∷ required "title" text
      ∷ required "description" text
      ∷ required "evidence" text
      ∷ optional "suggested_fix" text
      ∷ optional "file_path" text
      ∷ optional "line_number" integer
      ∷ optional "owasp_category" text
      ∷ indexed (required "status" text)
      ∷ required "is_posted_to_github" boolean
      ∷ [];
  table_args = [];
}

unfoldable pub embeddings_model : Model
embeddings_model = record {
  tablename = "embeddings";
  mapped =
      required "id" uuid
      ∷ indexed (refer "pull_requests" "id" cascade (required "pull_request_id" uuid))
      ∷ indexed (required "source" text)
      ∷ required "content" text
      ∷ optional "metadata" jsonb
      ∷ optional "embedding" (vector 768)
      ∷ [];
  table_args = [];
}

unfoldable pub human_decisions_model : Model
human_decisions_model = record {
  tablename = "human_decisions";
  mapped =
      required "id" uuid
      ∷ indexed (refer "pull_requests" "id" cascade (required "pull_request_id" uuid))
      ∷ refer "users" "id" set_null (optional "user_id" uuid)
      ∷ required "decision" text
      ∷ required "reviewer_name" text
      ∷ optional "comment" text
      ∷ stamped "decided_at"
      ∷ [];
  table_args = [];
}

unfoldable pub review_logs_model : Model
review_logs_model = record {
  tablename = "review_logs";
  mapped =
      required "id" uuid
      ∷ indexed (refer "pull_requests" "id" cascade (required "pull_request_id" uuid))
      ∷ required "agent_name" text
      ∷ required "status" text
      ∷ required "message" text
      ∷ [];
  table_args = [];
}

-- The models, those that refer to others behind them.
abbrev pub models : List Model
models =
    review_logs_model ∷ human_decisions_model ∷ embeddings_model ∷ comments_model
    ∷ third_party_user_accounts_model ∷ refresh_tokens_model ∷ pull_requests_model ∷ users_model
    ∷ third_party_integrations_model ∷ []
