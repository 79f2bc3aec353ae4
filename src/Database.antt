-- ===== src/Database.antt =====
-- backend/db/models: the rows of the tables. Ids are UUIDs in their text form, times are seconds.
-- `updated_at` is set on every write to a row, as `TimestampMixin` has it.
-- The tables together are the database, with Celery's queue and Redis' blocklist beside them.
pub mod Tables
use aerp.Prelude.{ℕ, String, Bool, Option, List}

-- The values of `PullRequest.status` that the program writes.
pub data ReviewStatus : Type 0 where
  queued collecting paused_for_review resuming complete failed cancelled : ReviewStatus

abbrev pub status_text : ReviewStatus → String
status_text queued = "queued"
status_text collecting = "collecting"
status_text paused_for_review = "paused_for_review"
status_text resuming = "resuming"
status_text complete = "complete"
status_text failed = "failed"
status_text cancelled = "cancelled"

pub record PullRequest : Type 0 where
  pub id : String
  pub user_id : Option String
  pub pr_url : String
  pub jira_url : Option String
  pub doc_url : Option String
  pub status : ReviewStatus
  pub risk_score : Option ℕ
  pub recommendation : Option String
  pub llm_provider : Option String
  pub llm_model : Option String
  pub task_id : Option String
  pub error : Option String
  pub completed_at : Option ℕ
  pub created_at : ℕ
  pub updated_at : ℕ

pub record Comment : Type 0 where
  pub id : String
  pub pull_request_id : String
  pub agent : String
  pub severity : String
  pub confidence : ℕ
  pub title : String
  pub description : String
  pub evidence : String
  pub suggested_fix : Option String
  pub file_path : Option String
  pub line_number : Option ℕ
  pub owasp_category : Option String
  pub is_posted_to_github : Bool
  pub created_at : ℕ

pub record ReviewLog : Type 0 where
  pub pull_request_id : String
  pub agent_name : String
  pub status : String
  pub message : String
  pub created_at : ℕ

pub record User : Type 0 where
  pub id : String
  pub email : String
  pub password_hash : Option String
  pub first_name : Option String
  pub last_name : Option String

pub record RefreshToken : Type 0 where
  pub token_hash : String
  pub user_id : String
  pub expires_at : ℕ
  pub revoked_at : Option ℕ

pub record ThirdPartyIntegration : Type 0 where
  pub id : String
  pub name : String
  pub display_name : String
  pub description : Option String
  pub logo_url : Option String
  pub is_enabled : Bool

pub record ThirdPartyUserAccount : Type 0 where
  pub user_id : String
  pub integration_id : String
  pub access_token_encrypted : String
  pub is_active : Bool

-- A task that is sent to the workers: `run_review_task` with its arguments, or
-- `generate_artifacts_task`.
pub data Job : Type 0 where
  run_review : String → String → Option String → Option String → String → Job
  generate_artifacts : String → Job
  revoke : String → Job

pub record Db : Type 0 where
  pub pull_requests : List PullRequest
  pub comments : List Comment
  pub review_logs : List ReviewLog
  pub users : List User
  pub refresh_tokens : List RefreshToken
  pub integrations : List ThirdPartyIntegration
  pub accounts : List ThirdPartyUserAccount
  pub jobs : List Job
  pub blocklist : List (String × ℕ)
  pub progress : List (String × String)
  pub drawn : ℕ
