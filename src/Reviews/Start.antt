-- ===== src/Reviews/Start.antt =====
-- `start_review` and `get_review_status`. A queued task is an entry of `jobs`; its id is drawn.
use aerp.Prelude.{
  ℕ, String, has_text, strip, ◌&&◌, raise, ◌<>◌, Option, none, some, [], ◌∷◌, ◌++◌, http, Result,
  ok, err, Exec, pure, modify, ◌>>=◌, ◌>>◌, if◌then◌else◌,
}
use aerp.Config.{Settings, is_provider, ollama_model}
use aerp.Database.{PullRequest, Db, queued, run_review}
use aerp.Tasks.Store.{find_review, change_review}
use aerp.Auth.Tokens.{uuid4}
use aerp.Reviews.{is_owned}

pub record StartReviewRequest : Type 0 where
  pub pr_url : String
  pub jira_url : Option String
  pub doc_url : Option String

abbrev bad_url : String
bad_url = "pr_url must be a valid GitHub PR URL (e.g., https://github.com/owner/repo/pull/123)"

-- A URL that is accepted is stripped.
unfoldable pub validate_github_url : String → Option String
validate_github_url v =
    if has_text v "github.com" && has_text v "/pull/" then some (strip v) else none

-- The provider and the model; any other provider is Gemini.
unfoldable pub choose_model : Settings → String × String
choose_model settings =
    if is_provider settings "openai"
    then ("openai", settings.openai_model)
    else if is_provider settings "anthropic"
    then ("anthropic", settings.anthropic_model)
    else if is_provider settings "ollama"
    then ("ollama", ollama_model settings)
    else ("gemini", settings.gemini_model)

unfoldable pub new_review : Settings → ℕ → String → String → StartReviewRequest → PullRequest
unfolding choose_model
new_review settings now review_id user_id request = record {
  id = review_id;
  user_id = some user_id;
  pr_url = request.pr_url;
  jira_url = request.jira_url;
  doc_url = request.doc_url;
  status = queued;
  risk_score = none;
  recommendation = none;
  llm_provider = some (choose_model settings).0;
  llm_model = some (choose_model settings).1;
  task_id = none;
  error = none;
  completed_at = none;
  created_at = now;
  updated_at = now;
}

abbrev pub set_task_id : ℕ → String → PullRequest → PullRequest
set_task_id now task_id pr = record pr { task_id = some task_id; updated_at = now }

module _ (settings : Settings) (uuid : ℕ → String) (now : ℕ) where
  -- The row is committed before the task is sent, and the task's id is stored after.
  unfoldable pub start_review : String → StartReviewRequest → Exec Db String
  unfolding new_review
  start_review user_id request = do
    review_id ← uuid4 uuid
    modify (λ (db : Db). record db {
      pull_requests = db.pull_requests ++ new_review settings now review_id user_id request ∷ [];
    })
    modify (λ (db : Db). record db {
      jobs =
          db.jobs
          ++ run_review review_id request.pr_url request.jira_url request.doc_url user_id ∷ [];
    })
    task_id ← uuid4 uuid
    modify (change_review review_id (set_task_id now task_id))
    pure review_id

  -- The route with the check of its body, whose failure FastAPI answers with 422.
  unfoldable pub submit_review : String → StartReviewRequest → Exec Db String
  unfolding validate_github_url start_review
  submit_review user_id request = elim (validate_github_url request.pr_url) [
    | none ↦ raise (http 422 bad_url)
    | some pr_url ↦ start_review user_id (record request { pr_url = pr_url })
  ]

-- A review that is missing, and one of another user.
unfoldable pub shown_to : String → String → Option PullRequest → Result PullRequest
shown_to review_id user_id none = err (http 404 ("Review " <> review_id <> " not found"))
shown_to review_id user_id (some pr) =
    if is_owned user_id pr.user_id then ok pr else err (http 403 "Forbidden")

unfoldable pub get_review_status : String → String → Db → Result PullRequest
unfolding shown_to
get_review_status review_id user_id db = shown_to review_id user_id (find_review review_id db)
