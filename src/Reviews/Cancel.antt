-- ===== src/Reviews/Cancel.antt =====
-- `cancel_review`. Its last message is a coroutine that is not awaited, so nothing is sent.
use aerp.Prelude.{
  ℕ, String, is_truthy, Option, none, some, List, [], ◌∷◌, ◌++◌, http, Exec, pure, raise, modify,
  ◌>>◌, if◌then◌else◌,
}
use aerp.Database.{
  PullRequest, Db, ReviewStatus, queued, collecting, paused_for_review, resuming, complete, failed,
  cancelled, revoke, Job, ReviewLog,
}
use aerp.Tasks.Store.{find_review, change_review}
use aerp.Reviews.{is_owned}

-- `if pr.task_id: celery_app.control.revoke(…)`
abbrev revoked : Option String → List Job
revoked none = []
revoked (some task_id) = if is_truthy task_id then revoke task_id ∷ [] else []

abbrev revoke_task : Option String → Exec Db (Unit {0})
revoke_task task_id = modify (λ (db : Db). record db { jobs = db.jobs ++ revoked task_id })

abbrev pub set_cancelled : ℕ → PullRequest → PullRequest
set_cancelled now pr = record pr { status = cancelled; updated_at = now }

abbrev pub cancel_log : ℕ → String → ReviewLog
cancel_log now review_id = record {
  pull_request_id = review_id;
  agent_name = "System";
  status = "cancelled";
  message = "Review was forcefully aborted by user.";
  created_at = now;
}

module _ (now : ℕ) where
  unfoldable pub abort : String → Option String → Exec Db String
  abort review_id task_id = do
    revoke_task task_id
    modify (λ (db : Db). record (change_review review_id (set_cancelled now) db) {
      review_logs = db.review_logs ++ cancel_log now review_id ∷ [];
    })
    pure "Review successfully cancelled."

  -- A review that is over stays as it is.
  unfoldable pub cancel_in : String → Option String → ReviewStatus → Exec Db String
  unfolding abort
  cancel_in review_id task_id complete = pure "Review is already complete."
  cancel_in review_id task_id failed = pure "Review is already failed."
  cancel_in review_id task_id cancelled = pure "Review is already cancelled."
  cancel_in review_id task_id queued = abort review_id task_id
  cancel_in review_id task_id collecting = abort review_id task_id
  cancel_in review_id task_id paused_for_review = abort review_id task_id
  cancel_in review_id task_id resuming = abort review_id task_id

  unfoldable pub cancel_found : String → String → Option PullRequest → Exec Db String
  unfolding cancel_in
  cancel_found review_id user_id none = raise (http 404 "Review not found")
  cancel_found review_id user_id (some pr) =
      if is_owned user_id pr.user_id
      then cancel_in review_id pr.task_id pr.status
      else raise (http 403 "Forbidden")

  unfoldable pub cancel_review : String → String → Exec Db String
  unfolding cancel_found
  cancel_review review_id user_id db = cancel_found review_id user_id (find_review review_id db) db
