-- ===== src/Reviews/Laws.antt =====
-- Who may act on a review, and what the routes leave of it.
use aerp.Prelude.{
  ℕ, suc, ◌≡◌, refl, ◌⊎◌, inl, inr, String, eq_refl, true, Option, none, some, [], ◌∷◌, ◌++◌, http,
  Result, ok, err,
}
use aerp.Database.{
  PullRequest, Db, ReviewStatus, queued, collecting, paused_for_review, resuming, complete, failed,
  cancelled,
}
use aerp.Database.Tables.{find_first-append, find_first-update_self}
use aerp.Encryption.{Fernet}
use aerp.Workflow.Nodes.{Services}
use aerp.Workflow.Run.{Engine}
use aerp.Tasks.Store.{find_review, has_id}
use aerp.Tasks.Review.{System, stored_token, github_account, last_checkpoint}
use aerp.Tasks.Laws.{change_review-find_review}
use aerp.Reviews.{is_owned}
use aerp.Reviews.Start
use aerp.Config.{Settings}
use aerp.Reviews.Start.{StartReviewRequest, get_review_status, set_task_id, new_review}
use aerp.Reviews.Cancel
use aerp.Reviews.Cancel.{cancel_review}
use aerp.Reviews.Approve

-- A review that is over.
abbrev pub IsOver : ReviewStatus → Type 0
IsOver st = (st ≡ complete) ⊎ (st ≡ failed) ⊎ (st ≡ cancelled)

abbrev Ended : String → Result String × Db → Type 0
Ended review_id out =
    ((message : String) × (out.0 ≡ ok message))
    × ((pr : PullRequest) × (find_review review_id out.1 ≡ some pr) × IsOver pr.status)

abort-Ended :
    (now : ℕ) (review_id : String) (task_id : Option String) (db : Db) (pr : PullRequest)
    → find_review review_id db ≡ some pr
    → Ended review_id (Cancel.abort now review_id task_id db)
unfolding Cancel.abort
abort-Ended now review_id task_id db pr found = (
  (_, refl),
  (
    _,
    change_review-find_review review_id (Cancel.set_cancelled now) db pr (λ x. refl) found,
    inr (inr refl),
  ),
)

cancel_in-Ended :
    (now : ℕ) (review_id : String) (st : ReviewStatus) (db : Db) (pr : PullRequest)
    → find_review review_id db ≡ some pr
    → pr.status ≡ st
    → Ended review_id (Cancel.cancel_in now review_id pr.task_id st db)
unfolding Cancel.cancel_in
cancel_in-Ended now review_id complete db pr found e = ((_, refl), (pr, found, inl e))
cancel_in-Ended now review_id failed db pr found e = ((_, refl), (pr, found, inr (inl e)))
cancel_in-Ended now review_id cancelled db pr found e = ((_, refl), (pr, found, inr (inr e)))
cancel_in-Ended now review_id queued db pr found e =
    abort-Ended now review_id pr.task_id db pr found
cancel_in-Ended now review_id collecting db pr found e =
    abort-Ended now review_id pr.task_id db pr found
cancel_in-Ended now review_id paused_for_review db pr found e =
    abort-Ended now review_id pr.task_id db pr found
cancel_in-Ended now review_id resuming db pr found e =
    abort-Ended now review_id pr.task_id db pr found

-- Cancelling one's own stored review always answers, and leaves the review complete, failed or
-- cancelled, whatever its status was.
pub cancel_review-Ended :
    (now : ℕ) (review_id user_id : String) (db : Db) (pr : PullRequest)
    → find_review review_id db ≡ some pr
    → is_owned user_id pr.user_id ≡ true
    → ((message : String) × ((cancel_review now review_id user_id db).0 ≡ ok message))
      × ((after : PullRequest) × (find_review review_id (cancel_review now review_id user_id db).1
            ≡ some after)
          × IsOver after.status)
unfolding cancel_review Cancel.cancel_found
cancel_review-Ended now review_id user_id db pr found owned =
    rw (found, owned) (cancel_in-Ended now review_id pr.status db pr found refl)

-- Approving one's own review of which no run is saved, with a token that can be read, answers 400
-- and yet leaves the review in the status resuming.
pub approve_review-unpaused :
    (v : Services) (engine : Engine) (fernet : Fernet) (now : ℕ) (review_id user_id : String)
    (s : System v) (pr : PullRequest) (token : Option String)
    → find_review review_id s.db ≡ some pr
    → is_owned user_id pr.user_id ≡ true
    → stored_token fernet (github_account s.db user_id) ≡ ok token
    → last_checkpoint review_id s.checkpoints ≡ none
    → ((Approve.approve_review v engine fernet now review_id user_id s).0
        ≡ err (http 400 "Workflow is not paused."))
      × (find_review review_id (Approve.approve_review v engine fernet now review_id user_id s).1.db
          ≡ some (Approve.set_resuming now pr))
unfolding Approve.approve_review Approve.approve_found Approve.approve_owned Approve.mark_resuming
    Approve.find_token Approve.resume_review Approve.resume_from
approve_review-unpaused v engine fernet now review_id user_id s pr token found owned has_token
      unsaved =
    rw (found, owned, has_token, unsaved)
      (
        refl,
        change_review-find_review review_id (Approve.set_resuming now) s.db pr (λ x. refl) found,
      )

-- A review that is started under a free id can be read by the user who started it; it is queued,
-- and has the pull request of the request.
pub start_review-queued :
    (settings : Settings) (uuid : ℕ → String) (now : ℕ) (user_id : String)
    (request : StartReviewRequest) (db : Db)
    → find_review (uuid db.drawn) db ≡ none
    → (pr : PullRequest) × (get_review_status
          (uuid db.drawn)
          user_id
          (Start.start_review settings uuid now user_id request db).1
        ≡ ok pr)
      × (pr.status ≡ queued)
      × (pr.pr_url ≡ request.pr_url)
unfolding get_review_status Start.shown_to Start.start_review Start.new_review
start_review-queued settings uuid now user_id request db free =
    let id = uuid db.drawn in
    let pr = new_review settings now id user_id request in
    let task_id = uuid (suc db.drawn) in
    let stored = find_first-append (has_id id) db.pull_requests pr free (eq_refl id) in
    let found =
      find_first-update_self (has_id id) (set_task_id now task_id) (db.pull_requests ++ pr ∷ []) pr
        (λ x. refl) stored in
    (set_task_id now task_id pr, rw (found, eq_refl user_id) refl, refl, refl)
