-- ===== src/Reviews/Logged.antt =====
-- What the history of a review shows of its cancellation.
use aerp.Prelude.{
  ℕ, ◌≡◌, refl, sym, String, Bool, true, false, Option, some, List, [], ◌∷◌, map, keep, keep-append,
  eq_refl, IsOrdered, ok,
}
use mathlib.Core.List.Perm
use mathlib.Core.List.{Perm, perm_append_singleton, append_assoc}
use aerp.Pubsub.{Feed}
use aerp.Database.{
  PullRequest, ReviewLog, Db, ReviewStatus, queued, collecting, paused_for_review, resuming,
  complete, failed, cancelled,
}
use aerp.Tasks.Store.{find_review}
use aerp.Tasks.Laws.{change_review-find_review}
use aerp.Reviews.{is_owned}
use aerp.Reviews.Cancel
use aerp.Reviews.Cancel.{cancel_review, cancel_log}
use aerp.Reviews.Logs.{
  to_log_item, is_log_of, is_older, all_logs, get_review_logs, get_review_logs-IsOrdered,
}

-- A review that is not complete, failed or cancelled.
abbrev pub is_active : ReviewStatus → Bool
is_active queued = true
is_active collecting = true
is_active paused_for_review = true
is_active resuming = true
is_active complete = false
is_active failed = false
is_active cancelled = false

cancel_in-abort :
    (now : ℕ) (review_id : String) (task_id : Option String) (st : ReviewStatus) (db : Db)
    → is_active st ≡ true
    → Cancel.cancel_in now review_id task_id st db ≡ Cancel.abort now review_id task_id db
unfolding Cancel.cancel_in
cancel_in-abort now review_id task_id queued db h = refl
cancel_in-abort now review_id task_id collecting db h = refl
cancel_in-abort now review_id task_id paused_for_review db h = refl
cancel_in-abort now review_id task_id resuming db h = refl
cancel_in-abort now review_id task_id complete db h = cc
cancel_in-abort now review_id task_id failed db h = cc
cancel_in-abort now review_id task_id cancelled db h = cc

cancel_review-abort :
    (now : ℕ) (review_id user_id : String) (db : Db) (pr : PullRequest)
    → find_review review_id db ≡ some pr
    → is_owned user_id pr.user_id ≡ true
    → is_active pr.status ≡ true
    → cancel_review now review_id user_id db ≡ Cancel.abort now review_id pr.task_id db
unfolding cancel_review Cancel.cancel_found
cancel_review-abort now review_id user_id db pr found owned active =
    rw (found, owned) (cancel_in-abort now review_id pr.task_id pr.status db active)

logs-after :
    (now : ℕ) (review_id : String) (task_id : Option String) (db : Db) (feed : Feed)
    → Perm
        (keep (is_log_of review_id) (all_logs (Cancel.abort now review_id task_id db).1 feed))
        (cancel_log now review_id ∷ keep (is_log_of review_id) (all_logs db feed))
unfolding Cancel.abort
logs-after now review_id task_id db feed =
    let log = cancel_log now review_id in
    let rows = all_logs db feed in
    rw
      (
        sym (append_assoc feed.review_logs db.review_logs (log ∷ [])),
        keep-append (is_log_of review_id) rows (log ∷ []),
        eq_refl review_id,
      )
      (perm_append_singleton log (keep (is_log_of review_id) rows))

-- After one's own review that was not complete, failed or cancelled is cancelled, its history
-- shows exactly the rows that it had and the message of the cancellation, in the order of their
-- times.
pub cancel_review-logged :
    (now : ℕ) (review_id user_id : String) (db : Db) (feed : Feed) (pr : PullRequest)
    → find_review review_id db ≡ some pr
    → is_owned user_id pr.user_id ≡ true
    → is_active pr.status ≡ true
    → (logs : List ReviewLog) × (get_review_logs review_id user_id
          (cancel_review now review_id user_id db).1
          feed
        ≡ ok (map to_log_item logs))
      × Perm logs (cancel_log now review_id ∷ keep (is_log_of review_id) (all_logs db feed))
      × IsOrdered is_older logs
unfolding Cancel.abort
cancel_review-logged now review_id user_id db feed pr found owned active =
    let db' = (Cancel.abort now review_id pr.task_id db).1 in
    let (logs, shown, perm, ordered) =
      get_review_logs-IsOrdered review_id user_id db' feed (Cancel.set_cancelled now pr)
        (change_review-find_review review_id (Cancel.set_cancelled now) db pr (λ x. refl) found)
        owned in
    rw (cancel_review-abort now review_id user_id db pr found owned active)
      (logs, shown, Perm.trans perm (logs-after now review_id pr.task_id db feed), ordered)
