-- ===== src/Lifecycle/Aside.antt =====
-- What a request does to a cancelled review, and what an activity of another review does.
use aerp.Prelude.{
  ℕ, zero, suc, ◌≡◌, refl, String, Option, none, some, str_eq, false, List, [], ◌∷◌, ◌++◌, All,
  Bool-cases, inl, inr, find_first-found,
}
use aerp.Database.{
  PullRequest, Db, ReviewStatus, queued, collecting, paused_for_review, resuming, complete, failed,
  cancelled,
}
use aerp.Encryption.{Fernet}
use aerp.Config.{Settings}
use aerp.Workflow.Nodes.{Services}
use aerp.Workflow.Run.{Engine}
use aerp.Tasks.Store.{has_id}
use aerp.Tasks.Review.{System, Task}
use aerp.Tasks.Phases
use aerp.Tasks.Phases.{Phase}
use aerp.Reviews.{is_owned}
use aerp.Reviews.Start
use aerp.Reviews.Cancel
use aerp.Reviews.Approving
use aerp.Reviews.Approving.{Approval, advance_by-approve_review}
use package.aerp.Lifecycle.Interleaved.{Activity, task, approval, remove, next, move}
use package.aerp.Lifecycle.Cancelled
use package.aerp.Lifecycle.Cancelled.{IsCancelled, change_review-cancelled}

cancel_in-IsCancelled :
    (now : ℕ) (review_id id : String) (task_id : Option String) (st : ReviewStatus) (db : Db)
    → IsCancelled id db
    → IsCancelled id (Cancel.cancel_in now review_id task_id st db).1
unfolding Cancel.cancel_in Cancel.abort
cancel_in-IsCancelled now review_id id task_id complete db h = h
cancel_in-IsCancelled now review_id id task_id failed db h = h
cancel_in-IsCancelled now review_id id task_id cancelled db h = h
cancel_in-IsCancelled now review_id id task_id queued db h =
    change_review-cancelled review_id id (Cancel.set_cancelled now) db (λ x. refl) (λ x e. refl) h
cancel_in-IsCancelled now review_id id task_id collecting db h =
    change_review-cancelled review_id id (Cancel.set_cancelled now) db (λ x. refl) (λ x e. refl) h
cancel_in-IsCancelled now review_id id task_id paused_for_review db h =
    change_review-cancelled review_id id (Cancel.set_cancelled now) db (λ x. refl) (λ x e. refl) h
cancel_in-IsCancelled now review_id id task_id resuming db h =
    change_review-cancelled review_id id (Cancel.set_cancelled now) db (λ x. refl) (λ x e. refl) h

pub cancel_found-IsCancelled :
    (now : ℕ) (review_id id user_id : String) (o : Option PullRequest) (db : Db)
    → IsCancelled id db
    → IsCancelled id (Cancel.cancel_found now review_id user_id o db).1
unfolding Cancel.cancel_found
cancel_found-IsCancelled now review_id id user_id none db h = h
cancel_found-IsCancelled now review_id id user_id (some pr) db h =
    elim (Bool-cases (is_owned user_id pr.user_id)) [
      | inl e ↦ rw e (cancel_in-IsCancelled now review_id id pr.task_id pr.status db h)
      | inr e ↦ rw e h
    ]

pub start_review-IsCancelled :
    (settings : Settings) (uuid : ℕ → String) (now : ℕ) (id user_id : String)
    (request : Start.StartReviewRequest) (db : Db)
    → IsCancelled id db
    → IsCancelled id (Start.start_review settings uuid now user_id request db).1
unfolding Start.start_review Start.new_review
start_review-IsCancelled settings uuid now id user_id request db (pr, found, st) =
    let new = Start.new_review settings now (uuid db.drawn) user_id request in
    change_review-cancelled (uuid db.drawn) id _
      (record db { pull_requests = db.pull_requests ++ new ∷ [] }) (λ x. refl) (λ x e. e)
      (pr, find_first-found (has_id id) db.pull_requests (new ∷ []) pr found, st)

-- The activity is not of the review.
abbrev pub IsAside : String → Activity → Type 0
IsAside id (task t retries p) = str_eq t.review_id id ≡ false
IsAside id (approval review_id user_id a) = str_eq review_id id ≡ false

pub remove-IsAside :
    (id : String) (n : ℕ) (rest : List Activity)
    → All (IsAside id) rest
    → All (IsAside id) (remove n rest)
unfolding remove
remove-IsAside id n [] h = tt
remove-IsAside id zero (a ∷ rest) h = h.1
remove-IsAside id (suc n) (a ∷ rest) h = (h.0, remove-IsAside id n rest h.1)

module _ (v : Services) (fernet : Fernet) (uuid : ℕ → String) (id : String) where
  module _ (engine : Engine) (now : ℕ) where
    next-IsAside :
        (a : Activity) (s : System v)
        → IsAside id a
        → IsCancelled id s.db
        → (let (a', s') = next v fernet uuid engine now a s in IsCancelled id s'.db × IsAside id a')
    unfolding next
    next-IsAside (task t retries p) s other h =
        (Cancelled.advance-IsCancelled v engine fernet uuid now id t retries p s other h, other)
    next-IsAside (approval review_id user_id a) s other h = (
      Cancelled.approval-IsCancelled v engine fernet uuid now id review_id user_id a s other h,
      other,
    )

    pub move-IsAside :
        (n : ℕ) (rest : List Activity) (s : System v)
        → All (IsAside id) rest
        → IsCancelled id s.db
        → (let (rest', s') = move v fernet uuid engine now n rest s in
            IsCancelled id s'.db × All (IsAside id) rest')
    unfolding move
    move-IsAside n [] s aside h = (h, tt)
    move-IsAside zero (a ∷ rest) s aside h =
        let (h', aside') = next-IsAside a s aside.0 h in (h', (aside', aside.1))
    move-IsAside (suc n) (a ∷ rest) s aside h =
        let (h', aside') = move-IsAside n rest s aside.1 h in (h', (aside.0, aside'))

    pub advance_by-IsCancelled :
        (n : ℕ) (t : Task) (retries : ℕ) (p : Phase) (s : System v)
        → str_eq t.review_id id ≡ false
        → IsCancelled id s.db
        → IsCancelled id (Phases.advance_by v engine fernet uuid now n t retries p s).1.db
    unfolding Phases.advance_by
    advance_by-IsCancelled zero t retries p s other h = h
    advance_by-IsCancelled (suc n) t retries p s other h =
        let (p', s') = Phases.advance v engine fernet uuid now t retries p s in
        advance_by-IsCancelled n t retries p' s' other
          (Cancelled.advance-IsCancelled v engine fernet uuid now id t retries p s other h)

    pub approve_by-IsCancelled :
        (n : ℕ) (review_id user_id : String) (a : Approval) (s : System v)
        → str_eq review_id id ≡ false
        → IsCancelled id s.db
        → IsCancelled id (Approving.advance_by v engine fernet now review_id user_id n a s).1.db
    unfolding Approving.advance_by
    approve_by-IsCancelled zero review_id user_id a s other h = h
    approve_by-IsCancelled (suc n) review_id user_id a s other h =
        let (a', s') = Approving.advance v engine fernet now review_id user_id a s in
        approve_by-IsCancelled n review_id user_id a' s' other
          (Cancelled.approval-IsCancelled v engine fernet uuid now id review_id user_id a s other h)
