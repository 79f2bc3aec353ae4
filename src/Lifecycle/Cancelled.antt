-- ===== src/Lifecycle/Cancelled.antt =====
-- What the executions of other tasks, and the approvals of other reviews, leave alone.
use aerp.Prelude.{
  ℕ, ◌≡◌, refl, ap, ◌∙◌, String, str_eq, eq_iff, true, false, Option, none, some, Result, ok, err,
  Bool-cases, inl, inr,
}
use aerp.State.{ReviewState}
use aerp.Database.{PullRequest, Db, cancelled}
use aerp.Database.Tables.{find_first-update, find_first-update_other}
use aerp.Encryption.{Fernet}
use aerp.Workflow.Nodes.{Services}
use aerp.Workflow.Run.{Engine, Outcome, completed, paused}
use aerp.Tasks.Store
use aerp.Tasks.Store.{find_review, change_review, has_id}
use aerp.Workflow.Standing.{Standing, at_end, before}
use aerp.Tasks.Review
use aerp.Tasks.Review.{System, Task}
use aerp.Tasks.Phases
use aerp.Tasks.Phases.{
  Phase, waiting, refused, granted, working, ran, recorded, notifying, failing, over,
}
use aerp.Reviews.{is_owned}
use aerp.Reviews.Approve
use aerp.Reviews.Approving
use aerp.Reviews.Approving.{Approval, asked, marked, authorised, resumed, closed, answered}

-- The review is stored, and cancelled.
abbrev pub IsCancelled : String → Db → Type 0
IsCancelled id db = (pr : PullRequest) × (find_review id db ≡ some pr) × (pr.status ≡ cancelled)

-- A write by id of another review.
pub change_review-other :
    (review_id id : String) (f : PullRequest → PullRequest) (db : Db)
    → str_eq review_id id ≡ false
    → ((x : PullRequest) → (f x).id ≡ x.id)
    → IsCancelled id db
    → IsCancelled id (change_review review_id f db)
change_review-other review_id id f db other keeps (pr, found, st) = (
  pr,
  find_first-update_other (has_id review_id) (has_id id) f db.pull_requests
        (λ x (h : has_id review_id x ≡ true). rw ((eq_iff x.id review_id).0 h) other)
        (λ x. ap (λ (i : String). str_eq i id) (keeps x))
      ∙ found,
  st,
)

-- A write that takes no review out of the status.
pub change_review-cancelled :
    (review_id id : String) (f : PullRequest → PullRequest) (db : Db)
    → ((x : PullRequest) → (f x).id ≡ x.id)
    → ((x : PullRequest) → x.status ≡ cancelled → (f x).status ≡ cancelled)
    → IsCancelled id db
    → IsCancelled id (change_review review_id f db)
change_review-cancelled review_id id f db keeps stays (pr, found, st) =
    let updated =
      find_first-update (has_id review_id) (has_id id) f db.pull_requests pr
        (λ x. ap (λ (i : String). str_eq i id) (keeps x)) found in
    elim (Bool-cases (has_id review_id pr)) [
      | inl e ↦ (f pr, rw e at updated, stays pr st)
      | inr e ↦ (pr, rw e at updated, st)
    ]

module _ (v : Services) (engine : Engine) (fernet : Fernet) (uuid : ℕ → String) (now : ℕ)
    (id : String) where
  returned-IsCancelled :
      (t : Task) (r : Result Outcome) (s : System v)
      → IsCancelled id s.db
      → IsCancelled id (Phases.returned v engine fernet uuid now r s).1.db
  returned-IsCancelled t (ok o) s h = h
  returned-IsCancelled t (err e) s h = h

  setup_env-IsCancelled :
      (user_id : Option String) (s : System v)
      → IsCancelled id s.db
      → IsCancelled id (Review.setup_env v engine fernet uuid now user_id s).1.db
  unfolding Review.setup_env
  setup_env-IsCancelled none s h = h
  setup_env-IsCancelled (some user_id) s h = h

  record_end-IsCancelled :
      (t : Task) (final : ReviewState) (e : Option String) (s : System v)
      → str_eq t.review_id id ≡ false
      → IsCancelled id s.db
      → IsCancelled id (Phases.record_end v engine fernet uuid now t final e s).1.db
  unfolding Phases.record_end Store.persist_findings Review.set_status Store.update_review_status
      Store.set_status
  record_end-IsCancelled t final none s other h = h
  record_end-IsCancelled t final (some e) s other h =
      change_review-other t.review_id id _ s.db other (λ x. refl) h

  -- Each transaction writes no review, or its own.
  pub advance-IsCancelled :
      (t : Task) (retries : ℕ) (p : Phase) (s : System v)
      → str_eq t.review_id id ≡ false
      → IsCancelled id s.db
      → IsCancelled id (Phases.advance v engine fernet uuid now t retries p s).1.db
  unfolding Phases.advance Review.run_langgraph Store.persist_findings Store.update_review_complete
      Store.set_complete Review.set_status Store.update_review_status Store.set_status
  advance-IsCancelled t retries waiting s other h = setup_env-IsCancelled t.user_id s h
  advance-IsCancelled t retries refused s other h =
      change_review-other t.review_id id _ s.db other (λ x. refl) h
  advance-IsCancelled t retries (granted token) s other h =
      change_review-other t.review_id id _ s.db other (λ x. refl) h
  advance-IsCancelled t retries (working token) s other h =
      let (r, s') = Review.run_langgraph v engine fernet uuid now t (some token) s in
      returned-IsCancelled t r s' h
  advance-IsCancelled t retries (ran (paused final)) s other h = h
  advance-IsCancelled t retries (ran (completed final)) s other h =
      record_end-IsCancelled t final _ s other h
  advance-IsCancelled t retries (recorded (paused final)) s other h =
      change_review-other t.review_id id _ s.db other (λ x. refl) h
  advance-IsCancelled t retries (recorded (completed final)) s other h =
      change_review-other t.review_id id _ s.db other (λ x. refl) h
  advance-IsCancelled t retries (notifying final) s other h = h
  advance-IsCancelled t retries (failing e) s other h =
      change_review-other t.review_id id _ s.db other (λ x. refl) h
  advance-IsCancelled t retries (over r) s other h = h

  module _ (review_id user_id : String) where
    mark-IsCancelled :
        (o : Option PullRequest) (s : System v)
        → str_eq review_id id ≡ false
        → IsCancelled id s.db
        → IsCancelled id (Approving.mark v engine fernet now review_id user_id o s).1.db
    unfolding Approving.mark Approve.mark_resuming
    mark-IsCancelled none s other h = h
    mark-IsCancelled (some pr) s other h = elim (Bool-cases (is_owned user_id pr.user_id)) [
      | inl e ↦
          rw e
            (change_review-other review_id id (Approve.set_resuming now) s.db other (λ x. refl) h)
      | inr e ↦ rw e h
    ]

    resumed-IsCancelled :
        (r : Result Outcome) (s : System v)
        → IsCancelled id s.db
        → IsCancelled id (Approving.returned v engine fernet now review_id user_id r s).1.db
    resumed-IsCancelled (ok final) s h = h
    resumed-IsCancelled (err e) s h = h

    resume-IsCancelled :
        (token : Option String) (o : Option Standing) (s : System v)
        → IsCancelled id s.db
        → IsCancelled id (Approving.resume v engine fernet now review_id user_id token o s).1.db
    unfolding Approving.resume Approve.resume_run
    resume-IsCancelled token none s h = h
    resume-IsCancelled token (some (at_end final)) s h = h
    resume-IsCancelled token (some (before stage state)) s h =
        let (r, s') = Approve.resume_run v engine fernet now review_id token stage state s in
        resumed-IsCancelled r s' h

    pub approval-IsCancelled :
        (a : Approval) (s : System v)
        → str_eq review_id id ≡ false
        → IsCancelled id s.db
        → IsCancelled id (Approving.advance v engine fernet now review_id user_id a s).1.db
    unfolding Approving.advance Approve.find_token
    approval-IsCancelled asked s other h = mark-IsCancelled _ s other h
    approval-IsCancelled marked s other h = h
    approval-IsCancelled (authorised token) s other h = resume-IsCancelled token _ s h
    approval-IsCancelled (resumed final) s other h =
        change_review-other review_id id (Approve.set_approved now final) s.db other (λ x. refl) h
    approval-IsCancelled closed s other h = h
    approval-IsCancelled (answered r) s other h = h
