-- ===== src/Lifecycle/Invariant.antt =====
-- The invariant of the reviews, by induction on the steps.
use aerp.Prelude.{
  ℕ, ◌≡◌, refl, String, Option, none, some, [], ◌∷◌, ◌++◌, All-append, Result, ok, err, ◌>>=◌,
  arith, Bool-cases, inl, inr,
}
use aerp.Database.{
  PullRequest, Db, ReviewStatus, queued, collecting, paused_for_review, resuming, complete, failed,
  cancelled,
}
use aerp.Encryption.{Fernet}
use aerp.Workflow.Nodes.{Services}
use aerp.Workflow.Standing.{Standing, at_end, before, final_state}
use aerp.Workflow.Run.{Engine, Outcome}
use aerp.Tasks.Review.{System}
use aerp.Tasks.Artifacts
use aerp.Integrations
use aerp.Reviews.Start
use aerp.Config.{Settings}
use aerp.Reviews.Cancel
use aerp.Reviews.Approve
use aerp.Reviews.Post
use package.aerp.Lifecycle.{
  Step, Reach, started, ran, was_cancelled, was_approved, posted, generated, connected,
  disconnected, here, after,
}
use aerp.Reviews.{is_owned}
use package.aerp.Lifecycle.Sound.{IsSound, IsSoundAs, AllSound, change_review-AllSound}
use package.aerp.Lifecycle.TaskSound.{run_review_task-KeepsSound}

-- The id of the task says nothing about the outcome.
set_task_id-IsSound :
    (st : ReviewStatus) (now : ℕ) (task_id : String) (pr : PullRequest)
    → IsSoundAs st pr
    → IsSoundAs st (Start.set_task_id now task_id pr)
set_task_id-IsSound queued now task_id pr h = h
set_task_id-IsSound collecting now task_id pr h = h
set_task_id-IsSound paused_for_review now task_id pr h = h
set_task_id-IsSound resuming now task_id pr h = h
set_task_id-IsSound complete now task_id pr h = h
set_task_id-IsSound failed now task_id pr h = h
set_task_id-IsSound cancelled now task_id pr h = h

start_review-AllSound :
    (settings : Settings) (uuid : ℕ → String) (now : ℕ) (user_id : String)
    (request : Start.StartReviewRequest) (db : Db)
    → AllSound db
    → AllSound (Start.start_review settings uuid now user_id request db).1
unfolding Start.start_review Start.new_review
start_review-AllSound settings uuid now user_id request db h =
    let pr = Start.new_review settings now (uuid db.drawn) user_id request in
    change_review-AllSound (uuid db.drawn) _
      (record db { pull_requests = db.pull_requests ++ pr ∷ [] })
      (λ x g. set_task_id-IsSound x.status now _ x g)
      (All-append IsSound db.pull_requests (pr ∷ []) h (tt, tt))

cancel_in-AllSound :
    (now : ℕ) (review_id : String) (task_id : Option String) (st : ReviewStatus) (db : Db)
    → AllSound db
    → AllSound (Cancel.cancel_in now review_id task_id st db).1
unfolding Cancel.cancel_in Cancel.abort
cancel_in-AllSound now review_id task_id complete db h = h
cancel_in-AllSound now review_id task_id failed db h = h
cancel_in-AllSound now review_id task_id cancelled db h = h
cancel_in-AllSound now review_id task_id queued db h =
    change_review-AllSound review_id (Cancel.set_cancelled now) db (λ pr g. tt) h
cancel_in-AllSound now review_id task_id collecting db h =
    change_review-AllSound review_id (Cancel.set_cancelled now) db (λ pr g. tt) h
cancel_in-AllSound now review_id task_id paused_for_review db h =
    change_review-AllSound review_id (Cancel.set_cancelled now) db (λ pr g. tt) h
cancel_in-AllSound now review_id task_id resuming db h =
    change_review-AllSound review_id (Cancel.set_cancelled now) db (λ pr g. tt) h

cancel_found-AllSound :
    (now : ℕ) (review_id user_id : String) (o : Option PullRequest) (db : Db)
    → AllSound db
    → AllSound (Cancel.cancel_found now review_id user_id o db).1
unfolding Cancel.cancel_found
cancel_found-AllSound now review_id user_id none db h = h
cancel_found-AllSound now review_id user_id (some pr) db h =
    elim (Bool-cases (is_owned user_id pr.user_id)) [
      | inl e ↦ rw e (cancel_in-AllSound now review_id pr.task_id pr.status db h)
      | inr e ↦ rw e h
    ]

-- Connecting and disconnecting an account write no review.
pub connect-reviews :
    (fernet : Fernet) (name access_token user_id : String) (db : Db)
    → (Integrations.connect_integration_pat fernet name access_token user_id db).1.pull_requests
      ≡ db.pull_requests
unfolding Integrations.connect_integration_pat Integrations.connect_to Integrations.store_token
connect-reviews fernet name access_token user_id db = ground arith

pub disconnect-reviews :
    (name user_id : String) (db : Db)
    → (Integrations.disconnect_integration name user_id db).1.pull_requests ≡ db.pull_requests
unfolding Integrations.disconnect_integration Integrations.disconnect_from
disconnect-reviews name user_id db = ground arith

module _ (v : Services) where
  module _ (engine : Engine) (fernet : Fernet) (now : ℕ) where
    settle-AllSound :
        (review_id : String) (r : Result Outcome) (s : System v)
        → AllSound s.db
        → AllSound (Approve.settle v engine fernet now review_id r s).1.db
    unfolding Approve.settle Approve.close
    settle-AllSound review_id (err e) s h = h
    settle-AllSound review_id (ok outcome) s h =
        change_review-AllSound review_id (Approve.set_approved now (final_state outcome)) s.db
          (λ pr g. ((_, refl), (_, refl), (_, refl))) h

    resume_from-AllSound :
        (review_id : String) (token : Option String) (o : Option Standing) (s : System v)
        → AllSound s.db
        → AllSound (Approve.resume_from v engine fernet now review_id token o s).1.db
    unfolding Approve.resume_from Approve.resume_run
    resume_from-AllSound review_id token none s h = h
    resume_from-AllSound review_id token (some (at_end final)) s h = h
    resume_from-AllSound review_id token (some (before stage state)) s h =
        let (r, s') = Approve.resume_run v engine fernet now review_id token stage state s in
        settle-AllSound review_id r s' h

    resume_with-AllSound :
        (review_id : String) (r : Result (Option String)) (s : System v)
        → AllSound s.db
        → AllSound
            (((λ (_ : System v). (r, s)) >>= Approve.resume_review v engine fernet now review_id)
              s).1.db
    unfolding Approve.resume_review
    resume_with-AllSound review_id (ok token) s h = resume_from-AllSound review_id token _ s h
    resume_with-AllSound review_id (err e) s h = h

    approve_found-AllSound :
        (review_id user_id : String) (o : Option PullRequest) (s : System v)
        → AllSound s.db
        → AllSound (Approve.approve_found v engine fernet now review_id user_id o s).1.db
    unfolding Approve.approve_found Approve.approve_owned Approve.mark_resuming Approve.find_token
    approve_found-AllSound review_id user_id none s h = h
    approve_found-AllSound review_id user_id (some pr) s h =
        elim (Bool-cases (is_owned user_id pr.user_id)) [
          | inl e ↦ rw e (
              resume_with-AllSound review_id _ _
                (change_review-AllSound review_id (Approve.set_resuming now) s.db (λ x g. tt) h))
          | inr e ↦ rw e h
        ]

  module _ (fernet : Fernet) (settings_token review_id finding_id user_id : String)
      (edited_message : Option String) where
    -- Posting a finding writes no review.
    pub post_for-reviews :
        (o : Option PullRequest) (s : System v)
        → (Post.post_for v fernet settings_token review_id finding_id user_id edited_message o
            s).1.db.pull_requests
          ≡ s.db.pull_requests
    unfolding Post.post_for Post.post_in Post.post_unless Post.post_new Post.find_post_token
        Post.try_post Post.mark_posted
    post_for-reviews o s = ground arith

  -- Generating the artifacts writes to GitHub only.
  pub generate_artifacts-reviews :
      (a : Artifacts.ArtifactServices) (fernet : Fernet) (review_id : String) (s : System v)
      → (Artifacts.generate_artifacts_task v a fernet review_id s).1.db.pull_requests
        ≡ s.db.pull_requests
  unfolding Artifacts.generate_artifacts_task Artifacts.run_agents Artifacts.generate_from
      Artifacts.generate_for Artifacts.create_doc_pr Artifacts.create_test_pr
  generate_artifacts-reviews a fernet review_id s = ground arith

  module _ (settings : Settings) (fernet : Fernet) (uuid : ℕ → String) where
    pub Step-AllSound :
        (s t : System v) → Step v settings fernet uuid s t → AllSound s.db → AllSound t.db
    unfolding Cancel.cancel_review Approve.approve_review Post.post_finding_to_pr
    Step-AllSound s _ (started now user_id request) h =
        start_review-AllSound settings uuid now user_id request s.db h
    Step-AllSound s _ (ran engine now t retries) h =
        (run_review_task-KeepsSound v engine fernet uuid now t retries).at s h
    Step-AllSound s _ (was_cancelled now review_id user_id) h =
        cancel_found-AllSound now review_id user_id _ s.db h
    Step-AllSound s _ (was_approved engine now review_id user_id) h =
        approve_found-AllSound engine fernet now review_id user_id _ s h
    Step-AllSound s _ (posted settings_token review_id finding_id user_id edited_message) h =
        rw (post_for-reviews fernet settings_token review_id finding_id user_id edited_message _ s)
          h
    Step-AllSound s _ (generated a review_id) h =
        rw (generate_artifacts-reviews a fernet review_id s) h
    Step-AllSound s _ (connected name access_token user_id) h =
        rw (connect-reviews fernet name access_token user_id s.db) h
    Step-AllSound s _ (disconnected name user_id) h = rw (disconnect-reviews name user_id s.db) h

    -- In every state that is reached from one with sound reviews, by any sequence of starts, runs
    -- of the review task, cancellations, approvals, posted findings, generated artifacts, and
    -- connected and disconnected accounts, each review that is paused has a stored risk score
    -- above 40, and each complete one has a risk score, a recommendation and a time of completion.
    pub Reach-AllSound :
        (s t : System v) → Reach v settings fernet uuid s t → AllSound s.db → AllSound t.db
    Reach-AllSound s _ here h = h
    Reach-AllSound s _ (after {t = t} r step) h = Step-AllSound t _ step (Reach-AllSound s t r h)
