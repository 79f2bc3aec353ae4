-- ===== src/Tasks/Reported.antt =====
-- The result of the review task and the row of the review say the same.
use aerp.Prelude.{
  ℕ, ◌≡◌, refl, inl, inr, String, is_truthy, ◌⊎◌, Option, none, some, Result, ok, err, Bool-cases,
  false, ◌>>=◌,
}
use aerp.State.{ReviewState}
use aerp.Database.{Db, PullRequest, ReviewStatus, collecting, failed, paused_for_review, complete}
use aerp.Encryption.{Fernet}
use aerp.Agents.Base.{failure_text}
use aerp.Workflow.Nodes.{Services}
use aerp.Workflow.Run.{Engine, Outcome, completed, paused}
use aerp.Tasks.Store
use aerp.Tasks.Store.{find_review, update_review_status, update_review_complete, persist_findings}
use aerp.Tasks.Review
use aerp.Tasks.Review.{Task, TaskResult, System, failed_with, paused_for, completed_with, retry}
use aerp.Tasks.Laws.{
  IsStored, change_review-find_review, set_status-find_review, run_langgraph-IsStored,
}

-- The row holds the message, unless it is empty.
abbrev pub HasError : String → PullRequest → Type 0
HasError message pr = (is_truthy message ≡ false) ⊎ (pr.error ≡ some message)

set_status-HasError :
    (now : ℕ) (st : ReviewStatus) (e : String) (n : Option ℕ) (pr : PullRequest)
    → HasError e (Store.set_status now st (some e) n pr)
unfolding Store.set_status
set_status-HasError now st e n pr = elim (Bool-cases (is_truthy e)) [
  | inl full ↦ inr (rw full refl)
  | inr empty ↦ inl empty
]

abbrev pub IsReportedBy : TaskResult → PullRequest → Type 0
IsReportedBy (failed_with message) pr = (pr.status ≡ failed) × HasError message pr
IsReportedBy (paused_for id) pr =
    (pr.status ≡ paused_for_review) × ((n : ℕ) × (pr.risk_score ≡ some n))
IsReportedBy (completed_with findings score recommendation) pr =
    (pr.status ≡ complete)
    × (pr.risk_score ≡ some score)
    × (pr.recommendation ≡ some recommendation)
IsReportedBy (retry e wait) pr = (pr.status ≡ failed) × HasError (failure_text e) pr

-- The task returned a result, and the stored review says the same.
abbrev pub HasReported : String → Result TaskResult × Db → Type 0
HasReported id out =
    (result : TaskResult) × (out.0 ≡ ok result)
    × ((pr : PullRequest) × (find_review id out.1 ≡ some pr) × IsReportedBy result pr)

module _ (v : Services) (engine : Engine) (fernet : Fernet) (uuid : ℕ → String) (now : ℕ)
    (t : Task) where
  -- A result is reported; after an exception the review is still stored.
  abbrev Tried : Result TaskResult × System v → Type 0
  Tried (ok r, s) = HasReported t.review_id (ok r, s.db)
  Tried (err e, s) = IsStored t.review_id s.db

  abbrev Reported : Result TaskResult × System v → Type 0
  Reported (r, s) = HasReported t.review_id (r, s.db)

  finish_with-Tried :
      (final : ReviewState) (e : Option String) (s : System v)
      → IsStored t.review_id s.db
      → Tried (Review.finish_with v engine fernet uuid now t final e s)
  unfolding Review.finish_with persist_findings update_review_complete Store.set_complete
      Review.set_status update_review_status Store.set_status
  finish_with-Tried final none s (pr, found) = (
    _,
    refl,
    (_, change_review-find_review t.review_id _ s.db pr (λ x. refl) found, (refl, refl, refl)),
  )
  finish_with-Tried final (some e) s (pr, found) = (
    _,
    refl,
    (
      _,
      change_review-find_review t.review_id _ s.db pr (λ x. refl) found,
      (refl, set_status-HasError now failed e none pr),
    ),
  )

  finish-Tried :
      (o : Outcome) (s : System v)
      → IsStored t.review_id s.db
      → Tried (Review.finish v engine fernet uuid now t o s)
  unfolding Review.finish Review.finish_completed Review.finish_paused persist_findings
      Review.set_status update_review_status Store.set_status
  finish-Tried (paused final) s (pr, found) = (
    _,
    refl,
    (_, change_review-find_review t.review_id _ s.db pr (λ x. refl) found, (refl, (_, refl))),
  )
  finish-Tried (completed final) s h = finish_with-Tried final _ s h

  after-Tried :
      (r : Result Outcome) (s : System v)
      → IsStored t.review_id s.db
      → Tried (
          ((λ (_ : System v). (r, s)) >>= λ outcome.
          Review.finish v engine fernet uuid now t outcome)
            s)
  after-Tried (ok outcome) s h = finish-Tried outcome s h
  after-Tried (err e) s h = h

  handle-Reported :
      (retries : ℕ) (r : Result TaskResult) (s : System v)
      → Tried (r, s)
      → Reported (Review.handle v engine fernet uuid now t retries r s)
  unfolding Review.handle Review.recover Review.set_status update_review_status Store.set_status
  handle-Reported retries (ok result) s h = h
  handle-Reported retries (err e) s (pr, found) = (
    _,
    refl,
    (
      _,
      change_review-find_review t.review_id _ s.db pr (λ x. refl) found,
      (refl, set_status-HasError now failed (failure_text e) none pr),
    ),
  )

  try_review-Reported :
      (retries : ℕ) (token : Option String) (s : System v)
      → IsStored t.review_id s.db
      → Reported (Review.try_review v engine fernet uuid now t retries token s)
  unfolding Review.try_review Review.attempt_review
  try_review-Reported retries token s h =
      let (pr, found, st) =
        set_status-find_review v engine fernet uuid now t.review_id collecting none none s h in
      let started =
        (Review.set_status v engine fernet uuid now t.review_id collecting none none s).1 in
      let (r, ran) = Review.run_langgraph v engine fernet uuid now t token started in
      handle-Reported retries _ _ (
        after-Tried r ran
          (run_langgraph-IsStored v engine fernet uuid now t token started (pr, found)))

  refuse-Reported :
      (s : System v)
      → IsStored t.review_id s.db
      → Reported (Review.refuse v engine fernet uuid now t s)
  unfolding Review.refuse Review.set_status update_review_status Store.set_status
  refuse-Reported s (pr, found) = (
    _,
    refl,
    (
      _,
      change_review-find_review t.review_id _ s.db pr (λ x. refl) found,
      (refl, set_status-HasError now failed Review.missing_connector none pr),
    ),
  )

  -- Past the lookup of the token, a run of the review task on a stored review returns a result,
  -- and the row of the review says the same as the result: a failure and a retry leave it failed,
  -- with the message or the text of the exception as its error unless that is empty, a pause
  -- leaves it paused with a score, and a completion complete, with the score and the
  -- recommendation that the task returns.
  pub run_with_token-HasReported :
      (retries : ℕ) (token : Option String) (s : System v)
      → IsStored t.review_id s.db
      → HasReported t.review_id (
        (Review.run_with_token v engine fernet uuid now t retries token s).0,
        (Review.run_with_token v engine fernet uuid now t retries token s).1.db,
      )
  unfolding Review.run_with_token
  run_with_token-HasReported retries none s h = refuse-Reported s h
  run_with_token-HasReported retries (some token) s h = elim (Bool-cases (is_truthy token)) [
    | inl e ↦ rw e (try_review-Reported retries (some token) s h)
    | inr e ↦ rw e (refuse-Reported s h)
  ]
