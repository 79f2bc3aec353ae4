-- ===== src/Lifecycle/TaskSound.antt =====
-- What an execution of the review task does to the reviews.
use aerp.Prelude.{
  ℕ, ◌<◌, ◌≡◌, refl, String, Option, none, some, Result, ok, err, ◌>>=◌, Bool-cases, inl, inr,
  is_truthy,
}
use aerp.State.{ReviewState, ConsensusResult}
use aerp.Database.{PullRequest, ReviewStatus, collecting, failed}
use aerp.Encryption.{Fernet}
use aerp.Workflow.Nodes.{Services, World}
use aerp.Agents.Base.{failure_text}
use aerp.Workflow.Run
use aerp.Workflow.Run.{Engine, Outcome, completed, paused}
use aerp.Workflow.Whole.{invoke_paused}
use aerp.Tasks.Store
use aerp.Tasks.Store.{change_review, has_id}
use aerp.Tasks.Review
use aerp.Tasks.Review.{System, Task, TaskResult}
use package.aerp.Lifecycle.Sound
use package.aerp.Lifecycle.Sound.{
  IsSound, IsSoundAs, AllSound, KeepsSound, >>=-KeepsSound, change_review-AllSound,
}

-- A run that pauses has a consensus above the gate.
abbrev pub IsHigh : Outcome → Type 0
IsHigh (paused final) =
    (c : ConsensusResult) × (final.consensus_result ≡ some c) × (40 < c.risk_score)
IsHigh (completed final) = Unit

abbrev pub IsHighResult : Result Outcome → Type 0
IsHighResult (ok outcome) = IsHigh outcome
IsHighResult (err e) = Unit

module _ (v : Services) where
  module _ (engine : Engine) (fernet : Fernet) (uuid : ℕ → String) (now : ℕ) where
    pub set_status-KeepsSound :
        (id : String) (st : ReviewStatus) (e : Option String) (n : Option ℕ)
        → ((pr : PullRequest) → IsSoundAs st (Store.set_status now st e n pr))
        → KeepsSound v (Review.set_status v engine fernet uuid now id st e n)
    unfolding Review.set_status Store.update_review_status Store.set_status
    set_status-KeepsSound id st e n keeps = record {
      at = λ s h. change_review-AllSound id _ s.db (λ pr g. keeps pr) h;
    }

    pub invoke-IsHigh :
        (token : Option String) (state : ReviewState) (w : World v) (r : Result Outcome)
        → (Run.invoke v engine token state w).0 ≡ r
        → IsHighResult r
    invoke-IsHigh token state w (err e) out = tt
    invoke-IsHigh token state w (ok (completed final)) out = tt
    invoke-IsHigh token state w (ok (paused final)) out =
        let (kept, (c, is_c, high, asks)) = invoke_paused v engine token state final w out in
        (c, is_c, high)

    finish_with-Sound :
        (t : Task) (final : ReviewState) (e : Option String) (s : System v)
        → AllSound s.db
        → AllSound (Review.finish_with v engine fernet uuid now t final e s).1.db
    unfolding Review.finish_with Store.persist_findings Store.update_review_complete
        Store.set_complete Review.set_status Store.update_review_status Store.set_status
    finish_with-Sound t final none s h =
        change_review-AllSound t.review_id _ s.db (λ pr g. ((_, refl), (_, refl), (_, refl))) h
    finish_with-Sound t final (some e) s h =
        change_review-AllSound t.review_id _ s.db (λ pr g. tt) h

    finish-Sound :
        (t : Task) (o : Outcome) (s : System v)
        → IsHigh o
        → AllSound s.db
        → AllSound (Review.finish v engine fernet uuid now t o s).1.db
    unfolding Review.finish Review.finish_paused Review.finish_completed Review.set_status
        Store.persist_findings Store.update_review_status Store.set_status
    finish-Sound t (paused final) s (c, is_c, high) h =
        change_review-AllSound t.review_id _ s.db (λ pr g. (c.risk_score, rw is_c refl, high)) h
    finish-Sound t (completed final) s high h = finish_with-Sound t final _ s h

    -- What follows the workflow keeps the reviews sound, where a run that paused is above the gate.
    settle-Sound :
        (t : Task) (r : Result Outcome) (s : System v)
        → IsHighResult r
        → AllSound s.db
        → AllSound (
            (((λ (_ : System v). (r, s)) >>= λ outcome.
            Review.finish v engine fernet uuid now t outcome)
              s).1.db)
    settle-Sound t (ok outcome) s high h = finish-Sound t outcome _ high h
    settle-Sound t (err e) s high h = h

    attempt_review-KeepsSound :
        (t : Task) (token : Option String)
        → KeepsSound v (Review.attempt_review v engine fernet uuid now t token)
    unfolding Review.attempt_review Review.run_langgraph
    attempt_review-KeepsSound t token = record {
      at = λ s h.
          let (r, s') = Review.run_langgraph v engine fernet uuid now t token s in
          settle-Sound t r s'
            (invoke-IsHigh token (Review.start_state v engine fernet uuid now t s.checkpoints)
              s.world r refl)
            h;
    }

    handle-Sound :
        (t : Task) (retries : ℕ) (r : Result TaskResult) (s : System v)
        → AllSound s.db
        → AllSound (Review.handle v engine fernet uuid now t retries r s).1.db
    unfolding Review.handle Review.recover
    handle-Sound t retries (ok result) s h = h
    handle-Sound t retries (err e) s h =
        (set_status-KeepsSound t.review_id failed (some (failure_text e)) none (λ pr. tt)).at s h

    try_review-Sound :
        (t : Task) (retries : ℕ) (token : Option String) (s : System v)
        → AllSound s.db
        → AllSound (Review.try_review v engine fernet uuid now t retries token s).1.db
    unfolding Review.try_review
    try_review-Sound t retries token s h =
        let started =
          (Review.set_status v engine fernet uuid now t.review_id collecting none none s).1 in
        let h₁ = (set_status-KeepsSound t.review_id collecting none none (λ pr. tt)).at s h in
        let (r, s₂) = Review.attempt_review v engine fernet uuid now t token started in
        handle-Sound t retries r s₂ ((attempt_review-KeepsSound t token).at started h₁)

    refuse-Sound :
        (t : Task) (s : System v)
        → AllSound s.db
        → AllSound (Review.refuse v engine fernet uuid now t s).1.db
    unfolding Review.refuse
    refuse-Sound t s h =
        (set_status-KeepsSound t.review_id failed (some Review.missing_connector) none
            (λ pr. tt)).at
          s h

    run_with_token-KeepsSound :
        (t : Task) (retries : ℕ) (token : Option String)
        → KeepsSound v (Review.run_with_token v engine fernet uuid now t retries token)
    unfolding Review.run_with_token
    run_with_token-KeepsSound t retries none = record { at = λ s h. refuse-Sound t s h }
    run_with_token-KeepsSound t retries (some token) = elim (Bool-cases (is_truthy token)) [
      | inl e ↦ record { at = λ s h. rw e (try_review-Sound t retries (some token) s h) }
      | inr e ↦ record { at = λ s h. rw e (refuse-Sound t s h) }
    ]

    setup_env-KeepsSound :
        (user_id : Option String) → KeepsSound v (Review.setup_env v engine fernet uuid now user_id)
    unfolding Review.setup_env
    setup_env-KeepsSound none = record { at = λ s h. h }
    setup_env-KeepsSound (some user_id) = record { at = λ s h. h }

    pub run_review_task-KeepsSound :
        (t : Task) (retries : ℕ)
        → KeepsSound v (Review.run_review_task v engine fernet uuid now t retries)
    unfolding Review.run_review_task
    run_review_task-KeepsSound t retries =
        Sound.>>=-KeepsSound v (setup_env-KeepsSound t.user_id)
          (λ token. run_with_token-KeepsSound t retries token)
