-- ===== src/Lifecycle.antt =====
-- The system over time: each step is one request or one execution of a task, at its own clock and with
-- its own order of the agents. Requests that read only, and those on users, are left out: they
-- do not write reviews.
pub mod Sound
pub mod TaskSound
pub mod Invariant
pub mod Interleaved
pub mod InterleavedSound
pub mod Overwritten
pub mod Cancelled
pub mod Aside
pub mod StaysCancelled
use aerp.Prelude.{ℕ, String, Option}
use aerp.Encryption.{Fernet}
use aerp.Workflow.Nodes.{Services}
use aerp.Workflow.Run.{Engine}
use aerp.Tasks.Review
use aerp.Tasks.Review.{System, Task}
use aerp.Tasks.Artifacts
use aerp.Tasks.Artifacts.{ArtifactServices}
use aerp.Integrations.{connect_integration_pat, disconnect_integration}
use aerp.Reviews.Start
use aerp.Config.{Settings}
use aerp.Reviews.Start.{StartReviewRequest}
use aerp.Reviews.Cancel.{cancel_review}
use aerp.Reviews.Approve
use aerp.Reviews.Post

module _ (v : Services) (settings : Settings) (fernet : Fernet) (uuid : ℕ → String) where
  pub data Step (s : System v) : System v → Type 0 where
    started :
        (now : ℕ) (user_id : String) (request : StartReviewRequest)
        → Step s (record s { db = (Start.start_review settings uuid now user_id request s.db).1 })
    ran :
        (engine : Engine) (now : ℕ) (t : Task) (retries : ℕ)
        → Step s (Review.run_review_task v engine fernet uuid now t retries s).1
    was_cancelled :
        (now : ℕ) (review_id user_id : String)
        → Step s (record s { db = (cancel_review now review_id user_id s.db).1 })
    was_approved :
        (engine : Engine) (now : ℕ) (review_id user_id : String)
        → Step s (Approve.approve_review v engine fernet now review_id user_id s).1
    posted :
        (settings_token review_id finding_id user_id : String) (edited_message : Option String)
        → Step s
            (Post.post_finding_to_pr v fernet settings_token review_id finding_id user_id
              edited_message s).1
    generated :
        (a : ArtifactServices) (review_id : String)
        → Step s (Artifacts.generate_artifacts_task v a fernet review_id s).1
    connected :
        (name access_token user_id : String)
        → Step s
            (record s { db = (connect_integration_pat fernet name access_token user_id s.db).1 })
    disconnected :
        (name user_id : String)
        → Step s (record s { db = (disconnect_integration name user_id s.db).1 })

  -- What is reached by any number of steps.
  pub data Reach (s : System v) : System v → Type 0 where
    here : Reach s s
    after : {t u : System v} → Reach s t → Step t u → Reach s u
