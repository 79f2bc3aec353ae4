-- ===== src/Reviews/Approve.antt =====
-- `approve_review`: a human lets a paused run go on.
use aerp.Prelude.{
  ℕ, String, Option, none, some, [], ◌∷◌, ◌++◌, Failure, http, error, Result, ok, err, Exec, pure,
  raise, modify, ◌>>=◌, ◌>>◌, if◌then◌else◌,
}
use aerp.State.{ReviewState, ConsensusResult}
use aerp.Database.{PullRequest, resuming, complete, generate_artifacts}
use aerp.Encryption.{Fernet}
use aerp.Workflow.Nodes.{Services}
use aerp.Workflow.Run.{Engine, Outcome}
use aerp.Workflow.Standing
use aerp.Workflow.Standing.{Standing, Stage, at_end, before, final_state}
use aerp.Tasks.Store.{find_review, change_review}
use aerp.Tasks.Review.{Checkpoint, System, stored_token, github_account, last_checkpoint}
use aerp.Reviews.{is_owned}

abbrev pub set_resuming : ℕ → PullRequest → PullRequest
set_resuming now pr = record pr { status = resuming; updated_at = now }

-- `consensus_result.get(…)` of the final state, or of `{}`.
abbrev pub final_score : Option ConsensusResult → ℕ
final_score none = 0
final_score (some c) = c.risk_score

abbrev pub final_recommendation : Option ConsensusResult → String
final_recommendation none = "approve_with_comments"
final_recommendation (some c) = c.recommendation

abbrev pub set_approved : ℕ → ReviewState → PullRequest → PullRequest
set_approved now final pr = record pr {
  status = complete;
  risk_score = some (final_score final.consensus_result);
  recommendation = some (final_recommendation final.consensus_result);
  completed_at = some now;
  updated_at = now;
}

-- `except HTTPException: raise`, and 500 for any other exception.
abbrev pub as_http : Failure → Failure
as_http (http status detail) = http status detail
as_http (error message) = http 500 "Failed to resume workflow."

module _ (v : Services) (engine : Engine) (fernet : Fernet) (now : ℕ) where
  unfoldable pub mark_resuming : String → Exec (System v) (Unit {0})
  mark_resuming review_id =
      modify (λ (s : System v). record s { db = change_review review_id (set_resuming now) s.db })

  unfoldable pub find_token : String → Exec (System v) (Option String)
  find_token user_id s = (stored_token fernet (github_account s.db user_id), s)

  -- After the run: the review is complete, and the artifacts are asked for.
  unfoldable pub close : String → ReviewState → Exec (System v) String
  close review_id final = do
    modify
        (λ (s : System v). record s { db = change_review review_id (set_approved now final) s.db })
    modify (λ (s : System v). record s {
      db = record s.db { jobs = s.db.jobs ++ generate_artifacts review_id ∷ [] };
    })
    pure "Review resumed and completed successfully. Artifact generation started."

  -- `wf.ainvoke(None)`, which saves where it comes to.
  unfoldable pub resume_run : String → Option String → Stage → ReviewState → Exec (System v) Outcome
  resume_run review_id token stage state s =
      let (r, w) = Standing.go_on v engine token stage state s.world in
      (
        r,
        record s {
          world = w;
          checkpoints =
              record {
                thread_id = review_id;
                standing = Standing.saved v engine token stage state s.world r;
              }
              ∷ s.checkpoints;
        },
      )

  unfoldable pub settle : String → Result Outcome → Exec (System v) String
  unfolding close
  settle review_id (err e) = raise (as_http e)
  settle review_id (ok outcome) = close review_id (final_state outcome)

  -- `state.next` is empty on a thread that has ended, and on one that there is not.
  unfoldable pub resume_from : String → Option String → Option Standing → Exec (System v) String
  unfolding settle resume_run
  resume_from review_id token none = raise (http 400 "Workflow is not paused.")
  resume_from review_id token (some (at_end final)) = raise (http 400 "Workflow is not paused.")
  resume_from review_id token (some (before stage state)) =
      λ s. let (r, s') = resume_run review_id token stage state s in settle review_id r s'

  abbrev pub standing_of : Option Checkpoint → Option Standing
  standing_of none = none
  standing_of (some c) = some c.standing

  unfoldable pub resume_review : String → Option String → Exec (System v) String
  unfolding resume_from
  resume_review review_id token s =
      resume_from review_id token (standing_of (last_checkpoint review_id s.checkpoints)) s

  unfoldable pub approve_owned : String → String → Exec (System v) String
  unfolding mark_resuming find_token resume_review
  approve_owned review_id user_id = do
    mark_resuming review_id
    token ← find_token user_id
    resume_review review_id token

  unfoldable pub approve_found : String → String → Option PullRequest → Exec (System v) String
  unfolding approve_owned
  approve_found review_id user_id none = raise (http 404 "Review not found")
  approve_found review_id user_id (some pr) =
      if is_owned user_id pr.user_id
      then approve_owned review_id user_id
      else raise (http 404 "Review not found")

  unfoldable pub approve_review : String → String → Exec (System v) String
  unfolding approve_found
  approve_review review_id user_id s =
      approve_found review_id user_id (find_review review_id s.db) s
