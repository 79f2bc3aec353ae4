-- ===== src/Tasks/Phases.antt =====
-- `run_review_task` a transaction at a time: each `asyncio.run` of the task is one phase, and other
-- requests and tasks may come between two of them. Within a phase nothing comes between: the
-- workflow, with its checkpoint, is one phase.
use aerp.Prelude.{
  ℕ, zero, suc, ◌+◌, ◌*◌, String, is_truthy, Option, none, some, Failure, Result, ok, err,
  if◌then◌else◌,
}
use aerp.State.{ReviewState}
use aerp.Agents.Base.{failure_text}
use aerp.Database.{collecting, failed, paused_for_review}
use aerp.Encryption.{Fernet}
use aerp.Workflow.Nodes.{Services}
use aerp.Workflow.Run.{Engine, Outcome, completed, paused}
use aerp.Tasks.Store.{update_review_complete, persist_findings}
use aerp.Tasks.Review
use aerp.Tasks.Review.{
  System, Task, TaskResult, failed_with, paused_for, completed_with, retry, missing_connector,
  score_or, recommendation_or, findings_count,
}

-- Where an execution of the task stands, with its local variables.
pub data Phase : Type 0 where
  waiting : Phase  -- delivered, before `_setup_env`
  refused : Phase  -- no token, before the failure is written
  granted : String → Phase  -- before `collecting` is written
  working : String → Phase  -- before `_run_langgraph`
  ran : Outcome → Phase  -- the workflow has returned
  recorded : Outcome → Phase  -- its findings are stored
  notifying : ReviewState → Phase  -- before the message to Slack
  failing : Failure → Phase  -- in the `except` block
  over : Result TaskResult → Phase

abbrev pub with_token : Result (Option String) → Phase
with_token (err e) = over (err e)
with_token (ok none) = refused
with_token (ok (some token)) = if is_truthy token then granted token else refused

module _ (v : Services) (engine : Engine) (fernet : Fernet) (uuid : ℕ → String) (now : ℕ) where
  abbrev pub returned : Result Outcome → System v → Phase × System v
  returned (err e) s = (failing e, s)
  returned (ok outcome) s = (ran outcome, s)

  abbrev record_findings : Task → ReviewState → System v → System v
  record_findings t final s =
      (Review.in_db v engine fernet uuid now
        (persist_findings now uuid t.review_id final.agent_findings) s).1

  -- After a run to the end, an error in its state fails the review.
  unfoldable pub record_end : Task → ReviewState → Option String → System v → Phase × System v
  record_end t final none s = (recorded (completed final), record_findings t final s)
  record_end t final (some e) s = (
    over (ok (failed_with e)),
    (Review.set_status v engine fernet uuid now t.review_id failed (some e) none s).1,
  )

  abbrev complete_review : Task → ReviewState → System v → System v
  complete_review t final s =
      (Review.in_db v engine fernet uuid now
        (update_review_complete now t.review_id
          (score_or final.agent_findings final.consensus_result)
          (recommendation_or final.consensus_result))
        s).1

  -- The next transaction of an execution.
  unfoldable pub advance : Task → ℕ → Phase → System v → Phase × System v
  unfolding record_end
  advance t retries waiting s =
      let (r, s') = Review.setup_env v engine fernet uuid now t.user_id s in (with_token r, s')
  advance t retries refused s = (
    over (ok (failed_with missing_connector)),
    (Review.set_status v engine fernet uuid now t.review_id failed (some missing_connector) none
        s).1,
  )
  advance t retries (granted token) s = (
    working token,
    (Review.set_status v engine fernet uuid now t.review_id collecting none none s).1,
  )
  advance t retries (working token) s =
      let (r, s') = Review.run_langgraph v engine fernet uuid now t (some token) s in returned r s'
  advance t retries (ran (paused final)) s = (recorded (paused final), record_findings t final s)
  advance t retries (ran (completed final)) s =
      record_end t final (Review.final_error v engine fernet uuid now final) s
  advance t retries (recorded (paused final)) s = (
    notifying final,
    (Review.set_status v engine fernet uuid now t.review_id paused_for_review none
        (some (score_or final.agent_findings final.consensus_result)) s).1,
  )
  advance t retries (recorded (completed final)) s = (
    over (
        ok (
          completed_with (findings_count final.agent_findings final.consensus_result)
            (score_or final.agent_findings final.consensus_result)
            (recommendation_or final.consensus_result))),
    complete_review t final s,
  )
  advance t retries (notifying final) s = (
    over (ok (paused_for t.review_id)),
    (Review.notify v engine fernet uuid now t.review_id t.pr_url
        (score_or final.agent_findings final.consensus_result) s).1,
  )
  advance t retries (failing e) s = (
    over (ok (retry e (30 * (retries + 1)))),
    (Review.set_status v engine fernet uuid now t.review_id failed (some (failure_text e)) none
        s).1,
  )
  advance t retries (over r) s = (over r, s)

  unfoldable pub advance_by : ℕ → Task → ℕ → Phase → System v → Phase × System v
  advance_by zero t retries p s = (p, s)
  advance_by (suc n) t retries p s =
      let (p', s') = advance t retries p s in advance_by n t retries p' s'
