-- ===== src/Tasks/Review.antt =====
-- `run_review_task`: one execution of the Celery task, over the database, the world of the workflow
-- and LangGraph's checkpoints.
use aerp.Prelude.{
  ℕ, ◌+◌, ◌*◌, String, str_eq, is_truthy, is_some, find_first, Bool, ◌&&◌, Option, none, some, List,
  [], ◌∷◌, ◌++◌, Failure, Result, ok, err, Exec, pure, modify, ◌>>=◌, ◌>>◌, if◌then◌else◌, length,
}
use aerp.State.{AgentFinding, ConsensusResult, ReviewState, create_initial_state}
use aerp.Agents.Base.{failure_text}
use aerp.Workflow.Nodes.{Services, World}
use aerp.Workflow.Run
use aerp.Workflow.Run.{Engine, Outcome, completed, paused}
use aerp.Workflow.Standing
use aerp.Workflow.Standing.{Standing, at_context, values}
use aerp.Encryption.{Fernet, decrypt_token}
use aerp.Database.{
  ReviewStatus, Db, ThirdPartyUserAccount, ThirdPartyIntegration, collecting, failed,
  paused_for_review,
}
use aerp.Tasks.Risk.{compute_risk_score}
use aerp.Tasks.Store.{update_review_status, update_review_complete, persist_findings}

-- The account that the query of the GitHub connector finds.
abbrev pub is_named : String → String → ThirdPartyIntegration → Bool
is_named name id i = str_eq i.id id && str_eq i.name name

abbrev pub is_github_account : Db → String → ThirdPartyUserAccount → Bool
is_github_account db user_id a =
    str_eq a.user_id user_id
    && is_some (find_first (is_named "github" a.integration_id) db.integrations)

abbrev pub github_account : Db → String → Option ThirdPartyUserAccount
github_account db user_id = find_first (is_github_account db user_id) db.accounts

-- A token that is missing, or stored as an empty text, is `None`.
unfoldable pub stored_token : Fernet → Option ThirdPartyUserAccount → Result (Option String)
stored_token fernet none = ok none
stored_token fernet (some a) =
    if is_truthy a.access_token_encrypted
    then (elim (decrypt_token fernet a.access_token_encrypted) [
      | ok t ↦ ok (some t)
      | err e ↦ err e
    ])
    else ok none

-- Where the last run of the thread stands.
pub record Checkpoint : Type 0 where
  pub thread_id : String
  pub standing : Standing

abbrev pub is_thread : String → Checkpoint → Bool
is_thread review_id c = str_eq c.thread_id review_id

-- The last state that was saved for the review.
abbrev pub last_checkpoint : String → List Checkpoint → Option Checkpoint
last_checkpoint review_id checkpoints = find_first (is_thread review_id) checkpoints

abbrev pub findings_before : Option Checkpoint → List AgentFinding
findings_before none = []
findings_before (some c) = (values c.standing).agent_findings

pub record Slack : Type 0 where
  pub review_id : String
  pub pr_url : String
  pub risk_score : ℕ

pub record System (v : Services) : Type 0 where
  pub db : Db
  pub world : World v
  pub checkpoints : List Checkpoint
  pub slack : List Slack

pub data TaskResult : Type 0 where
  failed_with : String → TaskResult
  paused_for : String → TaskResult
  completed_with : ℕ → ℕ → String → TaskResult
  retry : Failure → ℕ → TaskResult

pub record Task : Type 0 where
  pub review_id : String
  pub pr_url : String
  pub jira_url : Option String
  pub doc_url : Option String
  pub user_id : Option String

abbrev pub score_or : List AgentFinding → Option ConsensusResult → ℕ
score_or findings none = compute_risk_score findings
score_or findings (some c) = c.risk_score

abbrev pub recommendation_or : Option ConsensusResult → String
recommendation_or none = "approve_with_comments"
recommendation_or (some c) = c.recommendation

abbrev pub findings_count : List AgentFinding → Option ConsensusResult → ℕ
findings_count findings none = length findings
findings_count findings (some c) = length c.findings

abbrev pub missing_connector : String
missing_connector =
    "GitHub Connector not configured. Please add your Personal Access Token in the Connectors settings."

module _ (v : Services) (engine : Engine) (fernet : Fernet) (uuid : ℕ → String) (now : ℕ) where
  abbrev pub in_db : {A : Type 0} → Exec Db A → Exec (System v) A
  in_db m s = let (r, db) = m s.db in (r, record s { db = db })

  -- `AsyncRedisSaver` keeps the last state of each thread.
  abbrev pub save : String → Standing → System v → System v
  save thread standing s = record s {
    checkpoints = record { thread_id = thread; standing = standing } ∷ s.checkpoints;
  }

  -- A run on a thread that has run before starts from the saved state: the initial state replaces
  -- what is under its keys, but `agent_findings` is appended to.
  abbrev pub start_state : Task → List Checkpoint → ReviewState
  start_state t checkpoints =
      record (create_initial_state t.review_id t.pr_url t.jira_url t.doc_url) {
        agent_findings = findings_before (last_checkpoint t.review_id checkpoints);
      }

  -- `_run_langgraph`
  unfoldable pub run_langgraph : Task → Option String → Exec (System v) Outcome
  run_langgraph t token s =
      let start = start_state t s.checkpoints in
      let (r, w) = Run.invoke v engine token start s.world in
      (
        r,
        save t.review_id (Standing.saved v engine token at_context start s.world r)
            (record s { world = w }),
      )

  abbrev pub notify : String → String → ℕ → Exec (System v) (Unit {0})
  notify review_id pr_url risk_score = modify (λ (s : System v). record s {
    slack =
        s.slack ++ record { review_id = review_id; pr_url = pr_url; risk_score = risk_score } ∷ [];
  })

  unfoldable pub set_status :
      String → ReviewStatus → Option String → Option ℕ → Exec (System v) (Unit {0})
  unfolding update_review_status
  set_status review_id status e risk_score =
      in_db (update_review_status now review_id status e risk_score)

  unfoldable pub setup_env : Option String → Exec (System v) (Option String)
  unfolding stored_token
  setup_env none s = (ok none, s)
  setup_env (some user_id) s = (
    (if is_truthy user_id then stored_token fernet (github_account s.db user_id) else ok none),
    s,
  )

  unfoldable pub finish_paused : Task → ReviewState → Exec (System v) TaskResult
  unfolding set_status persist_findings
  finish_paused t final = do
    let risk_score = score_or final.agent_findings final.consensus_result
    in_db (persist_findings now uuid t.review_id final.agent_findings)
    set_status t.review_id paused_for_review none (some risk_score)
    notify t.review_id t.pr_url risk_score
    pure (paused_for t.review_id)

  -- A final state with an error that is not empty fails the review.
  abbrev pub final_error : ReviewState → Option String
  final_error final = elim final.error [
    | none ↦ none
    | some e ↦ if is_truthy e then some e else none
  ]

  unfoldable pub finish_with : Task → ReviewState → Option String → Exec (System v) TaskResult
  unfolding set_status persist_findings update_review_complete
  finish_with t final (some e) = do
    set_status t.review_id failed (some e) none
    pure (failed_with e)
  finish_with t final none = do
    let risk_score = score_or final.agent_findings final.consensus_result
    let recommendation = recommendation_or final.consensus_result
    in_db (persist_findings now uuid t.review_id final.agent_findings)
    in_db (update_review_complete now t.review_id risk_score recommendation)
    pure (
        completed_with (findings_count final.agent_findings final.consensus_result) risk_score
          recommendation)

  unfoldable pub finish_completed : Task → ReviewState → Exec (System v) TaskResult
  unfolding finish_with
  finish_completed t final = finish_with t final (final_error final)

  unfoldable pub finish : Task → Outcome → Exec (System v) TaskResult
  unfolding finish_paused finish_completed
  finish t (paused final) = finish_paused t final
  finish t (completed final) = finish_completed t final

  -- The body of the `try` block.
  unfoldable pub attempt_review : Task → Option String → Exec (System v) TaskResult
  unfolding run_langgraph finish
  attempt_review t token = do outcome ← run_langgraph t token; finish t outcome

  -- The `except` block marks the review failed and asks for a retry.
  unfoldable pub recover : Task → ℕ → Failure → Exec (System v) TaskResult
  unfolding set_status
  recover t retries e = do
    set_status t.review_id failed (some (failure_text e)) none
    pure (retry e (30 * (retries + 1)))

  -- The `try` statement: an exception of the body, and what it had done by then, go to `recover`.
  unfoldable pub handle : Task → ℕ → Result TaskResult → Exec (System v) TaskResult
  unfolding recover
  handle t retries (ok result) = pure result
  handle t retries (err e) = recover t retries e

  unfoldable pub try_review : Task → ℕ → Option String → Exec (System v) TaskResult
  unfolding handle set_status
  try_review t retries token s =
      let (_, s₁) = set_status t.review_id collecting none none s in
      let (r, s₂) = attempt_review t token s₁ in handle t retries r s₂

  unfoldable pub refuse : Task → Exec (System v) TaskResult
  unfolding set_status
  refuse t = do
    set_status t.review_id failed (some missing_connector) none
    pure (failed_with missing_connector)

  -- `retries` is how often Celery has retried the task before.
  unfoldable pub run_with_token : Task → ℕ → Option String → Exec (System v) TaskResult
  run_with_token t retries none = refuse t
  run_with_token t retries (some token) =
      if is_truthy token then try_review t retries (some token) else refuse t

  unfoldable pub run_review_task : Task → ℕ → Exec (System v) TaskResult
  unfolding setup_env
  run_review_task t retries = do token ← setup_env t.user_id; run_with_token t retries token
