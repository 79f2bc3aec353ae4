-- ===== src/Tasks/Artifacts.antt =====
-- `generate_artifacts_task`: documentation and tests for an approved review, each as a pull request.
-- A pull request is written to the world's list of what is on GitHub.
use aerp.Prelude.{
  String, ◌<>◌, is_truthy, take_chars, Option, none, some, List, [], ◌∷◌, Failure, error, Result,
  ok, err, Exec, pure, raise, lift, ◌>>=◌, ◌>>◌, if◌then◌else◌, ℕ,
}
use aerp.State.{ReviewState, PrMetadata}
use aerp.Database.{Db, PullRequest, ThirdPartyUserAccount}
use aerp.Dict.{Dict}
use aerp.Encryption.{Fernet, decrypt_token}
use aerp.Github.{Posted}
use aerp.Github.Pulls.{RepoClient, create_pull_request}
use aerp.Agents.Documentation.{DocServices, generate_documentation}
use aerp.Agents.TestCode.{TestServices, generate_tests}
use aerp.Workflow.Nodes.{Services}
use aerp.Tasks.Store.{find_review}
use aerp.Workflow.Standing.{values}
use aerp.Tasks.Review.{Checkpoint, System, github_account, last_checkpoint}

pub record ArtifactServices : Type 0 where
  pub repos : RepoClient
  pub docs : DocServices
  pub tests : TestServices

-- How an execution ends: it returns, or asks Celery for a retry after so many seconds, Celery's
-- default.
pub data ArtifactsResult : Type 0 where
  returned : ArtifactsResult
  retried : Failure → ℕ → ArtifactsResult

abbrev no_connector : Failure
no_connector = error "GitHub Connector not configured. Cannot generate artifacts."

unfoldable pub account_token : Fernet → Option ThirdPartyUserAccount → Result (Option String)
account_token fernet none = err no_connector
account_token fernet (some a) =
    if is_truthy a.access_token_encrypted
    then (elim (decrypt_token fernet a.access_token_encrypted) [
      | ok t ↦ ok (some t)
      | err e ↦ err e
    ])
    else err no_connector

abbrev owner_token : Fernet → Db → Option String → Result (Option String)
owner_token fernet db none = ok none
owner_token fernet db (some user_id) = account_token fernet (github_account db user_id)

unfoldable pub review_token : Fernet → Db → Option PullRequest → Result (Option String)
unfolding account_token
review_token fernet db none = ok none
review_token fernet db (some pr) = owner_token fernet db pr.user_id

module _ (v : Services) (a : ArtifactServices) (fernet : Fernet) where
  abbrev in_github : Exec (List Posted) String → Exec (System v) String
  in_github m s =
      let (r, posted) = m s.world.posted in
      (r, record s { world = record s.world { posted = posted } })

  -- `if doc_files`
  unfoldable pub create_doc_pr :
      String → PrMetadata → Option String → Dict String → Exec (System v) (Unit {0})
  create_doc_pr review_id pr token [] = pure tt
  create_doc_pr review_id pr token (f ∷ files) =
      in_github (
        create_pull_request a.repos token pr.repo_owner pr.repo_name
          ("aerp/docs/" <> take_chars 8 review_id) pr.branch
          "AERP Auto-Generated Documentation Updates"
          "Inline documentation and README updates generated based on approved PR." (f ∷ files))
      >> pure tt

  unfoldable pub create_test_pr :
      String → PrMetadata → Option String → String → Exec (System v) String
  create_test_pr review_id pr token test_content = in_github (
      create_pull_request a.repos token pr.repo_owner pr.repo_name
        ("aerp/tests/" <> take_chars 8 review_id) pr.branch "AERP Auto-Generated Tests"
        "Tests generated based on approved review changes."
        (("tests/test_aerp_auto.py", test_content) ∷ []))

  -- `asyncio.gather`: a failure of either agent is raised.
  unfoldable pub generate_for :
      String → Option String → ReviewState → Option PrMetadata → Exec (System v) ArtifactsResult
  unfolding create_doc_pr create_test_pr
  generate_for review_id token state none = raise (error "'NoneType' object has no attribute 'get'")
  generate_for review_id token state (some pr) = do
    doc_files ← lift (generate_documentation a.docs pr state.jira_ticket state.agent_findings)
    test_content ← lift (generate_tests a.tests pr state.jira_ticket)
    create_doc_pr review_id pr token doc_files
    create_test_pr review_id pr token test_content
    pure returned

  unfoldable pub generate_from :
      String → Option String → Option Checkpoint → Exec (System v) ArtifactsResult
  unfolding generate_for
  generate_from review_id token none = pure returned
  generate_from review_id token (some c) =
      let state = values c.standing in generate_for review_id token state state.pr_metadata

  unfoldable pub run_agents : String → Exec (System v) ArtifactsResult
  unfolding review_token generate_from
  run_agents review_id s =
      (do
        token ← lift (review_token fernet s.db (find_review review_id s.db))
        generate_from review_id token (last_checkpoint review_id s.checkpoints))
        s

  -- `except Exception as e: raise self.retry(exc=e)`
  abbrev or_retry : Result ArtifactsResult → ArtifactsResult
  or_retry (ok r) = r
  or_retry (err e) = retried e 180

  unfoldable pub generate_artifacts_task : String → Exec (System v) ArtifactsResult
  unfolding run_agents
  generate_artifacts_task review_id s =
      let (r, s') = run_agents review_id s in (ok (or_retry r), s')
