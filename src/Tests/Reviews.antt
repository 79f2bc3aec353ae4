-- ===== src/Tests/Reviews.antt =====
-- The routes of a review at concrete data.
use aerp.Prelude.{◌⊎◌, String, ◌≡◌, refl, none, some, [], ◌∷◌, http, ok, err}
use aerp.Database.{PullRequest, queued, complete}
use aerp.Tasks.Review.{Checkpoint, System, stored_token, github_account}
use aerp.Tasks.Store.{find_review}
use aerp.Reviews.Start
use aerp.Config.{Settings, get_llm, get_embedder, gemini_embeddings}
use aerp.Config.Recorded.{described, new_review-get_llm}
use aerp.Reviews.Start.{StartReviewRequest, get_review_status, new_review}
use aerp.Reviews.Approve
use aerp.Reviews.Laws.{start_review-queued, approve_review-unpaused}
use aerp.Reviews.Access.{IsOwnReview, IsShut, owned_or_refused}
use aerp.Reviews.Resumed.{approve_review-complete}
use aerp.State.{ConsensusResult, ReviewState}
use aerp.Workflow.Standing
use aerp.Workflow.Standing.{before, at_hitl, at_consensus}
use aerp.Tests.Data.{collected_review}
use aerp.Tests.Engine.{in_order}
use aerp.Tests.Accounts.{fernet, uuid, queued_review, empty_db}
use aerp.Tests.Storage.{risky, system}

abbrev pub settings : Settings
settings = record {
  llm_provider = "OpenAI";
  google_api_key = "key";
  gemini_model = "gemini-2.5-flash";
  gemini_embedding_model = "text-embedding-004";
  openai_api_key = "";
  openai_model = "gpt-4o";
  anthropic_api_key = "";
  anthropic_model = "claude-3-5-sonnet-latest";
  database_url = "postgresql+asyncpg://aerp@postgres/aerp_db";
  redis_url = "redis://redis:6379/0";
  secret_key = "";
  app_env = "development";
  environ = record { ollama_model = none; ollama_base_url = none; ollama_embedding_model = none };
}

abbrev request : StartReviewRequest
request = record { pr_url = "https://github.com/acme/shop/pull/7"; jira_url = none; doc_url = none }

start_review-queued_example :
    (pr : PullRequest) × (get_review_status "-id" "u1"
        (Start.start_review settings uuid 1000 "u1" request empty_db).1
      ≡ ok pr)
    × (pr.status ≡ queued)
    × (pr.pr_url ≡ "https://github.com/acme/shop/pull/7")
start_review-queued_example = start_review-queued settings uuid 1000 "u1" request empty_db refl

-- The same system with no connected account.
abbrev unconnected : System risky
unconnected = record system { db = record empty_db { pull_requests = queued_review ∷ [] } }

no-token : stored_token fernet (github_account unconnected.db "u1") ≡ ok none
unfolding stored_token
no-token = refl

approve_review-unpaused_example :
    ((Approve.approve_review risky in_order fernet 1000 "r1" "u1" unconnected).0
      ≡ err (http 400 "Workflow is not paused."))
    × (find_review "r1"
          (Approve.approve_review risky in_order fernet 1000 "r1" "u1" unconnected).1.db
        ≡ some (Approve.set_resuming 1000 queued_review))
approve_review-unpaused_example =
    approve_review-unpaused risky in_order fernet 1000 "r1" "u1" unconnected queued_review none refl
      refl no-token refl

new_review-get_llm_example :
    ((new_review settings 1000 "r1" "u1" request).llm_provider
      ≡ some (described (get_llm settings 0)).0)
    × ((new_review settings 1000 "r1" "u1" request).llm_model
        ≡ some (described (get_llm settings 0)).1)
new_review-get_llm_example = new_review-get_llm settings 0 1000 "r1" "u1" request

-- Without a key for OpenAI's embeddings, Anthropic's users get Gemini's.
anthropic-embeddings :
    get_embedder (record settings { llm_provider = "Anthropic" })
    ≡ gemini_embeddings "text-embedding-004" "key"
unfolding get_embedder
anthropic-embeddings = refl

not-github :
    Start.submit_review settings uuid 1000 "u1"
      (record request { pr_url = "https://acme.org/7" })
      empty_db
    ≡ (
      err (
          http 422
            "pr_url must be a valid GitHub PR URL (e.g., https://github.com/owner/repo/pull/123)"),
      empty_db,
    )
unfolding Start.submit_review
not-github = refl

abbrev consensus : ConsensusResult
consensus = record {
  agent = "consensus_agent";
  findings = [];
  overall_assessment = "Merged.";
  recommendation = "request_changes";
  risk_score = 75;
  confidence = 900;
  final_findings = none;
}

-- The review paused with a consensus.
abbrev paused_review : ReviewState
paused_review = record collected_review { consensus_result = some consensus }

abbrev saved : Checkpoint
saved = record { thread_id = "r1"; standing = before at_hitl paused_review }

abbrev pub waiting : System risky
waiting = record unconnected { checkpoints = saved ∷ [] }

approve_review-complete_example :
    ((message : String) × ((Approve.approve_review risky in_order fernet 1000 "r1" "u1" waiting).0
        ≡ ok message))
    × ((after : PullRequest) × (find_review "r1"
            (Approve.approve_review risky in_order fernet 1000 "r1" "u1" waiting).1.db
          ≡ some after)
        × (after.status ≡ complete)
        × (after.risk_score ≡ some 75)
        × (after.recommendation ≡ some "request_changes"))
approve_review-complete_example =
    approve_review-complete risky in_order fernet 1000 "r1" "u1" waiting queued_review none saved
      paused_review consensus refl refl no-token refl refl refl

owned_or_refused_example :
    IsOwnReview "r1" "u2" system.db
    ⊎ IsShut risky in_order fernet 1000 "token" "r1" "c1" "u2" none none system.world.feed system
owned_or_refused_example =
    owned_or_refused risky in_order fernet 1000 "token" "r1" "c1" "u2" none none system.world.feed
      system

-- The consensus raised in the run of the task.
abbrev stopped_run : Checkpoint
stopped_run = record { thread_id = "r1"; standing = before at_consensus paused_review }

abbrev stopped_system : System risky
stopped_system = record unconnected { checkpoints = stopped_run ∷ [] }
