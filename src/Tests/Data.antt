-- ===== src/Tests/Data.antt =====
-- Services that answer with fixed data, and a review to run on them.
use aerp.Prelude.{map, ℕ, String, true, false, none, some, List, [], ◌∷◌, error, ok, err}
use aerp.Findings.{CodeFinding, AgentReport, critical, request_changes, approve_with_comments}
use aerp.State.{PrMetadata, AgentFinding, AgentResult, ReviewState, create_initial_state}
use aerp.Pubsub.{Feed}
use aerp.Github.{Client, github_exception}
use aerp.Rag.Indexer.{VectorStore}
use aerp.Rag.Retriever.{Search}
use aerp.Agents.Attempts.{returned, nothing}
use aerp.Agents.Base.{Llm}
use aerp.Agents.Orchestrator.{Selector}
use aerp.Agents.Consensus.{Judge}
use aerp.Workflow.Nodes.{Services, World}

abbrev pub injection : CodeFinding
injection = record {
  title = "SQL injection";
  severity = critical;
  confidence = 950;
  description = "The query is built from the request.";
  file_path = some "api/users.py";
  line_number = some 12;
  evidence = "f\"select {name}\"";
  suggested_fix = none;
  owasp_category = some "A03";
}

abbrev pub one_finding : AgentReport
one_finding = record {
  findings = injection ∷ [];
  overall_assessment = "One finding.";
  recommendation = request_changes;
  confidence = 900;
}

-- A model that reports, and one that never does.
abbrev pub reporting_llm : Llm
reporting_llm = record {
  get_llm = ok true;
  agent_report = λ messages. returned one_finding;
  tool_calls = λ messages. ok [];
  search_context = λ query source. ok "";
}

abbrev pub silent_llm : Llm
silent_llm = record {
  get_llm = ok true;
  agent_report = λ messages. nothing;
  tool_calls = λ messages. ok [];
  search_context = λ query source. ok "";
}

-- A judge that gives a fixed score, and one that never reports.
abbrev pub judge_of : ℕ → Judge
judge_of score = record {
  get_llm = ok true;
  consensus_report = λ messages. returned (record {
    final_findings = injection ∷ [];
    overall_assessment = "Merged.";
    recommendation = approve_with_comments;
    risk_score = score;
  });
  system_prompt = "";
  shown_confidence = λ confidence. "0.95";
}

abbrev pub silent_judge : Judge
silent_judge = record {
  get_llm = ok true;
  consensus_report = λ messages. nothing;
  system_prompt = "";
  shown_confidence = λ confidence. "0.95";
}

abbrev pub selector : Selector
selector = record { get_llm = ok true; selected_agents = λ messages. ok ("security" ∷ []) }

-- GitHub refuses every call.
abbrev pub offline : Client
offline = record {
  get_pull = λ token p. github_exception "404";
  create_issue_comment = λ token p body. github_exception "404";
  create_review_comment = λ token p body path line. github_exception "404";
}

abbrev pub unit_store : VectorStore
unit_store = record {
  Vector = Unit {0};
  connect = ok tt;
  embed = λ texts. ok (map (λ (t : String). tt) texts);
  insert = λ row. ok tt;
}

abbrev pub unit_search : Search unit_store
unit_search = record {
  embed_query = λ query. ok tt;
  distance = λ x y. 0;
  similarity = λ distance. "1.00";
}

abbrev pub services : Llm → Judge → Services
services llm judge = record {
  github = offline;
  jira = λ key. err (error "no Jira");
  now = "2026-01-01T00:00:00+00:00";
  splitter = λ size overlap text. text ∷ [];
  store = unit_store;
  vectors = unit_search;
  selector = selector;
  orchestrator_prompt = "";
  llm = llm;
  system_prompt = λ a. "";
  judge = judge;
}

abbrev pub quiet_feed : Feed
quiet_feed = record {
  now = 1000;
  redis_up = false;
  database_up = true;
  channel = [];
  review_logs = [];
}

abbrev pub empty_world : {v : Services} → World v
empty_world = record { feed = quiet_feed; embeddings = []; posted = [] }

-- A review of a pull request of the repository that the program mocks, and of one that is not there.
abbrev pub mock_review : ReviewState
mock_review = create_initial_state "r1" "https://github.com/fake/repo/pull/1" none none

abbrev pub missing_review : ReviewState
missing_review = create_initial_state "r1" "https://github.com/acme/shop/pull/7" none none

abbrev pub pr : PrMetadata
pr = record {
  pr_number = 7;
  title = "Add users";
  description = "";
  author = "dev1";
  branch = "feature/users";
  base_branch = "main";
  repo_owner = "acme";
  repo_name = "shop";
  changed_files = "api/users.py" ∷ [];
  diff = "";
  commit_messages = [];
}

-- A review whose context has been collected.
abbrev pub collected_review : ReviewState
collected_review =
    record (create_initial_state "r1" "https://github.com/acme/shop/pull/7" none none) {
      pr_metadata = some pr;
      raw_context = some "=== PULL REQUEST: Add users ===";
    }

abbrev pub finding : String → String → AgentFinding
finding agent severity = record {
  agent = agent;
  severity = severity;
  confidence = 800;
  title = "t";
  description = "d";
  file_path = none;
  line_number = none;
  evidence = "";
  suggested_fix = none;
  owasp_category = none;
}

abbrev pub result : String → List AgentFinding → AgentResult
result agent findings = record {
  agent = agent;
  findings = findings;
  overall_assessment = "";
  recommendation = "comment";
  confidence = 500;
  tokens_used = none;
}
