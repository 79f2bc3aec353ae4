-- ===== src/State.antt =====
-- backend/graph/state.py: the state that the nodes of the workflow share, and the updates that they
-- return. `none` is Python's `None`.
pub mod Merge
use aerp.Prelude.{ℕ, String, Option, none, List, [], Bool, false}

-- `AGENT_NODES` of backend/graph/workflow.py: the eight specialist agents.
pub data Agent : Type 0 where
  code_review security database requirements scalability standards architecture blast_radius : Agent

pub record PrMetadata : Type 0 where
  pub pr_number : ℕ
  pub title : String
  pub description : String
  pub author : String
  pub branch : String
  pub base_branch : String
  pub repo_owner : String
  pub repo_name : String
  pub changed_files : List String
  pub diff : String
  pub commit_messages : List String

pub record JiraTicket : Type 0 where
  pub ticket_id : String
  pub title : String
  pub description : String
  pub acceptance_criteria : List String
  pub business_rules : List String
  pub story_points : Option ℕ
  pub priority : String
  pub status : String
  pub reporter : String
  pub linked_tickets : List String

pub record AgentFinding : Type 0 where
  pub agent : String
  pub severity : String
  pub confidence : ℕ
  pub title : String
  pub description : String
  pub file_path : Option String
  pub line_number : Option ℕ
  pub evidence : String
  pub suggested_fix : Option String
  pub owasp_category : Option String

pub record AgentResult : Type 0 where
  pub agent : String
  pub findings : List AgentFinding
  pub overall_assessment : String
  pub recommendation : String
  pub confidence : ℕ
  pub tokens_used : Option ℕ

-- The dict that the consensus agent stores. `final_findings` is a key that the output node asks
-- for; `none` is a dict without it.
pub record ConsensusResult : Type 0 where
  pub agent : String
  pub findings : List AgentFinding
  pub final_findings : Option (List AgentFinding)
  pub overall_assessment : String
  pub recommendation : String
  pub risk_score : ℕ
  pub confidence : ℕ

-- One file's entry of `changed_files_analysis`, and the impact graph, which the repository analyzer
-- writes.
pub record FileAnalysis : Type 0 where
  pub file_type : String
  pub layer : Option String
  pub is_test : Bool
  pub is_migration : Bool
  pub is_config : Bool

pub record ImpactGraph : Type 0 where
  pub changed_layers : List String
  pub has_migrations : Bool
  pub has_config_changes : Bool
  pub test_files_changed : List String
  pub non_test_files : List String
  pub framework : String

pub record HumanDecision : Type 0 where
  pub decision : String
  pub reviewer : String
  pub comment : Option String
  pub overridden_findings : List String
  pub decided_at : String

-- The result that each specialist agent stores under its own key.
pub record Results : Type 0 where
  pub requirements_result : Option AgentResult
  pub code_review_result : Option AgentResult
  pub security_result : Option AgentResult
  pub database_result : Option AgentResult
  pub scalability_result : Option AgentResult
  pub standards_result : Option AgentResult
  pub architecture_result : Option AgentResult
  pub blast_radius_result : Option AgentResult

pub record ReviewState : Type 0 where
  pub review_id : String
  pub pr_url : String
  pub jira_url : Option String
  pub doc_url : Option String
  pub pr_metadata : Option PrMetadata
  pub jira_ticket : Option JiraTicket
  pub doc_content : Option String
  pub raw_context : Option String
  pub changed_files_analysis : Option (List (String × FileAnalysis))
  pub impact_graph : Option ImpactGraph
  pub detected_framework : Option String
  pub selected_agents : Option (List String)
  pub agent_findings : List AgentFinding
  pub results : Results
  pub critique_complete : Bool
  pub consensus_result : Option ConsensusResult
  pub hitl_required : Bool
  pub human_decision : Option HumanDecision
  pub github_comments_posted : Bool
  pub doc_pr_url : Option String
  pub test_pr_url : Option String
  pub error : Option String
  pub started_at : Option String
  pub completed_at : Option String

abbrev no_results : Results
no_results = record {
  requirements_result = none;
  code_review_result = none;
  security_result = none;
  database_result = none;
  scalability_result = none;
  standards_result = none;
  architecture_result = none;
  blast_radius_result = none;
}

abbrev pub create_initial_state : String → String → Option String → Option String → ReviewState
create_initial_state review_id pr_url jira_url doc_url = record {
  review_id = review_id;
  pr_url = pr_url;
  jira_url = jira_url;
  doc_url = doc_url;
  pr_metadata = none;
  jira_ticket = none;
  doc_content = none;
  raw_context = none;
  changed_files_analysis = none;
  impact_graph = none;
  detected_framework = none;
  selected_agents = none;
  agent_findings = [];
  results = no_results;
  critique_complete = false;
  consensus_result = none;
  hitl_required = false;
  human_decision = none;
  github_comments_posted = false;
  doc_pr_url = none;
  test_pr_url = none;
  error = none;
  started_at = none;
  completed_at = none;
}
