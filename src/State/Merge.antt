-- ===== src/State/Merge.antt =====
-- How an update is merged into the state: the reducers that `ReviewState` declares. Every key is
-- replaced, and `agent_findings`, declared `Annotated[list, add]`, is appended to.
use aerp.Prelude.{String, Option, some, List, [], ◌∷◌, ◌++◌, Bool}
use package.aerp.State.{
  Agent, code_review, security, database, requirements, scalability, standards, architecture,
  blast_radius, PrMetadata, JiraTicket, AgentFinding, AgentResult, ConsensusResult, FileAnalysis,
  ImpactGraph, Results, ReviewState,
}

-- One key of the dict that a node returns.
pub data Write : Type 0 where
  started_at raw_context doc_content detected_framework error : String → Write
  pr_metadata : PrMetadata → Write
  jira_ticket : JiraTicket → Write
  changed_files_analysis : List (String × FileAnalysis) → Write
  impact_graph : ImpactGraph → Write
  selected_agents : List String → Write
  agent_findings : List AgentFinding → Write
  agent_result : Agent → AgentResult → Write
  consensus_result : ConsensusResult → Write
  hitl_required : Bool → Write

abbrev pub Update : Type 0
Update = List Write

abbrev pub result_of : Agent → Results → Option AgentResult
result_of code_review r = r.code_review_result
result_of security r = r.security_result
result_of database r = r.database_result
result_of requirements r = r.requirements_result
result_of scalability r = r.scalability_result
result_of standards r = r.standards_result
result_of architecture r = r.architecture_result
result_of blast_radius r = r.blast_radius_result

abbrev pub put_result : Agent → AgentResult → Results → Results
put_result code_review v r = record r { code_review_result = some v }
put_result security v r = record r { security_result = some v }
put_result database v r = record r { database_result = some v }
put_result requirements v r = record r { requirements_result = some v }
put_result scalability v r = record r { scalability_result = some v }
put_result standards v r = record r { standards_result = some v }
put_result architecture v r = record r { architecture_result = some v }
put_result blast_radius v r = record r { blast_radius_result = some v }

unfoldable pub put : Write → ReviewState → ReviewState
put (Write.started_at v) s = record s { started_at = some v }
put (Write.raw_context v) s = record s { raw_context = some v }
put (Write.doc_content v) s = record s { doc_content = some v }
put (Write.detected_framework v) s = record s { detected_framework = some v }
put (Write.error v) s = record s { error = some v }
put (Write.pr_metadata v) s = record s { pr_metadata = some v }
put (Write.jira_ticket v) s = record s { jira_ticket = some v }
put (Write.changed_files_analysis v) s = record s { changed_files_analysis = some v }
put (Write.impact_graph v) s = record s { impact_graph = some v }
put (Write.selected_agents v) s = record s { selected_agents = some v }
put (Write.agent_findings v) s = record s { agent_findings = s.agent_findings ++ v }
put (Write.agent_result a v) s = record s { results = put_result a v s.results }
put (Write.consensus_result v) s = record s { consensus_result = some v }
put (Write.hitl_required v) s = record s { hitl_required = v }

-- One node's update.
unfoldable pub merge : Update → ReviewState → ReviewState
unfolding put
merge [] s = s
merge (w ∷ u) s = merge u (put w s)

-- The updates of the nodes that ran in one parallel step, in the order in which they are merged.
unfoldable pub merge_all : List Update → ReviewState → ReviewState
unfolding merge
merge_all [] s = s
merge_all (u ∷ us) s = merge_all us (merge u s)
