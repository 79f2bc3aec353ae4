-- ===== src/Workflow.antt =====
-- backend/graph/workflow.py: the graph of the review workflow. A conditional edge is a function of
-- the state; the nodes are in Workflow.Nodes and a run of the graph is in Workflow.Run.
pub mod Context
pub mod Nodes
pub mod Run
pub mod Standing
pub mod Laws
pub mod Gate
pub mod Quiet
pub mod Whole
pub mod Results
pub mod FanIn
use aerp.Prelude.{
  ℕ, String, contains, str_eq, keep, Bool, Option, none, some, List, [], ◌∷◌, ltb, if◌then◌else◌,
}
use aerp.State.{
  Agent, code_review, security, database, requirements, scalability, standards, architecture,
  blast_radius, ReviewState,
}

abbrev pub agent_nodes : List String
agent_nodes =
    "code_review" ∷ "security" ∷ "database" ∷ "requirements" ∷ "scalability" ∷ "standards"
    ∷ "architecture" ∷ "blast_radius" ∷ []

-- The name under which `create_workflow` registers an agent's node.
abbrev pub node_name : Agent → String
node_name code_review = "code_review"
node_name security = "security"
node_name database = "database"
node_name requirements = "requirements"
node_name scalability = "scalability"
node_name standards = "standards"
node_name architecture = "architecture"
node_name blast_radius = "blast_radius"

abbrev pub every_agent : List Agent
every_agent =
    code_review ∷ security ∷ database ∷ requirements ∷ scalability ∷ standards ∷ architecture
    ∷ blast_radius ∷ []

-- An empty list is as false as `None`.
abbrev or_all : List String → List String
or_all [] = agent_nodes
or_all (a ∷ agents) = a ∷ agents

unfoldable pub route_selected : List String → List String
route_selected selected = or_all (keep (contains agent_nodes) selected)

unfoldable pub route_names : Option (List String) → List String
unfolding route_selected
route_names none = agent_nodes
route_names (some selected) = route_selected selected

unfoldable pub route_agents : ReviewState → List String
unfolding route_names
route_agents s = route_names s.selected_agents

-- Where the graph goes after the consensus.
pub data Next : Type 0 where
  hitl output : Next

-- A state with no consensus makes the edge raise; `consensus_node` always stores one.
unfoldable pub route_score : ℕ → Next
route_score score = if ltb 40 score then hitl else output
