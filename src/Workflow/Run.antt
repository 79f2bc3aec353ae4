-- ===== src/Workflow/Run.antt =====
-- A run of the compiled graph: `START → context_collector → repository_analyzer → orchestrator →
-- selected agents → consensus → hitl or output → END`, interrupted before `hitl`.
-- LangGraph runs the nodes; what is asked of it is its documented behaviour: the agents that a
-- conditional edge names are started once each, in a parallel step, on the state before the step,
-- and their updates are merged in some order. `dispatch` gives that order. The progress messages of
-- one parallel step stand agent by agent in the model, where a run interleaves them.
use aerp.Prelude.{
  String, contains, true, ◌≡◌, ◌⊎◌, ◌↔◌, Option, none, some, List, [], ◌∷◌, error, Exec, pure,
  raise, ◌>>=◌,
}
use aerp.State.{Agent, ConsensusResult, ReviewState}
use aerp.State.Merge.{Update, merge, merge_all}
use aerp.Workflow.{Next, hitl, output, node_name, route_agents, route_score}
use aerp.Workflow.Nodes
use aerp.Workflow.Nodes.{Services, World}

-- How often an agent is in a list of agents.
abbrev pub Started : Agent → List Agent → Type 0
Started a [] = ⊥
Started a (b ∷ agents) = (a ≡ b) ⊎ Started a agents

abbrev pub NoRepeat : List Agent → Type 0
NoRepeat [] = Unit
NoRepeat (a ∷ agents) = ¬ (Started a agents) × NoRepeat agents

pub record Engine : Type 0 where
  pub dispatch : List String → List Agent
  pub dispatch_once : (names : List String) → NoRepeat (dispatch names)
  pub dispatch_routed :
      (names : List String) (a : Agent)
      → Started a (dispatch names) ↔ (contains names (node_name a) ≡ true)

-- A run ends, or is interrupted before the node `hitl`.
pub data Outcome : Type 0 where
  completed paused : ReviewState → Outcome

module _ (v : Services) (engine : Engine) (github_token : Option String) where
  -- A node, with its update merged.
  abbrev pub step : (ReviewState → Exec (World v) Update) → ReviewState → Exec (World v) ReviewState
  step node s = node s >>= λ update. pure (merge update s)

  -- The agents of a parallel step all read the same state.
  unfoldable pub run_agents : List Agent → ReviewState → Exec (World v) (List Update)
  run_agents [] s = pure []
  run_agents (a ∷ agents) s = do
    update ← Nodes.agent_node v a s
    updates ← run_agents agents s
    pure (update ∷ updates)

  unfoldable pub collect : ReviewState → Exec (World v) ReviewState
  collect s = do
    s₁ ← step (Nodes.context_collector_node v github_token) s
    s₂ ← step (Nodes.repository_analyzer_node v) s₁
    step (Nodes.orchestrator_node v) s₂

  unfoldable pub review : ReviewState → Exec (World v) ReviewState
  review s = do
    updates ← run_agents (engine.dispatch (route_agents s)) s
    step (Nodes.consensus_node v) (merge_all updates s)

  -- `route_after_consensus`, and the end of a run that is not interrupted.
  unfoldable pub follow : Next → ReviewState → Exec (World v) Outcome
  follow hitl s = pure (paused s)
  follow output s = step (Nodes.output_node v github_token) s >>= λ t. pure (completed t)

  unfoldable pub decide_on : ReviewState → Option ConsensusResult → Exec (World v) Outcome
  decide_on s none = raise (error "'NoneType' object has no attribute 'get'")
  decide_on s (some c) = follow (route_score c.risk_score) s

  unfoldable pub decide : ReviewState → Exec (World v) Outcome
  decide s = decide_on s s.consensus_result

  -- `wf.ainvoke(initial_state)`
  unfoldable pub invoke : ReviewState → Exec (World v) Outcome
  invoke s = do s₁ ← collect s; s₂ ← review s₁; decide s₂

  -- `wf.ainvoke(None)` on a run that is paused.
  unfoldable pub resume : ReviewState → Exec (World v) ReviewState
  resume s = step (Nodes.hitl_node v) s >>= λ t. step (Nodes.output_node v github_token) t
