-- ===== src/Workflow/Standing.antt =====
-- Where LangGraph's checkpointer leaves a run of graph/workflow.py, and how a run goes on from there.
-- It saves the state after each step of the graph: a run that raised stands before the node that
-- raised, and `ainvoke(None)` runs that node and what follows. The agents of a parallel step run again
-- all together.
use aerp.Prelude.{String, Option, none, some, Result, ok, err, List, Exec, pure, ◌>>=◌}
use aerp.State.{ConsensusResult, ReviewState}
use aerp.State.Merge.{Update, merge_all}
use aerp.Workflow.{output, route_agents}
use aerp.Workflow.Nodes
use aerp.Workflow.Nodes.{Services, World}
use aerp.Workflow.Run
use aerp.Workflow.Run.{Engine, Outcome, completed, paused, step}

-- The step of the graph that is next.
pub data Stage : Type 0 where
  at_context at_repository at_orchestrator at_agents at_consensus at_hitl at_output : Stage

pub data Standing : Type 0 where
  at_end : ReviewState → Standing
  before : Stage → ReviewState → Standing

-- `state.values`
abbrev pub values : Standing → ReviewState
values (at_end s) = s
values (before stage s) = s

abbrev pub final_state : Outcome → ReviewState
final_state (completed s) = s
final_state (paused s) = s

module _ (v : Services) (engine : Engine) (github_token : Option String) where
  -- `ainvoke(None)`
  unfoldable pub go_on : Stage → ReviewState → Exec (World v) Outcome
  go_on at_context s = Run.invoke v engine github_token s
  go_on at_repository s = do
    t ← step v engine github_token (Nodes.repository_analyzer_node v) s
    u ← step v engine github_token (Nodes.orchestrator_node v) t
    w ← Run.review v engine github_token u
    Run.decide v engine github_token w
  go_on at_orchestrator s = do
    u ← step v engine github_token (Nodes.orchestrator_node v) s
    w ← Run.review v engine github_token u
    Run.decide v engine github_token w
  go_on at_agents s = do w ← Run.review v engine github_token s; Run.decide v engine github_token w
  go_on at_consensus s = do
    w ← step v engine github_token (Nodes.consensus_node v) s
    Run.decide v engine github_token w
  go_on at_hitl s = do t ← Run.resume v engine github_token s; pure (completed t)
  go_on at_output s = Run.follow v engine github_token output s

  -- A step that raised leaves the run before it.
  abbrev stood : {A : Type 0} → Standing → Result A × World v → (A → World v → Standing) → Standing
  stood here (err e, w) next = here
  stood here (ok a, w) next = next a w

  -- The edges after the consensus are part of its step.
  abbrev decided : Standing → Option ConsensusResult → ReviewState → Standing
  decided here none t = here
  decided here (some c) t = before at_output t

  abbrev stood_consensus : ReviewState → World v → Standing
  stood_consensus s w =
      stood (before at_consensus s) (step v engine github_token (Nodes.consensus_node v) s w)
        (λ t _. decided (before at_consensus s) t.consensus_result t)

  abbrev stood_agents : ReviewState → World v → Standing
  stood_agents s w =
      stood (before at_agents s)
        (Run.run_agents v engine github_token (engine.dispatch (route_agents s)) s w)
        (λ (updates : List Update) w'. stood_consensus (merge_all updates s) w')

  abbrev stood_orchestrator : ReviewState → World v → Standing
  stood_orchestrator s w =
      stood (before at_orchestrator s) (step v engine github_token (Nodes.orchestrator_node v) s w)
        stood_agents

  abbrev stood_repository : ReviewState → World v → Standing
  stood_repository s w =
      stood (before at_repository s)
        (step v engine github_token (Nodes.repository_analyzer_node v) s w) stood_orchestrator

  -- Where a run stands that raised.
  unfoldable pub stopped : Stage → ReviewState → World v → Standing
  stopped at_context s w =
      stood (before at_context s)
        (step v engine github_token (Nodes.context_collector_node v github_token) s w)
        stood_repository
  stopped at_repository s w = stood_repository s w
  stopped at_orchestrator s w = stood_orchestrator s w
  stopped at_agents s w = stood_agents s w
  stopped at_consensus s w = stood_consensus s w
  stopped at_hitl s w =
      stood (before at_hitl s) (step v engine github_token (Nodes.hitl_node v) s w)
        (λ t _. before at_output t)
  stopped at_output s w = before at_output s

  -- The last state that a run saves that began at `stage`, with state `s` and world `w`.
  unfoldable pub saved : Stage → ReviewState → World v → Result Outcome → Standing
  unfolding stopped
  saved stage s w (ok (completed t)) = at_end t
  saved stage s w (ok (paused t)) = before at_hitl t
  saved stage s w (err e) = stopped stage s w
