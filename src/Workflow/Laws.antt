-- ===== src/Workflow/Laws.antt =====
-- The routing of the workflow: the agents that a review goes to, and the gate after the consensus.
use aerp.Prelude.{
  ℕ, ◌≤◌, ◌<◌, ◌≡◌, ◌≢◌, refl, ◌↔◌, String, contains, eq_iff, keep, Bool, true, Option, none, some,
  List, [], ◌∷◌, arith, All, All-keep,
}
use aerp.State.{ReviewState}
use aerp.Workflow
use aerp.Workflow.{
  Next, hitl, output, agent_nodes, route_agents, route_names, route_selected, route_score,
}

agent_nodes-valid : All (λ a. contains agent_nodes a ≡ true) agent_nodes
agent_nodes-valid = (refl, (refl, (refl, (refl, (refl, (refl, (refl, (refl, tt))))))))

or_all-valid :
    (xs : List String)
    → All (λ a. contains agent_nodes a ≡ true) xs
    → All (λ a. contains agent_nodes a ≡ true) (Workflow.or_all xs) × (Workflow.or_all xs ≢ [])
or_all-valid [] h = (agent_nodes-valid, λ e. cc)
or_all-valid (x ∷ xs) h = (h, λ e. cc)

route_names-valid :
    (selected : Option (List String))
    → All (λ a. contains agent_nodes a ≡ true) (route_names selected) × (route_names selected ≢ [])
unfolding route_names
route_names-valid none = (agent_nodes-valid, λ e. cc)
route_names-valid (some names) = or_all-valid _ (All-keep (contains agent_nodes) names)

-- The routing goes to at least one agent and only to nodes that the graph has, whatever names are
-- selected.
pub route_agents-valid :
    (s : ReviewState)
    → All (λ a. contains agent_nodes a ≡ true) (route_agents s) × (route_agents s ≢ [])
unfolding route_agents
route_agents-valid s = route_names-valid s.selected_agents

contains-keep :
    (p : String → Bool) (xs : List String) (k : String)
    → p k ≡ true
    → contains xs k ≡ true
    → contains (keep p xs) k ≡ true
contains-keep p [] k pk h = cc
contains-keep p (x ∷ xs) k pk h = ground (arith, eq_iff x k, contains-keep p xs k pk)

or_all-contains :
    (xs : List String) (k : String) → contains xs k ≡ true → contains (Workflow.or_all xs) k ≡ true
or_all-contains [] k h = cc
or_all-contains (x ∷ xs) k h = h

-- A selected name that is a node of the graph is routed to.
pub route_selected-contains :
    (selected : List String) (name : String)
    → contains agent_nodes name ≡ true
    → contains selected name ≡ true
    → contains (route_selected selected) name ≡ true
unfolding route_selected
route_selected-contains selected name valid h =
    or_all-contains _ name (contains-keep (contains agent_nodes) selected name valid h)

-- The gate: a score goes to a human exactly when it is above 40.
pub route_score-hitl : (score : ℕ) → (route_score score ≡ hitl) ↔ (40 < score)
unfolding route_score
route_score-hitl score = ground arith

pub route_score-output : (score : ℕ) → (route_score score ≡ output) ↔ (score ≤ 40)
unfolding route_score
route_score-output score = ground arith
