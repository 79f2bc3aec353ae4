-- ===== src/Workflow/FanIn.antt =====
-- The parallel step: what the selected agents return, and what the merged state holds.
use aerp.Prelude.{
  ◌≡◌, refl, ◌≢◌, ◌⊎◌, inl, inr, ap, sym, ◌∙◌, String, Option, some, List, [], ◌∷◌, ◌++◌, ok, arith,
  All,
}
use mathlib.Core.Path.{subst₂}
use mathlib.Core.List.{append_assoc, append-nil}
use aerp.State.{Agent, AgentFinding, AgentResult, PrMetadata, ReviewState, Results}
use aerp.State.Merge.{Update, merge, merge_all, result_of, put_result}
use aerp.Agents.Base.{agent_update, agent_name, display_name}
use aerp.Agents.Laws.{run-returns}
use aerp.Pubsub.{Feed, publish_agent_status}
use aerp.Prompts.Message.{human_message}
use aerp.Workflow.Nodes
use aerp.Workflow.Nodes.{Services, World}
use aerp.Workflow.Run
use aerp.Workflow.Run.{Started, NoRepeat}

-- The results of a step, agent by agent.
abbrev pub Reports : Type 0
Reports = List (Agent × AgentResult)

abbrev pub agents_of : Reports → List Agent
agents_of [] = []
agents_of ((a, r) ∷ reports) = a ∷ agents_of reports

abbrev pub updates_of : Reports → List Update
updates_of [] = []
updates_of ((a, r) ∷ reports) = agent_update a r ∷ updates_of reports

abbrev pub findings_of : Reports → List AgentFinding
findings_of [] = []
findings_of ((a, r) ∷ reports) = r.findings ++ findings_of reports

-- A state that the context collector has filled: the messages to the agents can be built.
pub record HasContext (s : ReviewState) : Type 0 where
  pub pr_metadata : PrMetadata
  pub has_pr_metadata : s.pr_metadata ≡ some pr_metadata
  pub raw_context : String
  pub has_raw_context : s.raw_context ≡ some raw_context

merge-agent_update :
    (a : Agent) (r : AgentResult) (s : ReviewState)
    → merge (agent_update a r) s ≡ record s {
      results = put_result a r s.results;
      agent_findings = s.agent_findings ++ r.findings;
    }
unfolding merge agent_update
merge-agent_update a r s = refl

-- The merge of the agents' updates appends the findings of each agent to the shared list, in the
-- order of the merge, and loses none.
pub merge_all-agent_findings :
    (reports : Reports) (s : ReviewState)
    → (merge_all (updates_of reports) s).agent_findings ≡ s.agent_findings ++ findings_of reports
unfolding merge_all
merge_all-agent_findings [] s = sym (append-nil s.agent_findings)
merge_all-agent_findings ((a, r) ∷ reports) s =
    merge_all-agent_findings reports (merge (agent_update a r) s)
    ∙ ap (λ (fs : List AgentFinding). fs ++ findings_of reports)
        (ap (λ (t : ReviewState). t.agent_findings) (merge-agent_update a r s))
    ∙ append_assoc s.agent_findings r.findings (findings_of reports)

result_of-put_self :
    (a : Agent) (r : AgentResult) (rs : Results) → result_of a (put_result a r rs) ≡ some r
result_of-put_self a r rs = ground arith

result_of-put_ne :
    (a b : Agent) (r : AgentResult) (rs : Results)
    → b ≢ a
    → result_of b (put_result a r rs) ≡ result_of b rs
result_of-put_ne a b r rs ne = ground arith

abbrev pub IsReported : Agent → AgentResult → Reports → Type 0
IsReported a r [] = ⊥
IsReported a r ((b, q) ∷ reports) = ((a ≡ b) × (r ≡ q)) ⊎ IsReported a r reports

IsReported-Started :
    (a : Agent) (r : AgentResult) (reports : Reports)
    → IsReported a r reports
    → Started a (agents_of reports)
IsReported-Started a r [] h = h
IsReported-Started a r ((b, q) ∷ reports) (inl e) = inl e.0
IsReported-Started a r ((b, q) ∷ reports) (inr h) = inr (IsReported-Started a r reports h)

-- An agent that is not in the step keeps the result that it had.
pub merge_all-result_other :
    (a : Agent) (reports : Reports) (s : ReviewState)
    → ¬ (Started a (agents_of reports))
    → result_of a (merge_all (updates_of reports) s).results ≡ result_of a s.results
unfolding merge_all
merge_all-result_other a [] s absent = refl
merge_all-result_other a ((b, r) ∷ reports) s absent =
    merge_all-result_other a reports (merge (agent_update b r) s) (λ h. absent (inr h))
    ∙ ap (λ (t : ReviewState). result_of a t.results) (merge-agent_update b r s)
    ∙ result_of-put_ne b a r s.results (λ e. absent (inl e))

-- When no agent stands twice in the parallel step, the merged state holds each agent's own result
-- under the agent's own key, wherever its update stands in the order of the merge.
pub merge_all-result_of :
    (a : Agent) (r : AgentResult) (reports : Reports) (s : ReviewState)
    → NoRepeat (agents_of reports)
    → IsReported a r reports
    → result_of a (merge_all (updates_of reports) s).results ≡ some r
unfolding merge_all
merge_all-result_of a r [] s once h = absurd h
merge_all-result_of a r ((b, q) ∷ reports) s once (inl e) =
    rw (e.0, e.1)
      (merge_all-result_other b reports (merge (agent_update b q) s) once.0
        ∙ ap (λ (t : ReviewState). result_of b t.results) (merge-agent_update b q s)
        ∙ result_of-put_self b q s.results)
merge_all-result_of a r ((b, q) ∷ reports) s once (inr h) =
    merge_all-result_of a r reports (merge (agent_update b q) s) once.1 h

module _ (v : Services) where
  -- The feed after an agent has said that it runs.
  abbrev announced : Agent → ReviewState → World v → Feed
  announced a s w =
      (publish_agent_status s.review_id (display_name a) "running" (Nodes.running_text a) w.feed).1

  agent_step-returns :
      (a : Agent) (s : ReviewState) (pr : PrMetadata) (raw : String) (w : World v)
      → (r : AgentResult) × ((Nodes.agent_step v a s (some pr) (some raw) w).0
          ≡ ok (agent_update a r))
        × All (λ f. f.agent ≡ agent_name a) r.findings
  unfolding Nodes.agent_step
  agent_step-returns a s pr raw w =
      let (r, e, _, named) =
        run-returns (Nodes.with_tool v s.review_id w) s.review_id a (v.system_prompt a)
          (human_message a raw pr) (announced a s w) in
      (r, rw e refl, named)

  agent_node-returns :
      (a : Agent) (s : ReviewState) (w : World v)
      → HasContext s
      → (r : AgentResult) × ((Nodes.agent_node v a s w).0 ≡ ok (agent_update a r))
        × All (λ f. f.agent ≡ agent_name a) r.findings
  unfolding Nodes.agent_node
  agent_node-returns a s w c =
      let (r, e, named) = agent_step-returns a s c.pr_metadata c.raw_context w in
      (
        r,
        subst₂ (λ m t. (Nodes.agent_step v a s m t w).0 ≡ ok (agent_update a r))
            (sym c.has_pr_metadata) (sym c.has_raw_context) e,
        named,
      )

  -- The findings of a report carry the name of the agent that it is filed under.
  abbrev pub IsNamed : Reports → Type 0
  IsNamed [] = Unit
  IsNamed ((a, r) ∷ reports) = All (λ f. f.agent ≡ agent_name a) r.findings × IsNamed reports

  module _ (engine : Run.Engine) (github_token : Option String) where
    -- With the context collected, the parallel step returns one update for each started agent, in
    -- their order, whatever the models do, and the findings of each carry the name of the agent.
    pub run_agents-returns :
        (agents : List Agent) (s : ReviewState) (w : World v)
        → HasContext s
        → (reports : Reports) × (agents_of reports ≡ agents)
          × ((Run.run_agents v engine github_token agents s w).0 ≡ ok (updates_of reports))
          × IsNamed reports
    unfolding Run.run_agents
    run_agents-returns [] s w c = ([], refl, refl, tt)
    run_agents-returns (a ∷ agents) s w c =
        let (r, e, named) = agent_node-returns a s w c in
        let (reports, same, es, all_named) =
          run_agents-returns agents s (Nodes.agent_node v a s w).1 c in
        ((a, r) ∷ reports, ap (λ (l : List Agent). a ∷ l) same, rw (e, es) refl, (named, all_named))
