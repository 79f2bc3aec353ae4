-- ===== src/Agents/Orchestrator.antt =====
-- backend/agents/orchestrator_agent.py: which specialist agents a review needs.
use aerp.Prelude.{
  String, ◌<>◌, join, contains, Bool, Option, none, some, List, [], ◌∷◌, ◌++◌, map, error, Result,
  ok, err, Exec, pure, raise, if◌then◌else◌,
}
use aerp.State.{PrMetadata, ReviewState}
use aerp.Agents.Attempts.{Message, system, human}

-- LangChain's model, bound to the schema `OrchestratorDecision`, which asks for a list of names.
pub record Selector : Type 0 where
  pub get_llm : Result Bool
  pub selected_agents : List Message → Result (List String)

abbrev pub all_agents : List String
all_agents =
    "code_review" ∷ "security" ∷ "database" ∷ "requirements" ∷ "scalability" ∷ "standards"
    ∷ "architecture" ∷ "blast_radius" ∷ []

-- backend/prompts/orchestrator.py
unfoldable pub build_human_message : PrMetadata → String
build_human_message pr =
    "PR Title: "
    <> pr.title
    <> "\nPR Description: "
    <> pr.description
    <> "\n\nChanged Files:\n"
    <> join "\n" (map (λ f. "- " <> f) pr.changed_files)
    <> "\n\nAnalyze this change and determine exactly which specialist agents should review it."

-- `code_review` always runs.
unfoldable pub ensure_code_review : List String → List String
ensure_code_review selected =
    if contains selected "code_review" then selected else selected ++ "code_review" ∷ []

module _ (llm : Selector) (system_prompt : String) where
  unfoldable pub decide : PrMetadata → Result (List String)
  unfolding build_human_message
  decide pr = elim llm.get_llm [
    | err e ↦ err e
    | ok found ↦
        if found
        then llm.selected_agents (system system_prompt ∷ human (build_human_message pr) ∷ [])
        else err (error "Failed to initialize LLM for orchestrator.")
  ]

  -- The `except` block: any exception selects all the agents.
  unfoldable pub choose : PrMetadata → List String
  unfolding decide ensure_code_review
  choose pr = elim (decide pr) [ ok selected ↦ ensure_code_review selected | err e ↦ all_agents ]

  -- The message is built outside the `try` block, so a state with no PR metadata raises.
  unfoldable pub run_on : {S : Type 0} → Option PrMetadata → Exec S (List String)
  run_on none = raise (error "'NoneType' object has no attribute 'get'")
  run_on (some pr) = pure (choose pr)

  unfoldable pub run : {S : Type 0} → ReviewState → Exec S (List String)
  run state = run_on state.pr_metadata
