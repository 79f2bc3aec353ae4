-- ===== src/Workflow/Nodes.antt =====
-- backend/graph/nodes.py: the nodes. Each reads the state and returns an update; what else it does
-- (progress messages, rows of embeddings, comments on GitHub) is in the world that it passes on.
use aerp.Prelude.{
  String, ◌<>◌, is_truthy, contains, true, Option, none, some, List, [], ◌∷◌, ◌++◌, error, Result,
  ok, err, Exec, pure, raise, ◌>>=◌, ◌>>◌, if◌then◌else◌,
}
use aerp.State.{
  Agent, code_review, security, database, requirements, scalability, standards, architecture,
  blast_radius, PrMetadata, JiraTicket, AgentFinding, AgentResult, ConsensusResult, ReviewState,
}
use mathlib.Core.Option
use aerp.Workflow.{node_name, every_agent}
use aerp.State.Merge
use aerp.State.Merge.{Update}
use aerp.Pubsub.{Feed, publish_agent_status}
use aerp.Github.{Client, Posted, fetch_pr_data}
use aerp.Github.Comments.{post_pr_comments}
use aerp.Rag.Chunker.{DocumentChunk, Splitter, ticket, url, chunk_document, chunk_pr_diff}
use aerp.Rag.Indexer.{VectorStore, EmbeddingRow, index_chunks}
use aerp.Rag.Retriever.{Search, search_context}
use aerp.Prompts.Message.{human_message}
use aerp.Jira.{JiraClient, fetch_jira_ticket}
use aerp.Repository.{files_analysis, impact_graph, detect_framework}
use aerp.Agents.Base
use aerp.Agents.Base.{Llm, agent_name, display_name, agent_update, failure_text}
use aerp.Agents.Orchestrator
use aerp.Agents.Orchestrator.{Selector}
use aerp.Agents.Consensus
use aerp.Agents.Consensus.{Judge}
use aerp.Workflow.Context.{truthy, jira_to_text, fetch_google_doc, build_raw_context}

-- What the nodes call outside the program, and the fixed texts of the system prompts. An agent's
-- `build_human_message` needs a raw context that is not `None`.
pub record Services : Type 1 where
  pub github : Client
  pub jira : JiraClient
  pub now : String
  pub splitter : Splitter
  pub store : VectorStore
  pub vectors : Search store
  pub selector : Selector
  pub orchestrator_prompt : String
  pub llm : Llm
  pub system_prompt : Agent → String
  pub judge : Judge

pub record World (v : Services) : Type 0 where
  pub feed : Feed
  pub embeddings : List (EmbeddingRow v.store.Vector)
  pub posted : List Posted

-- `_empty_agent_result`
unfoldable pub empty_result : Agent → AgentResult
empty_result a = record {
  agent = agent_name a;
  findings = [];
  overall_assessment = "Skipped: no PR metadata available";
  recommendation = "approve_with_comments";
  confidence = 0;
  tokens_used = none;
}

-- What an agent's node says when it starts and when it is done.
abbrev pub running_text : Agent → String
running_text code_review = "Analyzing diff for bugs and logic errors..."
running_text security = "Scanning for OWASP vulnerabilities..."
running_text database = "Checking for N+1 queries and unsafe migrations..."
running_text requirements = "Verifying Jira acceptance criteria compliance..."
running_text scalability = "Evaluating performance under high load..."
running_text standards = "Checking error handling and logging standards..."
running_text architecture = "Evaluating SOLID principles and design patterns..."
running_text blast_radius = "Analyzing downstream failure impacts..."

abbrev complete_text : Agent → String
complete_text code_review = "Finished analyzing diff for bugs and logic errors."
complete_text security = "Finished scanning for OWASP vulnerabilities."
complete_text database = "Finished checking for N+1 queries and unsafe migrations."
complete_text requirements = "Finished verifying Jira acceptance criteria compliance."
complete_text scalability = "Finished evaluating performance under high load."
complete_text standards = "Finished checking error handling and logging standards."
complete_text architecture = "Finished evaluating SOLID principles and design patterns."
complete_text blast_radius = "Finished analyzing downstream failure impacts."

abbrev or_none : Option String → String
or_none none = "None"
or_none (some s) = s

abbrev jira_write : Option JiraTicket → Update
jira_write none = []
jira_write (some t) = Merge.Write.jira_ticket t ∷ []

abbrev doc_write : Option String → Update
doc_write none = []
doc_write (some doc) = Merge.Write.doc_content doc ∷ []

module _ (v : Services) where
  -- An action on one part of the world.
  abbrev pub in_feed : {A : Type 0} → Exec Feed A → Exec (World v) A
  in_feed m w = let (r, f) = m w.feed in (r, record w { feed = f })

  abbrev pub in_embeddings :
      {A : Type 0} → Exec (List (EmbeddingRow v.store.Vector)) A → Exec (World v) A
  in_embeddings m w = let (r, rows) = m w.embeddings in (r, record w { embeddings = rows })

  abbrev in_posted : {A : Type 0} → Exec (List Posted) A → Exec (World v) A
  in_posted m w = let (r, p) = m w.posted in (r, record w { posted = p })

  unfoldable pub say : ReviewState → String → String → String → Exec (World v) (Unit {0})
  unfolding publish_agent_status
  say s agent status message = in_feed (publish_agent_status s.review_id agent status message)

  -- A failure to fetch the ticket is logged, and the review goes on without it.
  fetched_jira : Option String → Option JiraTicket
  fetched_jira none = none
  fetched_jira (some jira_url) = elim (fetch_jira_ticket v.jira jira_url) [
    | ok t ↦ some t
    | err e ↦ none
  ]

  abbrev jira_chunks : Option JiraTicket → List DocumentChunk
  jira_chunks none = []
  jira_chunks (some t) = chunk_document v.splitter (jira_to_text t) "jira" (ticket t.ticket_id)

  abbrev doc_chunks : Option String → Option String → List DocumentChunk
  doc_chunks doc_url none = []
  doc_chunks doc_url (some doc) = chunk_document v.splitter doc "google_doc" (url (or_none doc_url))

  unfoldable pub all_chunks :
      ReviewState → PrMetadata → Option JiraTicket → Option String → List DocumentChunk
  all_chunks s pr jira doc =
      (if is_truthy pr.diff then chunk_pr_diff v.splitter pr.diff pr else [])
      ++ jira_chunks jira
      ++ doc_chunks s.doc_url doc

  unfoldable pub context_update : PrMetadata → Option JiraTicket → Option String → Update
  context_update pr jira doc =
      Merge.Write.started_at v.now ∷ Merge.Write.pr_metadata pr ∷ jira_write jira
      ++ doc_write doc
      ++ Merge.Write.raw_context (build_raw_context pr jira doc) ∷ []

  unfoldable pub collect_context : ReviewState → Result PrMetadata → Exec (World v) Update
  unfolding say fetched_jira
  collect_context s (err e) =
      pure (Merge.Write.error ("Cannot fetch GitHub PR: " <> failure_text e) ∷ [])
  collect_context s (ok pr) =
      let jira = fetched_jira (truthy s.jira_url) in
      let doc = Option.map fetch_google_doc (truthy s.doc_url) in
      do
        in_embeddings (index_chunks v.store s.review_id (all_chunks s pr jira doc))
        say s "Context Collector" "complete" "Gathered PR metadata, Jira ticket, and Google Docs."
        pure (context_update pr jira doc)

  unfoldable pub context_collector_node : Option String → ReviewState → Exec (World v) Update
  unfolding say
  context_collector_node github_token s = do
    say s "Context Collector" "running" "Gathering PR metadata, Jira ticket, and Google Docs..."
    collect_context s (fetch_pr_data v.github s.pr_url github_token)

  unfoldable pub analyze_pr : ReviewState → Option PrMetadata → Exec (World v) Update
  unfolding say
  analyze_pr s none = pure (Merge.Write.error "Cannot analyze repository: no PR metadata" ∷ [])
  analyze_pr s (some pr) = do
    say s "Repository Analyzer" "running" "Determining framework and architectural impact..."
    say s "Repository Analyzer" "complete" "Determined framework and architectural impact."
    pure (
        Merge.Write.changed_files_analysis (files_analysis pr.changed_files)
        ∷ Merge.Write.impact_graph (impact_graph pr.changed_files)
        ∷ Merge.Write.detected_framework (detect_framework pr.changed_files)
        ∷ [])

  unfoldable pub repository_analyzer_node : ReviewState → Exec (World v) Update
  repository_analyzer_node s = analyze_pr s s.pr_metadata

  -- A message for each agent that was not selected.
  unfoldable pub announce_skipped :
      ReviewState → List String → List Agent → Exec (World v) (Unit {0})
  unfolding say
  announce_skipped s selected [] = pure tt
  announce_skipped s selected (a ∷ agents) = do
    (if contains selected (node_name a)
        then pure tt
        else say s (display_name a) "skipped" "Skipped by orchestrator: Not relevant for this PR.")
    announce_skipped s selected agents

  unfoldable pub orchestrator_node : ReviewState → Exec (World v) Update
  unfolding say
  orchestrator_node s = do
    say s "Orchestrator Agent" "running" "Determining which specialist agents to run..."
    selected ← Orchestrator.run v.selector v.orchestrator_prompt s
    say s "Orchestrator Agent" "complete" "Finished agent selection."
    announce_skipped s selected every_agent
    pure (Merge.Write.selected_agents selected ∷ [])

  -- The model with `build_rag_tool(review_id)` over the rows that are stored, in place of the tool
  -- that `v.llm` has.
  abbrev pub with_tool : String → World v → Llm
  with_tool review_id w = record v.llm {
    search_context = search_context v.vectors review_id w.embeddings;
  }

  -- The eight nodes have one text, up to names and messages. The human message is built first, and
  -- building it raises on a raw context of `None`.
  unfoldable pub agent_step :
      Agent → ReviewState → Option PrMetadata → Option String → Exec (World v) Update
  unfolding say
  agent_step a s none raw_context = pure (agent_update a (empty_result a))
  agent_step a s (some pr) none = raise (error "'NoneType' object is not subscriptable")
  agent_step a s (some pr) (some raw) = do
    say s (display_name a) "running" (running_text a)
    update ← λ (w : World v).
        in_feed
          (Base.run (with_tool s.review_id w) s.review_id a (v.system_prompt a)
            (human_message a raw pr))
          w
    say s (display_name a) "complete" (complete_text a)
    pure update

  unfoldable pub agent_node : Agent → ReviewState → Exec (World v) Update
  agent_node a s = agent_step a s s.pr_metadata s.raw_context

  unfoldable pub consensus_node : ReviewState → Exec (World v) Update
  unfolding say
  consensus_node s = do
    say s "Consensus Agent" "running" "Merging all findings and calculating final risk score..."
    say s "Consensus Agent" "complete"
        "Finished merging all findings and calculating final risk score."
    pure (Merge.Write.consensus_result (Consensus.run v.judge s) ∷ [])

  unfoldable pub hitl_node : ReviewState → Exec (World v) Update
  hitl_node s = pure (Merge.Write.hitl_required true ∷ [])

  -- `except Exception`: what was done stays done.
  abbrev swallow : {A : Type 0} → Exec (World v) A → Exec (World v) (Unit {0})
  swallow m w = (ok tt, (m w).1)

  -- `consensus.get("final_findings", [])`
  abbrev pub final_findings : ConsensusResult → List AgentFinding
  final_findings c = elim c.final_findings [ none ↦ [] | some findings ↦ findings ]

  unfoldable pub post_consensus :
      Option String → ReviewState → Option ConsensusResult → Exec (World v) Update
  post_consensus github_token s none = raise (error "'NoneType' object has no attribute 'get'")
  post_consensus github_token s (some consensus) = do
    swallow (in_posted (post_pr_comments v.github s.pr_url (final_findings consensus) github_token))
    pure []

  unfoldable pub output_node : Option String → ReviewState → Exec (World v) Update
  output_node github_token s = post_consensus github_token s s.consensus_result
