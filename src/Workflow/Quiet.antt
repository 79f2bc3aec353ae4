-- ===== src/Workflow/Quiet.antt =====
-- What the nodes before the gate leave alone: they post no comments.
use aerp.Prelude.{
  ◌≡◌, refl, ◌∙◌, String, Option, none, some, List, [], ◌∷◌, Result, ok, err, Exec, pure, ◌>>=◌,
  Bool, true, false, contains, if◌then◌else◌,
}
use aerp.State.{ReviewState, PrMetadata, Agent}
use aerp.Agents.Orchestrator
use aerp.Agents.Base.{display_name}
use aerp.Pubsub.{Feed}
use aerp.Rag.Indexer.{EmbeddingRow}
use aerp.Workflow.{node_name}
use aerp.Workflow.Nodes
use aerp.Workflow.Nodes.{Services, World}
use aerp.Workflow.Run
use aerp.Workflow.Run.{Engine, Outcome, completed, paused}

module _ (v : Services) where
  -- What leaves the list of posted comments as it was.
  pub record KeepsPosted {A : Type 0} (m : Exec (World v) A) : Type 0 where
    pub at : (w : World v) → (m w).1.posted ≡ w.posted

  continue-posted :
      {A B : Type 0} (r : Result A) (f : A → Exec (World v) B) (w : World v)
      → ((a : A) → KeepsPosted (f a))
      → (((λ (_ : World v). (r, w)) >>= f) w).1.posted ≡ w.posted
  continue-posted (ok a) f w kf = (kf a).at w
  continue-posted (err e) f w kf = refl

  >>=-KeepsPosted :
      {A B : Type 0} {m : Exec (World v) A} {f : A → Exec (World v) B}
      → KeepsPosted m
      → ((a : A) → KeepsPosted (f a))
      → KeepsPosted (m >>= f)
  >>=-KeepsPosted {m = m} {f = f} km kf = record {
    at = λ w. continue-posted (m w).0 f (m w).1 kf ∙ km.at w;
  }

  pure-KeepsPosted : {A : Type 0} {a : A} → KeepsPosted (pure a)
  pure-KeepsPosted = record { at = λ w. refl }

  in_feed-KeepsPosted : {A : Type 0} (m : Exec Feed A) → KeepsPosted (Nodes.in_feed v m)
  in_feed-KeepsPosted m = record { at = λ w. refl }

  in_embeddings-KeepsPosted :
      {A : Type 0} (m : Exec (List (EmbeddingRow v.store.Vector)) A)
      → KeepsPosted (Nodes.in_embeddings v m)
  in_embeddings-KeepsPosted m = record { at = λ w. refl }

  say-KeepsPosted :
      (s : ReviewState) (agent status message : String)
      → KeepsPosted (Nodes.say v s agent status message)
  unfolding Nodes.say
  say-KeepsPosted s agent status message = in_feed-KeepsPosted _

  collect_context-KeepsPosted :
      (s : ReviewState) (r : Result PrMetadata) → KeepsPosted (Nodes.collect_context v s r)
  unfolding Nodes.collect_context
  collect_context-KeepsPosted s (err e) = pure-KeepsPosted
  collect_context-KeepsPosted s (ok pr) =
      search (say-KeepsPosted s, >>=-KeepsPosted, pure-KeepsPosted, in_embeddings-KeepsPosted)

  context_collector-KeepsPosted :
      (token : Option String) (s : ReviewState)
      → KeepsPosted (Nodes.context_collector_node v token s)
  unfolding Nodes.context_collector_node
  context_collector-KeepsPosted token s =
      search (say-KeepsPosted s, >>=-KeepsPosted, collect_context-KeepsPosted s)

  analyze_pr-KeepsPosted :
      (s : ReviewState) (o : Option PrMetadata) → KeepsPosted (Nodes.analyze_pr v s o)
  unfolding Nodes.analyze_pr
  analyze_pr-KeepsPosted s none = pure-KeepsPosted
  analyze_pr-KeepsPosted s (some pr) = search (say-KeepsPosted s, >>=-KeepsPosted, pure-KeepsPosted)

  if-KeepsPosted :
      {A : Type 0} {m n : Exec (World v) A} (b : Bool)
      → KeepsPosted m
      → KeepsPosted n
      → KeepsPosted (if b then m else n)
  if-KeepsPosted true km kn = km
  if-KeepsPosted false km kn = kn

  announce_skipped-KeepsPosted :
      (s : ReviewState) (selected : List String) (agents : List Agent)
      → KeepsPosted (Nodes.announce_skipped v s selected agents)
  unfolding Nodes.announce_skipped
  announce_skipped-KeepsPosted s selected [] = pure-KeepsPosted
  announce_skipped-KeepsPosted s selected (a ∷ agents) =
      >>=-KeepsPosted
        {m = if contains selected (node_name a)
          then pure tt
          else Nodes.say v s (display_name a) "skipped"
              "Skipped by orchestrator: Not relevant for this PR."}
        (if-KeepsPosted (contains selected (node_name a)) pure-KeepsPosted
          (say-KeepsPosted s _ _ _))
        (λ _. announce_skipped-KeepsPosted s selected agents)

  orchestrator_run-KeepsPosted :
      (o : Option PrMetadata) → KeepsPosted (Orchestrator.run_on v.selector v.orchestrator_prompt o)
  unfolding Orchestrator.run_on
  orchestrator_run-KeepsPosted none = record { at = λ w. refl }
  orchestrator_run-KeepsPosted (some pr) = pure-KeepsPosted

  orchestrator-KeepsPosted : (s : ReviewState) → KeepsPosted (Nodes.orchestrator_node v s)
  unfolding Nodes.orchestrator_node Orchestrator.run
  orchestrator-KeepsPosted s = search (
    say-KeepsPosted s,
    >>=-KeepsPosted,
    pure-KeepsPosted,
    orchestrator_run-KeepsPosted,
    announce_skipped-KeepsPosted s,
  )

  agent_step-KeepsPosted :
      (a : Agent) (s : ReviewState) (o : Option PrMetadata) (c : Option String)
      → KeepsPosted (Nodes.agent_step v a s o c)
  unfolding Nodes.agent_step
  agent_step-KeepsPosted a s none c = pure-KeepsPosted
  agent_step-KeepsPosted a s (some pr) none = record { at = λ w. refl }
  agent_step-KeepsPosted a s (some pr) (some raw) = search (say-KeepsPosted s, >>=-KeepsPosted)

  consensus-KeepsPosted : (s : ReviewState) → KeepsPosted (Nodes.consensus_node v s)
  unfolding Nodes.consensus_node
  consensus-KeepsPosted s = search (say-KeepsPosted s, >>=-KeepsPosted, pure-KeepsPosted)

  module _ (engine : Engine) (token : Option String) where
    run_agents-KeepsPosted :
        (agents : List Agent) (s : ReviewState)
        → KeepsPosted (Run.run_agents v engine token agents s)
    unfolding Run.run_agents Nodes.agent_node
    run_agents-KeepsPosted [] s = pure-KeepsPosted
    run_agents-KeepsPosted (a ∷ agents) s =
        >>=-KeepsPosted (agent_step-KeepsPosted a s s.pr_metadata s.raw_context)
          λ _. >>=-KeepsPosted (run_agents-KeepsPosted agents s) λ _. pure-KeepsPosted

    pub collect-KeepsPosted : (s : ReviewState) → KeepsPosted (Run.collect v engine token s)
    unfolding Run.collect Nodes.repository_analyzer_node
    collect-KeepsPosted s =
        >>=-KeepsPosted
          (>>=-KeepsPosted (context_collector-KeepsPosted token s) λ _. pure-KeepsPosted)
          λ s₁.
            >>=-KeepsPosted
              (>>=-KeepsPosted (analyze_pr-KeepsPosted s₁ s₁.pr_metadata) λ _. pure-KeepsPosted)
              λ s₂. >>=-KeepsPosted (orchestrator-KeepsPosted s₂) λ _. pure-KeepsPosted

    pub review-KeepsPosted : (s : ReviewState) → KeepsPosted (Run.review v engine token s)
    unfolding Run.review
    review-KeepsPosted s =
        >>=-KeepsPosted (run_agents-KeepsPosted _ s)
          λ updates. >>=-KeepsPosted (consensus-KeepsPosted _) λ _. pure-KeepsPosted
