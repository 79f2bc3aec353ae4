-- ===== src/Tests/Runs.antt =====
-- Runs of the workflow on fixed services.
use aerp.Prelude.{
  ◌≤◌, ◌<◌, ◌≡◌, refl, some, [], ◌∷◌, error, Result, ok, err, arith, contains, true, inl, inr,
}
use aerp.State.{AgentResult, ReviewState, ConsensusResult, security, code_review}
use aerp.State.Merge.{merge, merge_all, result_of, put}
use aerp.Agents.Base
use aerp.Agents.Attempts.{attempts}
use aerp.Agents.Base.{agent_name}
use aerp.Agents.Orchestrator
use aerp.Agents.Consensus
use aerp.Github.{fetch_pr_data, parse_pr_url}
use aerp.Github.Comments.{post_pr_comments}
use aerp.Pubsub.{publish_agent_status}
use aerp.Rag.Indexer
use aerp.Rag.Chunker
use aerp.Workflow.{route_agents, route_selected, route_names, route_score}
use aerp.Workflow.Nodes
use aerp.Workflow.Nodes.{Services, World}
use aerp.Workflow.Run
use aerp.Workflow.Run.{Outcome, completed, paused}
use aerp.Workflow.FanIn.{
  HasContext, Reports, agents_of, updates_of, IsNamed, run_agents-returns, merge_all-agent_findings,
  merge_all-result_of,
}
use aerp.Workflow.Results.{review-result_of}
use aerp.Workflow.Whole.{
  invoke_paused, invoke_completed, invoke_without_pr, output_node-no_findings,
}
use aerp.Tests.Engine.{in_order}
use aerp.Tests.Data.{
  services, reporting_llm, judge_of, offline, empty_world, mock_review, missing_review,
  collected_review, finding, result, pr,
}

abbrev risky : Services
risky = services reporting_llm (judge_of 75)

abbrev harmless : Services
harmless = services reporting_llm (judge_of 10)

-- The state in which a run stands.
abbrev state_of : Result Outcome → ReviewState
state_of (ok (paused s)) = s
state_of (ok (completed s)) = s
state_of (err e) = mock_review

risky-pauses :
    (Run.invoke risky in_order (some "token") mock_review empty_world).0
    ≡ ok (paused (state_of (Run.invoke risky in_order (some "token") mock_review empty_world).0))
unfolding Run.invoke Run.collect Run.review Run.run_agents Run.decide Run.decide_on Run.follow
    Nodes.context_collector_node Nodes.collect_context Nodes.say Nodes.repository_analyzer_node
    Nodes.analyze_pr Nodes.orchestrator_node Nodes.announce_skipped Nodes.agent_node
    Nodes.agent_step Nodes.consensus_node Nodes.output_node Nodes.post_consensus Orchestrator.run
    Orchestrator.run_on Orchestrator.choose Orchestrator.decide Base.run Base.recover
    Base.attempt_run Base.final_report Base.gather Consensus.run Consensus.conclude
    Consensus.prepare Consensus.final_report Consensus.strict_policy Consensus.to_result attempts
    fetch_pr_data parse_pr_url publish_agent_status merge merge_all put route_agents route_names
    route_selected route_score Indexer.index_chunks Indexer.index_batches Indexer.store_batch
    Chunker.chunk_pr_diff Chunker.chunk_document Nodes.all_chunks Nodes.context_update
risky-pauses = refl

invoke_paused_example :
    ((Run.invoke risky in_order (some "token") mock_review empty_world).1.posted ≡ [])
    × ((c : ConsensusResult) × ((state_of
            (Run.invoke risky in_order (some "token") mock_review empty_world).0).consensus_result
          ≡ some c)
        × (40 < c.risk_score)
        × (c.recommendation ≡ "request_changes"))
invoke_paused_example =
    invoke_paused risky in_order (some "token") mock_review
      (state_of (Run.invoke risky in_order (some "token") mock_review empty_world).0) empty_world
      risky-pauses

harmless-completes :
    (Run.invoke harmless in_order (some "token") mock_review empty_world).0
    ≡ ok (
        completed
          (state_of (Run.invoke harmless in_order (some "token") mock_review empty_world).0))
unfolding Run.invoke Run.collect Run.review Run.run_agents Run.decide Run.decide_on Run.follow
    Nodes.context_collector_node Nodes.collect_context Nodes.say Nodes.repository_analyzer_node
    Nodes.analyze_pr Nodes.orchestrator_node Nodes.announce_skipped Nodes.agent_node
    Nodes.agent_step Nodes.consensus_node Nodes.output_node Nodes.post_consensus Orchestrator.run
    Orchestrator.run_on Orchestrator.choose Orchestrator.decide Base.run Base.recover
    Base.attempt_run Base.final_report Base.gather Consensus.run Consensus.conclude
    Consensus.prepare Consensus.final_report Consensus.strict_policy Consensus.to_result attempts
    fetch_pr_data parse_pr_url publish_agent_status merge merge_all put route_agents route_names
    route_selected route_score Indexer.index_chunks Indexer.index_batches Indexer.store_batch
    Chunker.chunk_pr_diff Chunker.chunk_document Nodes.all_chunks Nodes.context_update
harmless-completes = refl

invoke_completed_example :
    (c : ConsensusResult) × ((state_of
        (Run.invoke harmless in_order (some "token") mock_review empty_world).0).consensus_result
      ≡ some c)
    × (c.risk_score ≤ 40)
invoke_completed_example =
    invoke_completed harmless in_order (some "token") mock_review
      (state_of (Run.invoke harmless in_order (some "token") mock_review empty_world).0) empty_world
      harmless-completes

missing-fails : fetch_pr_data offline missing_review.pr_url (some "token") ≡ err (error "404")
unfolding fetch_pr_data parse_pr_url
missing-fails = refl

invoke_without_pr_example :
    ((Run.invoke risky in_order (some "token") missing_review empty_world).0
      ≡ err (error "'NoneType' object has no attribute 'get'"))
    × ((Run.invoke risky in_order (some "token") missing_review empty_world).1.posted ≡ [])
    × ((Run.invoke risky in_order (some "token") missing_review empty_world).1.embeddings ≡ [])
invoke_without_pr_example =
    invoke_without_pr risky in_order (some "token") missing_review empty_world (error "404") refl
      missing-fails

abbrev judged_review : ReviewState
judged_review = record collected_review {
  consensus_result = some (Consensus.run risky.judge collected_review);
}

output_node-no_findings_example :
    (Nodes.output_node risky (some "token") judged_review empty_world).1.posted
    ≡ (post_pr_comments offline judged_review.pr_url [] (some "token") []).1
output_node-no_findings_example =
    output_node-no_findings risky in_order (some "token") judged_review collected_review empty_world
      refl

abbrev collected_context : HasContext collected_review
collected_context = record {
  pr_metadata = pr;
  has_pr_metadata = refl;
  raw_context = "=== PULL REQUEST: Add users ===";
  has_raw_context = refl;
}

run_agents-returns_example :
    (reports : Reports) × (agents_of reports ≡ security ∷ code_review ∷ [])
    × ((Run.run_agents risky in_order
          (some "token")
          (security ∷ code_review ∷ [])
          collected_review
          empty_world).0
        ≡ ok (updates_of reports))
    × IsNamed risky reports
run_agents-returns_example =
    run_agents-returns risky in_order (some "token") (security ∷ code_review ∷ []) collected_review
      empty_world collected_context

abbrev two_reports : Reports
two_reports =
    (security, result "security_agent" (finding "security_agent" "critical" ∷ []))
    ∷ (code_review, result "code_review_agent" (finding "code_review_agent" "low" ∷ []))
    ∷ []

merge_all-agent_findings_example :
    (merge_all (updates_of two_reports) collected_review).agent_findings
    ≡ finding "security_agent" "critical" ∷ finding "code_review_agent" "low" ∷ []
merge_all-agent_findings_example = merge_all-agent_findings two_reports collected_review

merge_all-result_of_example :
    result_of code_review (merge_all (updates_of two_reports) collected_review).results
    ≡ some (result "code_review_agent" (finding "code_review_agent" "low" ∷ []))
merge_all-result_of_example =
    merge_all-result_of code_review
      (result "code_review_agent" (finding "code_review_agent" "low" ∷ [])) two_reports
      collected_review (ground arith) (inr (inl (refl, refl)))

security-routed : contains (route_agents collected_review) "security" ≡ true
unfolding route_agents route_names
security-routed = refl

review-result_of_example :
    (t : ReviewState) × (r : AgentResult) × ((Run.review risky in_order
        (some "token")
        collected_review
        empty_world).0
      ≡ ok t)
    × (result_of security t.results ≡ some r)
review-result_of_example =
    review-result_of risky in_order (some "token") security collected_review empty_world
      collected_context security-routed
