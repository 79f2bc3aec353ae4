-- ===== src/Workflow/Whole.antt =====
-- A whole run of the graph, from the submitted review to the gate and past it.
use aerp.Prelude.{
  ◌≤◌, ◌<◌, ◌≡◌, refl, sym, ap, ◌∙◌, String, Option, none, some, [], Failure, error, Result, ok,
  err, >>=-eq-ok, >>=-at-ok,
}
use aerp.State.{ReviewState, ConsensusResult}
use aerp.State.Merge.{merge, merge_all, put}
use aerp.Agents.Orchestrator
use mathlib.Core.Option.{some-injective}
use aerp.Pubsub.{publish_agent_status}
use aerp.Agents.Consensus
use aerp.Agents.ConsensusLaws.{run-request_changes, run-final_findings}
use aerp.Github.Comments.{post_pr_comments}
use aerp.Github.{fetch_pr_data}
use aerp.Workflow.Nodes
use aerp.Workflow.Nodes.{Services, World}
use aerp.Workflow.Run
use aerp.Workflow.Run.{Engine, Outcome, completed, paused}
use aerp.Workflow.Gate.{decide-Gated, Gated}
use aerp.Workflow.Quiet.{collect-KeepsPosted, review-KeepsPosted}

module _ (v : Services) (engine : Engine) (token : Option String) where
  -- The consensus node always writes, and it writes what the consensus agent returned.
  pub consensus_step :
      (s : ReviewState) (w : World v)
      → (Run.step v engine token (Nodes.consensus_node v) s w).0
        ≡ ok (record s { consensus_result = some (Consensus.run v.judge s) })
  unfolding Nodes.consensus_node Nodes.say publish_agent_status merge put
  consensus_step s w = refl

  review-consensus :
      (s t : ReviewState) (w : World v)
      → (Run.review v engine token s w).0 ≡ ok t
      → (m : ReviewState) × (t.consensus_result ≡ some (Consensus.run v.judge m))
  unfolding Run.review
  review-consensus s t w h =
      let (updates, e, h₁) = >>=-eq-ok (Run.run_agents v engine token _ s) _ w t h in
      let m = merge_all updates s in let same = sym (consensus_step m _) ∙ h₁ in (m, cc)

  Gated-paused :
      (s t : ReviewState) (w : World v) (r : Result Outcome × World v)
      → Gated s w r
      → r.0 ≡ ok (paused t)
      → (t ≡ s)
        × (r.1 ≡ w)
        × ((c : ConsensusResult) × (s.consensus_result ≡ some c) × (40 < c.risk_score))
  Gated-paused s t w (ok (paused u), w') g h = (cc, g.1, g.2)
  Gated-paused s t w (ok (completed u), w') g h = cc
  Gated-paused s t w (err e, w') g h = cc

  Gated-completed :
      (s t : ReviewState) (w : World v) (r : Result Outcome × World v)
      → Gated s w r
      → r.0 ≡ ok (completed t)
      → (t ≡ s) × ((c : ConsensusResult) × (s.consensus_result ≡ some c) × (c.risk_score ≤ 40))
  Gated-completed s t w (ok (completed u), w') g h = (cc, g.3)
  Gated-completed s t w (ok (paused u), w') g h = cc
  Gated-completed s t w (err e, w') g h = cc

  -- A whole run of the graph that pauses before the human gate has posted no comment at all, and
  -- its final state holds a consensus whose risk score is above 40 and whose recommendation is
  -- request_changes, whatever the models, GitHub and the order of the agents were.
  pub invoke_paused :
      (s t : ReviewState) (w : World v)
      → (Run.invoke v engine token s w).0 ≡ ok (paused t)
      → ((Run.invoke v engine token s w).1.posted ≡ w.posted)
        × ((c : ConsensusResult) × (t.consensus_result ≡ some c)
            × (40 < c.risk_score)
            × (c.recommendation ≡ "request_changes"))
  unfolding Run.invoke
  invoke_paused s t w h =
      let (s₁, e₁, h₁) = >>=-eq-ok (Run.collect v engine token s) _ w (paused t) h in
      let w₁ = (Run.collect v engine token s w).1 in
      let (s₂, e₂, h₂) = >>=-eq-ok (Run.review v engine token s₁) _ w₁ (paused t) h₁ in
      let w₂ = (Run.review v engine token s₁ w₁).1 in
      let (same, kept, (c, is_c, high)) =
        Gated-paused s₂ t w₂ _ (decide-Gated v engine token s₂ w₂) h₂ in
      let (m, is_run) = review-consensus s₁ s₂ w₁ e₂ in
      let is_that : c ≡ Consensus.run v.judge m =
        some-injective c (Consensus.run v.judge m) (sym is_c ∙ is_run) in
      (
        ap (λ (x : Result Outcome × World v). x.1.posted)
              (>>=-at-ok (Run.collect v engine token s) _ w s₁ e₁
                ∙ >>=-at-ok (Run.review v engine token s₁) _ w₁ s₂ e₂)
            ∙ ap (λ (x : World v). x.posted) kept
            ∙ (review-KeepsPosted v engine token s₁).at w₁
            ∙ (collect-KeepsPosted v engine token s).at w,
        (
          c,
          ap (λ (x : ReviewState). x.consensus_result) same ∙ is_c,
          high,
          rw is_that (run-request_changes v.judge m (rw is_that at high)),
        ),
      )

  -- A whole run that ends without the human gate ends with a consensus in its state, of a risk
  -- score of at most 40.
  pub invoke_completed :
      (s t : ReviewState) (w : World v)
      → (Run.invoke v engine token s w).0 ≡ ok (completed t)
      → (c : ConsensusResult) × (t.consensus_result ≡ some c) × (c.risk_score ≤ 40)
  unfolding Run.invoke
  invoke_completed s t w h =
      let (s₁, e₁, h₁) = >>=-eq-ok (Run.collect v engine token s) _ w (completed t) h in
      let w₁ = (Run.collect v engine token s w).1 in
      let (s₂, e₂, h₂) = >>=-eq-ok (Run.review v engine token s₁) _ w₁ (completed t) h₁ in
      let w₂ = (Run.review v engine token s₁ w₁).1 in
      let (same, (c, is_c, low)) =
        Gated-completed s₂ t w₂ _ (decide-Gated v engine token s₂ w₂) h₂ in
      (c, ap (λ (x : ReviewState). x.consensus_result) same ∙ is_c, low)

  -- On a state without PR metadata, a pull request that cannot be fetched ends the run with the
  -- orchestrator's exception, whose text says nothing of the fetch, with no comment posted and no
  -- embedding stored.
  pub invoke_without_pr :
      (s : ReviewState) (w : World v) (e : Failure)
      → s.pr_metadata ≡ none
      → fetch_pr_data v.github s.pr_url token ≡ err e
      → ((Run.invoke v engine token s w).0 ≡ err (error "'NoneType' object has no attribute 'get'"))
        × ((Run.invoke v engine token s w).1.posted ≡ w.posted)
        × ((Run.invoke v engine token s w).1.embeddings ≡ w.embeddings)
  unfolding Run.invoke Run.collect Nodes.context_collector_node Nodes.collect_context Nodes.say
      publish_agent_status merge put Nodes.repository_analyzer_node Nodes.analyze_pr
      Nodes.orchestrator_node Orchestrator.run Orchestrator.run_on
  invoke_without_pr s w e absent fails = rw (fails, absent) (refl, refl, refl)

  -- On a consensus that the consensus agent made, the output node posts what posting an empty list
  -- of findings posts: the findings are looked up under a key that the agent does not write.
  pub output_node-no_findings :
      (s m : ReviewState) (w : World v)
      → s.consensus_result ≡ some (Consensus.run v.judge m)
      → (Nodes.output_node v token s w).1.posted
        ≡ (post_pr_comments v.github s.pr_url [] token w.posted).1
  unfolding Nodes.output_node Nodes.post_consensus
  output_node-no_findings s m w h = rw (h, Nodes.post_consensus, run-final_findings v.judge m) refl
