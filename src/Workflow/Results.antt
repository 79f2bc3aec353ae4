-- ===== src/Workflow/Results.antt =====
-- The review step as a whole: the routed agents, merged, with the consensus on top.
use aerp.Prelude.{
  ◌≡◌, refl, ap, sym, ◌∙◌, inl, inr, String, Option, some, [], ◌∷◌, contains, true, Result, ok,
  >>=-at-ok,
}
use mathlib.Core.Path.{subst}
use aerp.State.{Agent, AgentResult, ReviewState}
use aerp.State.Merge.{merge_all, result_of}
use aerp.Agents.Consensus
use aerp.Workflow.{node_name, route_agents}
use aerp.Workflow.Nodes
use aerp.Workflow.Nodes.{Services, World}
use aerp.Workflow.Run
use aerp.Workflow.Run.{Engine, Started, NoRepeat}
use aerp.Workflow.FanIn.{
  HasContext, Reports, agents_of, updates_of, IsReported, run_agents-returns, merge_all-result_of,
}
use aerp.Workflow.Whole.{consensus_step}

Started-IsReported :
    (a : Agent) (reports : Reports)
    → Started a (agents_of reports)
    → (r : AgentResult) × IsReported a r reports
Started-IsReported a [] h = absurd h
Started-IsReported a ((b, q) ∷ reports) (inl e) = (q, inl (e, refl))
Started-IsReported a ((b, q) ∷ reports) (inr h) =
    let (r, k) = Started-IsReported a reports h in (r, inr k)

module _ (v : Services) (engine : Engine) (token : Option String) where
  -- With the context collected, the step of the agents and the consensus returns a state in which
  -- every agent that the review was routed to has its result, whatever the models do and in
  -- whatever order the updates are merged.
  pub review-result_of :
      (a : Agent) (s : ReviewState) (w : World v)
      → HasContext s
      → contains (route_agents s) (node_name a) ≡ true
      → (t : ReviewState) × (r : AgentResult) × ((Run.review v engine token s w).0 ≡ ok t)
        × (result_of a t.results ≡ some r)
  unfolding Run.review
  review-result_of a s w c routed =
      let names = route_agents s in
      let (reports, same, returned, _) =
        run_agents-returns v engine token (engine.dispatch names) s w c in
      let once = subst NoRepeat (sym same) (engine.dispatch_once names) in
      let started = subst (Started a) (sym same) ((engine.dispatch_routed names a).1 routed) in
      let (r, reported) = Started-IsReported a reports started in
      let m = merge_all (updates_of reports) s in
      let ran = Run.run_agents v engine token (engine.dispatch names) s in
      let step =
        >>=-at-ok ran
          (λ updates. Run.step v engine token (Nodes.consensus_node v) (merge_all updates s)) w
          (updates_of reports) returned in
      (
        record m { consensus_result = some (Consensus.run v.judge m) },
        r,
        ap (λ (x : Result ReviewState × World v). x.0) step
            ∙ consensus_step v engine token m (ran w).1,
        merge_all-result_of a r reports s once reported,
      )
