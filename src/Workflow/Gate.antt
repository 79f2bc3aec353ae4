-- ===== src/Workflow/Gate.antt =====
-- The gate of a run: what a run that pauses, and one that ends, have done.
use aerp.Prelude.{◌≤◌, ◌<◌, ◌≡◌, refl, String, Option, none, some, Result, ok, err, pure, ◌>>=◌}
use aerp.State.{ReviewState, ConsensusResult}
use aerp.State.Merge.{merge}
use aerp.Workflow.{Next, hitl, output, route_score}
use aerp.Workflow.Laws.{route_score-hitl, route_score-output}
use aerp.Workflow.Nodes
use aerp.Workflow.Nodes.{Services, World}
use aerp.Workflow.Run
use aerp.Workflow.Run.{Engine, Outcome, completed, paused}

-- How an outcome relates to the state and the world before the gate.
abbrev pub Gated : {v : Services} → ReviewState → World v → Result Outcome × World v → Type 0
Gated s w (ok (paused t), w') =
    (t ≡ s)
    × (w' ≡ w)
    × ((c : ConsensusResult) × (s.consensus_result ≡ some c) × (40 < c.risk_score))
Gated s w (ok (completed t), w') =
    (t ≡ s)
    × (w'.embeddings ≡ w.embeddings)
    × (w'.feed ≡ w.feed)
    × ((c : ConsensusResult) × (s.consensus_result ≡ some c) × (c.risk_score ≤ 40))
Gated s w (err e, w') = (s.consensus_result ≡ none) × (w' ≡ w)

module _ (v : Services) (engine : Engine) (github_token : Option String) where
  abbrev Posted : ReviewState → World v → Result ReviewState × World v → Type 0
  Posted s w (r, w') = (r ≡ ok s) × (w'.embeddings ≡ w.embeddings) × (w'.feed ≡ w.feed)

  -- The output node returns, whatever GitHub does, and changes the state in nothing.
  output-Posted :
      (s : ReviewState) (w : World v) (c : ConsensusResult)
      → s.consensus_result ≡ some c
      → Posted s w (Run.step v engine github_token (Nodes.output_node v github_token) s w)
  unfolding Nodes.output_node Nodes.post_consensus merge
  output-Posted s w c h = rw (h, Nodes.post_consensus) (refl, refl, refl)

  completed-Gated :
      (s : ReviewState) (w w' : World v) (c : ConsensusResult) (r : Result ReviewState)
      → s.consensus_result ≡ some c
      → c.risk_score ≤ 40
      → Posted s w (r, w')
      → Gated s w (((λ (_ : World v). (r, w')) >>= λ t. pure (completed t)) w)
  completed-Gated s w w' c (ok t) h low (e, rows, feed) = (cc e, rows, feed, (c, h, low))
  completed-Gated s w w' c (err x) h low (e, rows, feed) = cc e

  follow-Gated :
      (s : ReviewState) (w : World v) (c : ConsensusResult) (n : Next)
      → s.consensus_result ≡ some c
      → route_score c.risk_score ≡ n
      → Gated s w (Run.follow v engine github_token n s w)
  unfolding Run.follow
  follow-Gated s w c hitl h e = (refl, refl, (c, h, (route_score-hitl c.risk_score).0 e))
  follow-Gated s w c output h e =
      let (r, w') = Run.step v engine github_token (Nodes.output_node v github_token) s w in
      completed-Gated s w w' c r h ((route_score-output c.risk_score).0 e) (output-Posted s w c h)

  decide_on-Gated :
      (s : ReviewState) (w : World v) (o : Option ConsensusResult)
      → s.consensus_result ≡ o
      → Gated s w (Run.decide_on v engine github_token s o w)
  unfolding Run.decide_on
  decide_on-Gated s w none h = (h, refl)
  decide_on-Gated s w (some c) h = follow-Gated s w c (route_score c.risk_score) h refl

  -- After the consensus, a run pauses only with a score above 40 and then leaves the state and the
  -- world alone; it ends only with a score of at most 40, with the state, the progress messages
  -- and the embeddings as they were; it raises only where there is no consensus, and then nothing
  -- has happened.
  pub decide-Gated :
      (s : ReviewState) (w : World v) → Gated s w (Run.decide v engine github_token s w)
  unfolding Run.decide
  decide-Gated s w = decide_on-Gated s w s.consensus_result refl
