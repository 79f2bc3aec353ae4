-- ===== src/Tests/Agents.antt =====
-- The agents at concrete models.
use aerp.Prelude.{ℕ, ◌≤◌, ◌<◌, ◌≡◌, refl, ap, Option, none, some, List, [], ◌∷◌, arith}
use aerp.Findings.{ConsensusReport}
use aerp.Agents.Attempts.{
  Message, human, Reply, returned, nothing, report, attempts, conversation, correction,
}
use aerp.Agents.Consensus
use aerp.Agents.ConsensusLaws.{run_silent_consensus}
use aerp.Tests.Data.{judge_of, silent_judge, collected_review}

-- A model that answers nothing on one message, and a report on more.
abbrev second_try : List Message → Reply ℕ
second_try [] = nothing
second_try (m ∷ []) = nothing
second_try (m ∷ n ∷ messages) = returned 5

second_try-finds : attempts second_try 3 (human "review" ∷ []) ≡ some 5
unfolding attempts correction
second_try-finds = refl

second_try-at_one : report (second_try (conversation second_try 1 (human "review" ∷ []))) ≡ some 5
unfolding conversation correction
second_try-at_one = refl

high-score : 40 < (Consensus.run (judge_of 75) collected_review).risk_score
unfolding Consensus.run Consensus.conclude Consensus.prepare Consensus.final_report
    Consensus.strict_policy Consensus.to_result attempts
high-score = omega arith

-- The score of an optional report.
abbrev score_of : Option ConsensusReport → ℕ
score_of none = 0
score_of (some r) = r.risk_score

score_of-le :
    (r : ConsensusReport) → report ((judge_of 75).consensus_report []) ≡ some r → r.risk_score ≤ 100
score_of-le r h = let e : 75 ≡ r.risk_score = ap score_of h in omega arith

run_silent_consensus_example :
    ((Consensus.run silent_judge collected_review).risk_score ≡ 0)
    × ((Consensus.run silent_judge collected_review).recommendation ≡ "approve_with_comments")
    × ((Consensus.run silent_judge collected_review).findings ≡ [])
run_silent_consensus_example = run_silent_consensus silent_judge collected_review (λ messages. refl)
