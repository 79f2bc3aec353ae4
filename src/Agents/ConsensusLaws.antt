-- ===== src/Agents/ConsensusLaws.antt =====
-- What the consensus agent guarantees to the gate, whatever the model answers.
use aerp.Prelude.{
  ap, ◌≤◌, ◌<◌, ◌≡◌, refl, String, none, some, List, [], Result, ok, err, arith, Option-cases, inl,
  inr,
}
use aerp.Findings.{recommendation_value, request_changes, ConsensusReport}
use aerp.State.{ReviewState}
use aerp.Agents.Attempts.{Message, report, attempts, attempts_sound}
use aerp.Agents.Base.{failure_text}
use aerp.Agents.Consensus
use aerp.Agents.Consensus.{Judge, fallback_report}
use aerp.Agents.Laws.{IsSilent, attempts_silent}

strict_policy-request_changes :
    (r : ConsensusReport)
    → 40 < (Consensus.strict_policy r).risk_score
    → (Consensus.strict_policy r).recommendation ≡ request_changes
unfolding Consensus.strict_policy
strict_policy-request_changes r h = ground arith

strict_policy-risk_score :
    (r : ConsensusReport) → (Consensus.strict_policy r).risk_score ≡ r.risk_score
unfolding Consensus.strict_policy
strict_policy-risk_score r = ground arith

to_result-request_changes :
    (r : ConsensusReport)
    → r.recommendation ≡ request_changes
    → (Consensus.to_result r).recommendation ≡ "request_changes"
unfolding Consensus.to_result
to_result-request_changes r h = ap recommendation_value h

to_result-risk_score : (r : ConsensusReport) → (Consensus.to_result r).risk_score ≡ r.risk_score
unfolding Consensus.to_result
to_result-risk_score r = refl

failed_result-risk_score : (message : String) → (Consensus.failed_result message).risk_score ≡ 0
unfolding Consensus.failed_result
failed_result-risk_score message = refl

final_report-risk_score_le :
    (judge : Judge) (messages : List Message)
    → ((ms : List Message) (r : ConsensusReport)
        → report (judge.consensus_report ms) ≡ some r
        → r.risk_score ≤ 100)
    → (Consensus.final_report judge messages).risk_score ≤ 100
unfolding Consensus.final_report fallback_report
final_report-risk_score_le judge messages bounded =
    elim (Option-cases (attempts judge.consensus_report 3 messages)) [
      | inl e ↦ rw e (omega arith)
      | inr (r, e) ↦
          let (_, _, _, found) = attempts_sound judge.consensus_report 3 messages r e in
          rw e (bounded _ r found)
    ]

conclude-risk_score_le :
    (judge : Judge) (r : Result (List Message))
    → ((ms : List Message) (c : ConsensusReport)
        → report (judge.consensus_report ms) ≡ some c
        → c.risk_score ≤ 100)
    → (Consensus.conclude judge r).risk_score ≤ 100
unfolding Consensus.conclude
conclude-risk_score_le judge (ok messages) bounded =
    rw (to_result-risk_score, strict_policy-risk_score)
      (final_report-risk_score_le judge messages bounded)
conclude-risk_score_le judge (err e) bounded = rw failed_result-risk_score (omega arith)

final_report_silent_consensus :
    (judge : Judge) (messages : List Message)
    → IsSilent judge.consensus_report
    → Consensus.final_report judge messages ≡ fallback_report
unfolding Consensus.final_report
final_report_silent_consensus judge messages silent =
    rw (attempts_silent judge.consensus_report 3 messages silent) refl

conclude_silent :
    (judge : Judge) (r : Result (List Message))
    → IsSilent judge.consensus_report
    → ((Consensus.conclude judge r).risk_score ≡ 0)
      × ((Consensus.conclude judge r).recommendation ≡ "approve_with_comments")
      × ((Consensus.conclude judge r).findings ≡ [])
unfolding Consensus.conclude Consensus.to_result Consensus.failed_result fallback_report
    Consensus.strict_policy
conclude_silent judge (ok messages) silent =
    rw (final_report_silent_consensus judge messages silent) (refl, refl, refl)
conclude_silent judge (err e) silent = (refl, refl, refl)

conclude-final_findings :
    (judge : Judge) (r : Result (List Message)) → (Consensus.conclude judge r).final_findings ≡ none
unfolding Consensus.conclude Consensus.to_result Consensus.failed_result
conclude-final_findings judge (ok messages) = refl
conclude-final_findings judge (err e) = refl

conclude-request_changes :
    (judge : Judge) (r : Result (List Message))
    → 40 < (Consensus.conclude judge r).risk_score
    → (Consensus.conclude judge r).recommendation ≡ "request_changes"
unfolding Consensus.conclude
conclude-request_changes judge (ok messages) h =
    let r = Consensus.strict_policy (Consensus.final_report judge messages) in
    to_result-request_changes r (
      strict_policy-request_changes (Consensus.final_report judge messages)
        (rw (to_result-risk_score r) at h))
conclude-request_changes judge (err e) h =
    absurd (omega (arith, failed_result-risk_score (failure_text e)))

-- A consensus of a score above 40 recommends request_changes, whatever the model recommended.
pub run-request_changes :
    (judge : Judge) (s : ReviewState)
    → 40 < (Consensus.run judge s).risk_score
    → (Consensus.run judge s).recommendation ≡ "request_changes"
unfolding Consensus.run
run-request_changes judge s h = conclude-request_changes judge (Consensus.prepare judge s) h

-- Where every report of the model scores at most 100, so does the stored consensus.
pub run-risk_score_le :
    (judge : Judge) (s : ReviewState)
    → ((messages : List Message) (r : ConsensusReport)
        → report (judge.consensus_report messages) ≡ some r
        → r.risk_score ≤ 100)
    → (Consensus.run judge s).risk_score ≤ 100
unfolding Consensus.run
run-risk_score_le judge s bounded = conclude-risk_score_le judge (Consensus.prepare judge s) bounded

-- A consensus whose model never gives a report scores 0, approves with comments and has no
-- findings.
pub run_silent_consensus :
    (judge : Judge) (s : ReviewState)
    → IsSilent judge.consensus_report
    → ((Consensus.run judge s).risk_score ≡ 0)
      × ((Consensus.run judge s).recommendation ≡ "approve_with_comments")
      × ((Consensus.run judge s).findings ≡ [])
unfolding Consensus.run
run_silent_consensus judge s silent = conclude_silent judge (Consensus.prepare judge s) silent

-- The stored dict has the key `findings` and no key `final_findings`.
pub run-final_findings :
    (judge : Judge) (s : ReviewState) → (Consensus.run judge s).final_findings ≡ none
unfolding Consensus.run
run-final_findings judge s = conclude-final_findings judge (Consensus.prepare judge s)
