-- ===== src/Agents/Consensus.antt =====
-- backend/agents/consensus_agent.py: one report out of all the findings, with the final risk score.
use aerp.Prelude.{
  ℕ, String, ◌<>◌, Bool, none, some, List, [], ◌∷◌, map, error, Result, ok, err, ltb, if◌then◌else◌,
}
use aerp.Findings.{ConsensusReport, recommendation_value, approve_with_comments, request_changes}
use aerp.State.{ConsensusResult, ReviewState}
use aerp.Prompts.ConsensusPrompt.{build_human_message}
use aerp.Agents.Attempts.{Message, system, human, Model, attempts}
use aerp.Agents.Base.{to_state, report_or, failure_text}

-- LangChain's model, bound to the schema `ConsensusReport`; `shown_confidence` is Python's text of a
-- confidence.
pub record Judge : Type 0 where
  pub get_llm : Result Bool
  pub consensus_report : Model ConsensusReport
  pub system_prompt : String
  pub shown_confidence : ℕ → String

unfoldable pub fallback_report : ConsensusReport
fallback_report = record {
  final_findings = [];
  overall_assessment =
      "JSON Parsing Failed after 3 attempts with consensus_agent. The LLM output could not be parsed.";
  recommendation = approve_with_comments;
  risk_score = 0;
}

-- A score that calls a human in always asks for changes.
unfoldable pub strict_policy : ConsensusReport → ConsensusReport
strict_policy report =
    if ltb 40 report.risk_score then record report { recommendation = request_changes } else report

unfoldable pub to_result : ConsensusReport → ConsensusResult
unfolding to_state
to_result report = record {
  agent = "consensus_agent";
  findings = map (to_state "consensus_agent") report.final_findings;
  final_findings = none;
  overall_assessment = report.overall_assessment;
  recommendation = recommendation_value report.recommendation;
  risk_score = report.risk_score;
  confidence = 1000;
}

-- The result when the agent raised.
unfoldable pub failed_result : String → ConsensusResult
failed_result message = record {
  agent = "consensus_agent";
  findings = [];
  final_findings = none;
  overall_assessment = "Consensus failed: " <> message;
  recommendation = "approve_with_comments";
  risk_score = 0;
  confidence = 0;
}

module _ (judge : Judge) where
  unfoldable pub final_report : List Message → ConsensusReport
  unfolding attempts fallback_report
  final_report messages = report_or fallback_report (attempts judge.consensus_report 3 messages)

  -- The messages of the call. With no PR metadata they cannot be built.
  unfoldable pub prepare : ReviewState → Result (List Message)
  prepare s = elim s.pr_metadata [
    | none ↦ err (error "'NoneType' object has no attribute 'get'")
    | some pr ↦ elim judge.get_llm [
      | err e ↦ err e
      | ok found ↦
          let text = build_human_message judge.shown_confidence s.raw_context pr s.agent_findings in
          if found
          then ok (system judge.system_prompt ∷ human text ∷ [])
          else err (error "Failed to initialize LLM for consensus.")
    ]
  ]

  -- The rest of the `try` block, and the `except` block: any exception becomes an empty result.
  unfoldable pub conclude : Result (List Message) → ConsensusResult
  conclude (ok messages) = to_result (strict_policy (final_report messages))
  conclude (err e) = failed_result (failure_text e)

  unfoldable pub run : ReviewState → ConsensusResult
  unfolding conclude prepare
  run s = conclude (prepare s)
