-- ===== src/Prompts/ConsensusPrompt.antt =====
-- backend/prompts/consensus.py. `shown_confidence` is Python's text of a confidence.
-- The text does not use the raw context.
use aerp.Prelude.{ℕ, String, ◌<>◌, decimal, join, length, Option, none, some, List, [], ◌∷◌}
use aerp.State.{PrMetadata, AgentFinding}

abbrev shown_path : Option String → String
shown_path none = "None"
shown_path (some path) = path

abbrev shown_line : Option ℕ → String
shown_line none = "None"
shown_line (some n) = decimal n

unfoldable pub format_finding : (ℕ → String) → AgentFinding → String
format_finding shown_confidence f =
    "\n---\nAgent: "
    <> f.agent
    <> "\nSeverity: "
    <> f.severity
    <> "\nConfidence: "
    <> shown_confidence f.confidence
    <> "\nTitle: "
    <> f.title
    <> "\nDescription: "
    <> f.description
    <> "\nFile/Line: "
    <> shown_path f.file_path
    <> ":"
    <> shown_line f.line_number
    <> "\n"

unfoldable pub format_findings : (ℕ → String) → List AgentFinding → List String
unfolding format_finding
format_findings shown_confidence [] = []
format_findings shown_confidence (f ∷ agent_findings) =
    format_finding shown_confidence f ∷ format_findings shown_confidence agent_findings

unfoldable pub findings_text : (ℕ → String) → List AgentFinding → String
unfolding format_findings
findings_text shown_confidence [] = "No findings from any agent."
findings_text shown_confidence (f ∷ agent_findings) =
    join "\n" (format_findings shown_confidence (f ∷ agent_findings))

unfoldable pub build_human_message :
    (ℕ → String) → Option String → PrMetadata → List AgentFinding → String
unfolding findings_text
build_human_message shown_confidence raw_context pr agent_findings =
    "Consolidate the findings from the 8 specialist agents.\n\n## Pull Request Details\n**Title**: "
    <> pr.title
    <> "\n**Repository**: "
    <> pr.repo_owner
    <> "/"
    <> pr.repo_name
    <> "\n\n## Raw Agent Findings ("
    <> decimal (length agent_findings)
    <> " total)\n"
    <> findings_text shown_confidence agent_findings
    <> "\n\n## Instructions\n1. Review all raw findings above.\n2. Deduplicate and merge overlapping issues.\n3. Drop trivial issues if there are critical ones.\n4. Calculate a final `risk_score` (0-100).\n5. Provide a final `overall_assessment` and `recommendation`.\n"
