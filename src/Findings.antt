-- ===== src/Findings.antt =====
-- backend/schemas/findings.py: the structured output that every agent returns.
-- A confidence is a decimal between 0 and 1; it is kept in thousandths, since the program compares
-- and copies confidences and never computes with them.
use aerp.Prelude.{ℕ, ◌≤◌, String, Option, List, All}

pub data Severity : Type 0 where
  critical high medium low info : Severity

-- `Severity.value`
abbrev pub severity_value : Severity → String
severity_value critical = "critical"
severity_value high = "high"
severity_value medium = "medium"
severity_value low = "low"
severity_value info = "info"

pub data Recommendation : Type 0 where
  approve approve_with_comments request_changes block : Recommendation

-- `Recommendation.value`
abbrev pub recommendation_value : Recommendation → String
recommendation_value approve = "approve"
recommendation_value approve_with_comments = "approve_with_comments"
recommendation_value request_changes = "request_changes"
recommendation_value block = "block"

pub record CodeFinding : Type 0 where
  pub title : String
  pub severity : Severity
  pub confidence : ℕ
  pub description : String
  pub file_path : Option String
  pub line_number : Option ℕ
  pub evidence : String
  pub suggested_fix : Option String
  pub owasp_category : Option String

pub record AgentReport : Type 0 where
  pub findings : List CodeFinding
  pub overall_assessment : String
  pub recommendation : Recommendation
  pub confidence : ℕ

pub record ConsensusReport : Type 0 where
  pub final_findings : List CodeFinding
  pub overall_assessment : String
  pub recommendation : Recommendation
  pub risk_score : ℕ

-- The `ge` and `le` bounds of the fields, which pydantic checks when a report is parsed.
abbrev pub IsValidFinding : CodeFinding → Type 0
IsValidFinding f = f.confidence ≤ 1000

abbrev pub IsValidReport : AgentReport → Type 0
IsValidReport r = All IsValidFinding r.findings × (r.confidence ≤ 1000)

abbrev pub IsValidConsensus : ConsensusReport → Type 0
IsValidConsensus r = All IsValidFinding r.final_findings × (r.risk_score ≤ 100)
