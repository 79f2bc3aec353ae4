-- ===== src/Tasks/Risk.antt =====
-- `_compute_risk_score`: the score of a review that no consensus has scored.
use aerp.Prelude.{
  ℕ, ◌+◌, ◌*◌, ◌≤◌, ◌≡◌, refl, min, String, str_eq, eq_iff, List, [], ◌∷◌, ◌++◌, arith,
  if◌then◌else◌, ap,
}
use aerp.Findings.{Severity, critical, high, medium, low, severity_value}
use aerp.State.{AgentFinding}

-- `weights.get(severity, 0)`
unfoldable pub weight : String → ℕ
weight severity =
    if str_eq severity "critical"
    then 25
    else if str_eq severity "high"
    then 10
    else if str_eq severity "medium"
    then 3
    else if str_eq severity "low"
    then 1
    else 0

unfoldable pub total_weight : List AgentFinding → ℕ
total_weight [] = 0
total_weight (f ∷ findings) = weight f.severity + total_weight findings

unfoldable pub compute_risk_score : List AgentFinding → ℕ
unfolding total_weight
compute_risk_score findings = min (total_weight findings) 100

pub total_weight-append :
    (fs gs : List AgentFinding) → total_weight (fs ++ gs) ≡ total_weight fs + total_weight gs
unfolding total_weight
total_weight-append [] gs = omega arith
total_weight-append (f ∷ fs) gs = omega (arith, total_weight-append fs gs)

-- The fallback score of two lists of findings together is at most 100, at least that of each list,
-- and at most the sum of the two.
pub compute_risk_score_bounds :
    (fs gs : List AgentFinding)
    → (compute_risk_score (fs ++ gs) ≤ 100)
      × (compute_risk_score fs ≤ compute_risk_score (fs ++ gs))
      × (compute_risk_score gs ≤ compute_risk_score (fs ++ gs))
      × (compute_risk_score (fs ++ gs) ≤ compute_risk_score fs + compute_risk_score gs)
unfolding compute_risk_score
compute_risk_score_bounds fs gs = let e = total_weight-append fs gs in omega arith

abbrev indicator : Severity → String → ℕ
indicator v severity = if str_eq severity (severity_value v) then 1 else 0

weight-eq_indicators :
    (s : String)
    → weight s
      ≡ 25 * indicator critical s + 10 * indicator high s + 3 * indicator medium s + indicator low s
unfolding weight
weight-eq_indicators s = ground (
  arith,
  eq_iff s "critical",
  eq_iff s "high",
  eq_iff s "medium",
  eq_iff s "low",
  eq_iff "critical" "high",
  eq_iff "critical" "medium",
  eq_iff "critical" "low",
  eq_iff "high" "medium",
  eq_iff "high" "low",
  eq_iff "medium" "low",
)

-- How many findings have a severity.
unfoldable pub count_severity : Severity → List AgentFinding → ℕ
count_severity v [] = 0
count_severity v (f ∷ fs) = indicator v f.severity + count_severity v fs

total_weight-eq_counts :
    (fs : List AgentFinding)
    → total_weight fs
      ≡ 25 * count_severity critical fs
        + 10 * count_severity high fs
        + 3 * count_severity medium fs
        + count_severity low fs
unfolding total_weight count_severity
total_weight-eq_counts [] = refl
total_weight-eq_counts (f ∷ fs) =
    let a = total_weight-eq_counts fs in let b = weight-eq_indicators f.severity in omega arith

-- The fallback score is 25, 10, 3 and 1 times the numbers of critical, high, medium and low
-- findings, and at most 100.
pub compute_risk_score-eq_counts :
    (fs : List AgentFinding)
    → compute_risk_score fs
      ≡ min
          (25 * count_severity critical fs
            + 10 * count_severity high fs
            + 3 * count_severity medium fs
            + count_severity low fs)
          100
unfolding compute_risk_score
compute_risk_score-eq_counts fs = ap (λ (n : ℕ). min n 100) (total_weight-eq_counts fs)
