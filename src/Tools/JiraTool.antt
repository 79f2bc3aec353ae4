-- ===== src/Tools/JiraTool.antt =====
-- backend/tools/jira_tool.py: `jira_get_ticket_details`.
use aerp.Prelude.{
  ℕ, suc, String, ◌<>◌, take_chars, strip, decimal, join, is_truthy, if◌then◌else◌, Option, none,
  some, List, [], ◌∷◌, Result,
}
use aerp.Jira.{Issue, extract_acceptance_criteria, or_default}
use aerp.Tools.{Reply, replied, and_then, caught}

-- `issue.fields.description or "No description"`
unfoldable pub description_of : Option String → String
description_of none = "No description"
description_of (some s) = if is_truthy s then s else "No description"

-- `f"  {i + 1}. {c}"` for each criterion.
unfoldable pub numbered : ℕ → List String → List String
numbered n [] = []
numbered n (c ∷ criteria) = ("  " <> decimal n <> ". " <> c) ∷ numbered (suc n) criteria

unfoldable pub details : String → Issue → String
unfolding description_of numbered
details ticket_key issue =
    let description = description_of issue.description in
    strip (
      "\nJIRA TICKET: "
      <> ticket_key
      <> "\nTitle: "
      <> issue.summary
      <> "\nStatus: "
      <> issue.status
      <> "\nPriority: "
      <> or_default "N/A" issue.priority
      <> "\n\nDESCRIPTION:\n"
      <> take_chars 2000 description
      <> "  \n\nACCEPTANCE CRITERIA:\n"
      <> join "\n" (numbered 1 (extract_acceptance_criteria description))
      <> "\n")

-- Connecting and reading the issue, which may raise a `JIRAError`.
unfoldable pub jira_get_ticket_details : (String → Reply Issue) → String → Result String
unfolding caught details
jira_get_ticket_details jira ticket_key =
    caught "Error fetching Jira ticket"
      (and_then (jira ticket_key) λ issue. replied (details ticket_key issue))
