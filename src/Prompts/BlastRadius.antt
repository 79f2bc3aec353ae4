-- ===== src/Prompts/BlastRadius.antt =====
-- backend/prompts/blast_radius.py
use aerp.Prelude.{
  String, ◌<>◌, take_chars, decimal, join, has_text, lower_text, any_of, take, length, List, [],
  ◌∷◌, ◌++◌, if◌then◌else◌,
}
use aerp.State.{PrMetadata}
use package.aerp.Prompts.{file_lines}

-- `if any(x in paths for x in […]): concerns.append(…)`
abbrev concern : String → List String → String → List String
concern paths words text = if any_of (λ (x : String). has_text paths x) words then text ∷ [] else []

unfoldable pub concerns : String → List String
concerns paths =
    concern paths ("migration" ∷ "migrate" ∷ "schema" ∷ "alembic" ∷ [])
      "⚠\u{fe0f}  Database migration detected — irreversible data changes possible"
    ++ concern paths ("auth" ∷ "login" ∷ "password" ∷ "token" ∷ "session" ∷ [])
        "🔐 Authentication code changed — all users potentially affected"
    ++ concern paths ("middleware" ∷ "base" ∷ "core" ∷ "common" ∷ "utils" ∷ [])
        "💥 Shared/core code changed — wide blast radius"
    ++ concern paths ("payment" ∷ "billing" ∷ "stripe" ∷ "invoice" ∷ [])
        "💳 Payment code changed — financial impact if wrong"
    ++ concern paths ("celery" ∷ "task" ∷ "worker" ∷ "queue" ∷ [])
        "⚙\u{fe0f}  Background task code changed — async job impact"

abbrev or_standard : List String → List String
or_standard [] = "ℹ\u{fe0f}  No high-risk patterns detected — standard blast radius assessment" ∷ []
or_standard (c ∷ found) = c ∷ found

unfoldable pub classify_impact : List String → String
unfolding concerns
classify_impact changed_files =
    join "\n" (or_standard (concerns (lower_text (join " " changed_files))))

unfoldable pub build_human_message : String → PrMetadata → String
unfolding classify_impact
build_human_message raw_context pr =
    "Analyze the blast radius and downstream impact of this pull request.\n\n## Pull Request Details\n**Title**: "
    <> pr.title
    <> "\n**Repository**: "
    <> pr.repo_owner
    <> "/"
    <> pr.repo_name
    <> "\n**Branch**: "
    <> pr.branch
    <> " → "
    <> pr.base_branch
    <> "\n\n## Changed Files ("
    <> decimal (length pr.changed_files)
    <> " files)\n"
    <> file_lines (take 20 pr.changed_files)
    <> "\n\n## Impact Pre-classification\n"
    <> classify_impact pr.changed_files
    <> "\n\n## Context\n"
    <> take_chars 2000 raw_context
    <> "\n\n## Full Diff\n```diff\n"
    <> take_chars 7000 pr.diff
    <> "\n```\n\nAnswer: If there is a bug in this PR, what breaks? Who is affected? How bad is it?\nUse search_context to understand how the changed code is used across the system.\n"
