-- ===== src/Prompts/Requirements.antt =====
-- backend/prompts/requirements.py
use aerp.Prelude.{String, ◌<>◌, take_chars}
use aerp.State.{PrMetadata}

unfoldable pub build_human_message : String → PrMetadata → String
build_human_message raw_context pr =
    "Review whether this pull request correctly implements the specified requirements.\n\n## Pull Request Details\n**Title**: "
    <> pr.title
    <> "\n**Author**: "
    <> pr.author
    <> "\n**Description**: "
    <> take_chars 500 pr.description
    <> "\n\n## Context (including Jira ticket if available)\n"
    <> take_chars 3000 raw_context
    <> "\n\n## Code Changes (Diff)\n```diff\n"
    <> take_chars 7000 pr.diff
    <> "\n```\n\nUse search_context with source=\"jira\" to retrieve acceptance criteria. Check each criterion against the code implementation. Return findings for any missing, incomplete, or incorrect implementations.\n"
