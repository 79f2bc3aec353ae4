-- ===== src/Prompts/Architecture.antt =====
-- backend/prompts/architecture.py
use aerp.Prelude.{String, ◌<>◌, take_chars, join, take}
use aerp.State.{PrMetadata}

unfoldable pub build_human_message : String → PrMetadata → String
build_human_message raw_context pr =
    "Review this pull request for architectural concerns.\n\n## Pull Request Details\n**Title**: "
    <> pr.title
    <> "\n**Repository**: "
    <> pr.repo_owner
    <> "/"
    <> pr.repo_name
    <> "\n**Changed files**: "
    <> join ", " (take 10 pr.changed_files)
    <> "\n\n## Context\n"
    <> take_chars 2000 raw_context
    <> "\n\n## Full Diff\n```diff\n"
    <> take_chars 8000 pr.diff
    <> "\n```\n\nFocus on SOLID principles, layer violations, coupling, and long-term maintainability. Use search_context to understand how the changed code fits into the broader architecture.\n"
