-- ===== src/Prompts/Scalability.antt =====
-- backend/prompts/scalability.py
use aerp.Prelude.{String, ◌<>◌, take_chars}
use aerp.State.{PrMetadata}

unfoldable pub build_human_message : String → PrMetadata → String
build_human_message raw_context pr =
    "Review this pull request for scalability and performance issues.\n\n## Pull Request Details\n**Title**: "
    <> pr.title
    <> "\n**Repository**: "
    <> pr.repo_owner
    <> "/"
    <> pr.repo_name
    <> "\n\n## Context\n"
    <> take_chars 2000 raw_context
    <> "\n\n## Full Diff\n```diff\n"
    <> take_chars 8000 pr.diff
    <> "\n```\n\nThink about production scale (100x-1000x current load). Flag issues that would cause performance degradation or system instability under load.\n"
