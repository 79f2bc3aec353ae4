-- ===== src/Prompts/Security.antt =====
-- backend/prompts/security.py
use aerp.Prelude.{String, ◌<>◌, take_chars, take}
use aerp.State.{PrMetadata}
use package.aerp.Prompts.{file_lines}

unfoldable pub build_human_message : String → PrMetadata → String
build_human_message raw_context pr =
    "Perform a security review of this pull request.\n\n## Pull Request Details\n**Title**: "
    <> pr.title
    <> "\n**Author**: "
    <> pr.author
    <> "\n**Repository**: "
    <> pr.repo_owner
    <> "/"
    <> pr.repo_name
    <> "\n\n## Changed Files\n"
    <> file_lines (take 20 pr.changed_files)
    <> "\n\n## Context\n"
    <> take_chars 2000 raw_context
    <> "\n\n## Full Diff\n```diff\n"
    <> take_chars 8000 pr.diff
    <> "\n```\n\nLook for real exploitable vulnerabilities. Use your search tool if you need more context about how authentication or authorization is implemented.\n"
