-- ===== src/Prompts/CodeReview.antt =====
-- backend/prompts/code_review.py
use aerp.Prelude.{String, ◌<>◌, take_chars, decimal, take, length}
use aerp.State.{PrMetadata}
use package.aerp.Prompts.{file_lines}

unfoldable pub build_human_message : String → PrMetadata → String
build_human_message raw_context pr =
    "Please review the following pull request.\n\n## Pull Request Details\n**Title**: "
    <> pr.title
    <> "\n**Author**: "
    <> pr.author
    <> "\n**Branch**: "
    <> pr.branch
    <> " → "
    <> pr.base_branch
    <> "\n**Repository**: "
    <> pr.repo_owner
    <> "/"
    <> pr.repo_name
    <> "\n\n## Changed Files ("
    <> decimal (length pr.changed_files)
    <> " files)\n"
    <> file_lines (take 20 pr.changed_files)
    <> "\n\n## Context (PR description, Jira ticket if available)\n"
    <> take_chars 2000 raw_context
    <> "\n\n## Full Diff\n```diff\n"
    <> take_chars 8000 pr.diff
    <> "\n```\n\nNow review this PR. Use your search_context tool if you need to look up anything specific. Then return your structured findings.\n"
