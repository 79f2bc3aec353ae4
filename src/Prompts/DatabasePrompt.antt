-- ===== src/Prompts/DatabasePrompt.antt =====
-- backend/prompts/database.py
use aerp.Prelude.{String, ◌<>◌, take_chars, has_text, lower_text, any_of, keep, Bool, List, [], ◌∷◌}
use aerp.State.{PrMetadata}
use package.aerp.Prompts.{file_lines}

-- `any(x in f.lower() for x in […])`
unfoldable pub is_db_file : String → Bool
is_db_file f =
    any_of (λ (x : String). has_text (lower_text f) x)
      ("model" ∷ "migration" ∷ "schema" ∷ "query" ∷ "repository" ∷ "db" ∷ "database" ∷ [])

abbrev file_lines_or : String → List String → String
file_lines_or none_found [] = none_found
file_lines_or none_found (f ∷ files) = file_lines (f ∷ files)

unfoldable pub build_human_message : String → PrMetadata → String
unfolding is_db_file
build_human_message raw_context pr =
    "Review this pull request for database issues.\n\n## Pull Request Details\n**Title**: "
    <> pr.title
    <> "\n**Repository**: "
    <> pr.repo_owner
    <> "/"
    <> pr.repo_name
    <> "\n\n## Database-related files changed\n"
    <> file_lines_or "  (none detected — review full diff)" (keep is_db_file pr.changed_files)
    <> "\n\n## Context\n"
    <> take_chars 2000 raw_context
    <> "\n\n## Full Diff\n```diff\n"
    <> take_chars 8000 pr.diff
    <> "\n```\n\nFocus on correctness, performance, and migration safety. Use search_context to look up related models or existing query patterns.\n"
