-- ===== src/Tools/GithubTools.antt =====
-- backend/tools/github_tool.py: `github_get_file_content`, `github_search_code` and
-- `github_post_pr_comment`.
use aerp.Prelude.{
  ℕ, String, ◌<>◌, decimal, join, take, Option, none, List, [], ◌∷◌, ◌++◌, error, Result, ok, err,
  Exec,
}
use aerp.Github.{Pull, Posted, position_comment}
use aerp.Tools.{Reply, replied, and_then, caught}

-- The config that LangChain hands over: none, one without the key "configurable", or one with it,
-- whose token may be missing.
pub data RunnableConfig : Type 0 where
  absent unconfigured : RunnableConfig
  configurable : Option String → RunnableConfig

-- `config["configurable"].get("github_token") if config else None`, outside of what the `except`
-- clause catches.
unfoldable pub github_token : RunnableConfig → Reply (Option String)
github_token absent = replied none
github_token unconfigured = Reply.raised (error "'configurable'")
github_token (configurable token) = replied token

-- PyGithub, by the token and the full name of the repository. A query gives the paths of its matches
-- in order; `get_contents` gives the decoded text of a file.
pub record ToolClient : Type 0 where
  pub get_repo : Option String → String → Reply (Unit {0})
  pub get_contents : Option String → String → String → String → Reply String
  pub search_code : Option String → String → Reply (List String)
  pub total_count : Option String → String → Reply ℕ
  pub get_pull : Option String → String → ℕ → Reply (Unit {0})
  pub get_commit : Option String → String → String → Reply (Unit {0})
  pub create_review_comment :
      Option String → String → ℕ → String → String → String → ℕ → Reply String

abbrev full_name : String → String → String
full_name owner repo = owner <> "/" <> repo

abbrev item_line : String → String
item_line path = "📄 " <> path

item_lines : List String → List String
item_lines [] = []
item_lines (path ∷ paths) = item_line path ∷ item_lines paths

module _ (gh : ToolClient) where
  unfoldable pub github_get_file_content :
      String → String → String → String → RunnableConfig → Result String
  unfolding caught github_token
  github_get_file_content owner repo file_path ref config = caught "Error fetching file" (
      and_then (github_token config) λ token.
        and_then (gh.get_repo token (full_name owner repo))
          λ done. gh.get_contents token (full_name owner repo) file_path ref)

  -- The count is read only where there is a match.
  unfoldable pub search_text : Option String → String → String → List String → Reply String
  unfolding item_lines
  search_text token query full_query [] = replied ("No results found for '" <> query <> "'")
  search_text token query full_query (path ∷ paths) =
      and_then (gh.total_count token full_query) λ total. replied (
        join "\n" (
          ("Found " <> decimal total <> " matches for '" <> query <> "':\n")
          ∷ item_lines (path ∷ paths)))

  unfoldable pub github_search_code : String → String → String → RunnableConfig → Result String
  unfolding caught github_token search_text
  github_search_code owner repo query config =
      let full_query = query <> " repo:" <> full_name owner repo in
      caught "Search error" (
        and_then (github_token config) λ token.
          and_then (gh.search_code token full_query)
            λ results. search_text token query full_query (take 10 results))

  -- The text of the tool, and the comment where GitHub has taken it.
  unfoldable pub comment_taken :
      Pull → String → String → String → ℕ → Reply String → Exec (List Posted) String
  unfolding caught
  comment_taken p body commit_id path position (replied url) posted = (
    ok ("Comment posted: " <> url),
    posted ++ position_comment p body commit_id path position ∷ [],
  )
  comment_taken p body commit_id path position (Reply.refused status text) posted =
      (caught "Error posting comment" (Reply.refused status text), posted)
  comment_taken p body commit_id path position (Reply.raised e) posted = (err e, posted)

  unfoldable pub github_post_pr_comment :
      String
      → String
      → ℕ
      → String
      → String
      → String
      → ℕ
      → RunnableConfig
      → Exec (List Posted) String
  unfolding comment_taken github_token
  github_post_pr_comment owner repo pr_number body commit_id path position config =
      let name = full_name owner repo in
      comment_taken (record { owner = owner; repo_name = repo; pr_number = pr_number }) body
        commit_id path position
        (and_then (github_token config) λ token. and_then (gh.get_repo token name) λ done.
          and_then (gh.get_pull token name pr_number) λ done.
            and_then (gh.get_commit token name commit_id)
              λ done. gh.create_review_comment token name pr_number body commit_id path position)
