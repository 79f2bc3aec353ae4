-- ===== src/Tests/ToolCalls.antt =====
-- The LangChain tools at concrete clients.
use aerp.Prelude.{◌≡◌, refl, none, some, [], ◌∷◌, error, ok, err}
use aerp.Jira.{Issue, extract_acceptance_criteria}
use aerp.Github.{position_comment}
use aerp.Tools.{replied, refused}
use aerp.Tools.GithubTools.{
  ToolClient, absent, unconfigured, configurable, github_get_file_content, github_search_code,
  github_post_pr_comment,
}
use aerp.Tools.JiraTool.{jira_get_ticket_details}

-- GitHub has two matches, and refuses to give a file.
abbrev client : ToolClient
client = record {
  get_repo = λ token name. replied tt;
  get_contents = λ token name path ref. refused 404 "Not Found";
  search_code = λ token query. replied ("a.py" ∷ "b.py" ∷ []);
  total_count = λ token query. replied 2;
  get_pull = λ token name pr_number. replied tt;
  get_commit = λ token name commit. replied tt;
  create_review_comment = λ token name pr_number body commit path position. replied "url";
}

file-refused :
    github_get_file_content client "acme" "app" "a.py" "main" absent
    ≡ ok "Error fetching file: 404 - Not Found"
unfolding github_get_file_content
file-refused = refl

-- The missing key is not an exception of GitHub's.
config-raised :
    github_get_file_content client "acme" "app" "a.py" "main" unconfigured
    ≡ err (error "'configurable'")
unfolding github_get_file_content
config-raised = refl

two-found :
    github_search_code client "acme" "app" "pay" (configurable (some "token"))
    ≡ ok "Found 2 matches for 'pay':\n\n📄 a.py\n📄 b.py"
unfolding github_search_code
two-found = refl

comment-posted : github_post_pr_comment client "acme" "app" 7 "body" "sha" "a.py" 3 absent [] ≡ (
  ok "Comment posted: url",
  position_comment
        (record { owner = "acme"; repo_name = "app"; pr_number = 7 })
        "body"
        "sha"
        "a.py"
        3
      ∷ [],
)
unfolding github_post_pr_comment
comment-posted = refl

abbrev issue : Issue
issue = record {
  summary = "Pay";
  description = some "";
  story_points = none;
  priority = none;
  status = "Open";
  reporter = none;
  issuelinks = none;
}

-- A description that is empty is none.
no-description :
    jira_get_ticket_details (λ key. replied issue) "PAY-1"
    ≡ ok
        "JIRA TICKET: PAY-1\nTitle: Pay\nStatus: Open\nPriority: N/A\n\nDESCRIPTION:\nNo description  \n\nACCEPTANCE CRITERIA:\n  1. No structured acceptance criteria found in ticket"
unfolding jira_get_ticket_details extract_acceptance_criteria
no-description = refl
