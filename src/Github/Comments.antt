-- ===== src/Github/Comments.antt =====
-- The comments that the program posts. The state is the list of those that GitHub has taken.
use aerp.Prelude.{
  ℕ, String, ◌<>◌, str_eq, is_truthy, upper, ◌==◌, not, ◌&&◌, Option, none, some, List, [], ◌∷◌,
  ◌++◌, error, Exec, pure, raise, lift, modify, ◌>>=◌, ◌>>◌, if◌then◌else◌,
}
use aerp.State.{AgentFinding}
use package.aerp.Github.{
  answer, github_exception, other_exception, Pull, PullData, Posted, issue_comment, review_comment,
  Client, parse_pr_url,
}

abbrev pub mock_url : String
mock_url = "https://github.com/fake/repo/pull/1#issuecomment-fake"

-- One finding in the body of the review comment. The findings of the workflow are dicts, which have
-- no attributes of these names, so each `getattr` gives its default and `hasattr` fails.
abbrev entry : AgentFinding → String
entry finding = "### [MEDIUM] Issue\n**File:** `General`\n\n\n\n"

entries : List AgentFinding → String
entries [] = ""
entries (f ∷ findings) = entry f <> entries findings

unfoldable pub review_body : List AgentFinding → String
unfolding entries
review_body [] = "## AERP Code Review\n\n✅ Everything looks good! No major issues found."
review_body (f ∷ findings) = "## AERP Code Review Findings\n\n" <> entries (f ∷ findings)

-- `pr.create_issue_comment(body)`, with its `except GithubException`.
unfoldable pub comment_on : Client → Option String → Pull → String → Exec (List Posted) String
comment_on gh token p body = elim (gh.create_issue_comment token p body) [
  | answer url ↦ modify (λ posted. posted ++ issue_comment p body ∷ []) >> pure url
  | github_exception e ↦ pure ("Error: " <> e)
  | other_exception e ↦ raise e
]

-- `gh.get_repo(…).get_pull(…)`: any exception goes to the caller.
open_pull : Client → Option String → Pull → Exec (List Posted) PullData
open_pull gh token p = elim (gh.get_pull token p) [
  | answer d ↦ pure d
  | github_exception e ↦ raise (error e)
  | other_exception e ↦ raise e
]

unfoldable pub post_pr_comments :
    Client → String → List AgentFinding → Option String → Exec (List Posted) String
unfolding parse_pr_url open_pull comment_on review_body
post_pr_comments gh pr_url findings token = do
  p ← lift (parse_pr_url pr_url)
  if str_eq p.owner "fake"
      then pure mock_url
      else do open_pull gh token p; comment_on gh token p (review_body findings)

-- The dict that the route builds out of a stored finding.
pub record FindingDict : Type 0 where
  pub title : String
  pub severity : String
  pub description : String
  pub file_path : Option String
  pub line_number : Option ℕ
  pub evidence : String
  pub edited_message : Option String

-- An optional text in an f-string.
abbrev shown : Option String → String
shown none = "None"
shown (some s) = s

default_body : FindingDict → String
default_body f =
    "## AERP AI Review Finding\n\n### ["
    <> upper f.severity
    <> "] "
    <> f.title
    <> "\n**File:** `"
    <> shown f.file_path
    <> "`\n\n"
    <> f.description
    <> "\n\n"
    <> (if is_truthy f.evidence then "**Evidence:**\n```\n" <> f.evidence <> "\n```\n\n" else "")

unfoldable pub finding_body : FindingDict → String
unfolding default_body
finding_body f = elim f.edited_message [
  | none ↦ default_body f
  | some message ↦ if is_truthy message then message else default_body f
]

-- `file_path and file_path != "General" and line_number`
unfoldable pub inline_place : FindingDict → Option (String × ℕ)
inline_place f = elim f.file_path [
  | none ↦ none
  | some path ↦ elim f.line_number [
    | none ↦ none
    | some line ↦
        if is_truthy path && not (str_eq path "General") && not (line == 0)
        then some (path, line)
        else none
  ]
]

-- The inline comment first; where GitHub refuses it, or there is no place for it, a general one.
unfoldable pub post_at :
    Client → Option String → Pull → String → Option (String × ℕ) → Exec (List Posted) String
unfolding comment_on
post_at gh token p body none = comment_on gh token p body
post_at gh token p body (some (path, line)) =
    elim (gh.create_review_comment token p body path line) [
      | answer url ↦ modify (λ posted. posted ++ review_comment p body path line ∷ []) >> pure url
      | github_exception e ↦ comment_on gh token p body
      | other_exception e ↦ raise e
    ]

unfoldable pub post_single_finding_comment :
    Client → String → FindingDict → Option String → Exec (List Posted) String
unfolding parse_pr_url open_pull post_at finding_body inline_place
post_single_finding_comment gh pr_url finding token = do
  p ← lift (parse_pr_url pr_url)
  if str_eq p.owner "fake"
      then pure mock_url
      else do open_pull gh token p; post_at gh token p (finding_body finding) (inline_place finding)
