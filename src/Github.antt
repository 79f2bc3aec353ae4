-- ===== src/Github.antt =====
-- backend/tools/github_tool.py: GitHub behind PyGithub's client, which is a parameter.
pub mod Comments
pub mod Pulls
pub mod PullOrder
use aerp.Prelude.{
  ℕ, String, ◌<>◌, str_eq, split_text, strip_right, from_end, parse_int, ◌==◌, Option, none, some,
  List, [], ◌∷◌, Failure, error, Result, ok, err, if◌then◌else◌,
}
use aerp.State.{PrMetadata}

-- PyGithub answers, raises a `GithubException` (with its `data`), or raises something else.
pub data GithubReply (A : Type 0) : Type 0 where
  answer : A → GithubReply A
  github_exception : String → GithubReply A
  other_exception : Failure → GithubReply A

-- A pull request, by owner, repository and number.
pub record Pull : Type 0 where
  pub owner : String
  pub repo_name : String
  pub pr_number : ℕ

-- What `fetch_pr_data` reads of a pull request; the diff is a separate download.
pub record PullData : Type 0 where
  pub title : String
  pub body : Option String
  pub author : String
  pub head_ref : String
  pub base_ref : String
  pub changed_files : List String
  pub diff : String
  pub commit_messages : List String

-- What has been written on GitHub: a comment on a pull request, on a line of one of its files, or on
-- a position in the diff of one at a commit (body, commit, path, position); a
-- branch (owner, repository, name, SHA), a file on it (owner, repository, branch, path, content), and
-- a pull request (owner, repository, head, base, title, body).
pub data Posted : Type 0 where
  issue_comment : Pull → String → Posted
  review_comment : Pull → String → String → ℕ → Posted
  position_comment : Pull → String → String → String → ℕ → Posted
  branch_created : String → String → String → String → Posted
  file_created : String → String → String → String → String → Posted
  pull_created : String → String → String → String → String → String → Posted

pub record Client : Type 0 where
  pub get_pull : Option String → Pull → GithubReply PullData
  pub create_issue_comment : Option String → Pull → String → GithubReply String
  pub create_review_comment : Option String → Pull → String → String → ℕ → GithubReply String

-- `parts = pr_url.rstrip("/").split("/")`, read from the end.
unfoldable pub parse_pr_url : String → Result Pull
parse_pr_url pr_url =
    let parts = split_text (strip_right (λ c. c == b'/') pr_url) "/" in
    elim (from_end 0 parts) [
      | none ↦ err (error "list index out of range")
      | some last ↦ elim (parse_int last) [
        | none ↦ err (error "invalid literal for int() with base 10")
        | some pr_number ↦ elim (from_end 2 parts) [
          | none ↦ err (error "list index out of range")
          | some repo_name ↦ elim (from_end 3 parts) [
            | none ↦ err (error "list index out of range")
            | some owner ↦
                ok (record { owner = owner; repo_name = repo_name; pr_number = pr_number })
          ]
        ]
      ]
    ]

abbrev mock_data : Pull → PrMetadata
mock_data p = record {
  pr_number = p.pr_number;
  title = "Mock PR for Testing";
  description = "This is a mock PR.";
  author = "dev1";
  branch = "feature/mock";
  base_branch = "main";
  repo_owner = p.owner;
  repo_name = p.repo_name;
  changed_files = "backend/utils/llm_factory.py" ∷ [];
  diff =
      "--- a/backend/utils/llm_factory.py\n+++ b/backend/utils/llm_factory.py\n@@ -1,1 +1,2 @@\n-print('hello')\n+print('world')";
  commit_messages = "Initial commit" ∷ [];
}

abbrev or_empty : Option String → String
or_empty none = ""
or_empty (some s) = s

abbrev metadata_of : Pull → PullData → PrMetadata
metadata_of p d = record {
  pr_number = p.pr_number;
  title = d.title;
  description = or_empty d.body;
  author = d.author;
  branch = d.head_ref;
  base_branch = d.base_ref;
  repo_owner = p.owner;
  repo_name = p.repo_name;
  changed_files = d.changed_files;
  diff = d.diff;
  commit_messages = d.commit_messages;
}

-- Any exception goes to the caller.
abbrev fetched : Pull → GithubReply PullData → Result PrMetadata
fetched p (answer d) = ok (metadata_of p d)
fetched p (github_exception e) = err (error e)
fetched p (other_exception e) = err e

unfoldable pub fetch_pr_data : Client → String → Option String → Result PrMetadata
unfolding parse_pr_url
fetch_pr_data gh pr_url token = elim (parse_pr_url pr_url) [
  | err e ↦ err e
  | ok p ↦ if str_eq p.owner "fake" then ok (mock_data p) else fetched p (gh.get_pull token p)
]
