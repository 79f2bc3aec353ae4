-- ===== src/Github/Pulls.antt =====
-- `create_pull_request` and `get_file_content`.
use aerp.Prelude.{
  String, ◌<>◌, str_eq, Option, List, [], ◌∷◌, ◌++◌, Result, ok, err, Exec, pure, raise, modify,
  ◌>>◌, if◌then◌else◌,
}
use aerp.Dict.{Dict}
use package.aerp.Github.{
  GithubReply, answer, github_exception, other_exception, Posted, branch_created, file_created,
  pull_created,
}

-- PyGithub's repository object, by the token, the owner and the name. `get_contents` gives the
-- decoded text of a file, and `get_branch` the SHA of a branch.
pub record RepoClient : Type 0 where
  pub get_repo : Option String → String → String → GithubReply (Unit {0})
  pub get_contents : Option String → String → String → String → String → GithubReply String
  pub get_branch : Option String → String → String → String → GithubReply String
  pub create_git_ref : Option String → String → String → String → String → GithubReply (Unit {0})
  pub create_file :
      Option String → String → String → String → String → String → GithubReply (Unit {0})
  pub create_pull :
      Option String → String → String → String → String → String → String → GithubReply String

-- A call inside the `try` block: where it answers, the block goes on; a `GithubException` is the
-- text that the function returns, and any other exception leaves it.
abbrev pub guarded :
    {A : Type 0} → GithubReply A → (A → Exec (List Posted) String) → Exec (List Posted) String
guarded (answer a) k = k a
guarded (github_exception e) k = pure ("Error: " <> e)
guarded (other_exception e) k = raise e

abbrev pub wrote : Posted → Exec (List Posted) (Unit {0})
wrote p = modify (λ posted. posted ++ p ∷ [])

module _ (gh : RepoClient) (token : Option String) (owner repo_name : String) where
  file_found : GithubReply String → Result String
  file_found (answer content) = ok content
  file_found (github_exception e) = ok ""
  file_found (other_exception e) = err e

  file_in : String → String → GithubReply (Unit {0}) → Result String
  unfolding file_found
  file_in file_path branch (answer done) =
      file_found (gh.get_contents token owner repo_name file_path branch)
  file_in file_path branch (github_exception e) = ok ""
  file_in file_path branch (other_exception e) = err e

  -- A file that GitHub does not give is empty.
  unfoldable pub get_file_content : String → String → Result String
  unfolding file_in
  get_file_content file_path branch =
      if str_eq owner "fake"
      then ok ("# Mock content for " <> file_path <> "\ndef mock_func():\n    pass\n")
      else file_in file_path branch (gh.get_repo token owner repo_name)

  module _ (branch_name base_branch title body : String) where
    unfoldable pub open_pull_request : Exec (List Posted) String
    open_pull_request =
        guarded (gh.create_pull token owner repo_name title body branch_name base_branch)
          λ url. wrote (pull_created owner repo_name branch_name base_branch title body) >> pure url

    -- A commit for each file, then the pull request.
    unfoldable pub commit_files : Dict String → Exec (List Posted) String
    unfolding open_pull_request
    commit_files [] = open_pull_request
    commit_files ((file_path, content) ∷ files) =
        guarded (gh.create_file token owner repo_name branch_name file_path content) λ done.
          wrote (file_created owner repo_name branch_name file_path content) >> commit_files files

    unfoldable pub create_branch : Dict String → String → Exec (List Posted) String
    unfolding commit_files
    create_branch files sha =
        guarded (gh.create_git_ref token owner repo_name branch_name sha)
          λ done. wrote (branch_created owner repo_name branch_name sha) >> commit_files files

    unfoldable pub create_pull_request : Dict String → Exec (List Posted) String
    unfolding create_branch
    create_pull_request files =
        if str_eq owner "fake"
        then pure "https://github.com/fake/repo/pull/999"
        else guarded (gh.get_repo token owner repo_name)
            λ done. guarded (gh.get_branch token owner repo_name base_branch) (create_branch files)

    -- The branch, the files and the pull request, in the order in which they are written.
    abbrev pub planned_files : Dict String → List Posted
    planned_files [] = pull_created owner repo_name branch_name base_branch title body ∷ []
    planned_files ((file_path, content) ∷ files) =
        file_created owner repo_name branch_name file_path content ∷ planned_files files
