-- ===== src/Github/PullOrder.antt =====
-- The writes of `create_pull_request` stand in the planned order.
use aerp.Prelude.{
  String, ◌≡◌, refl, sym, ap, ◌∙◌, str_eq, Bool-cases, inl, inr, Option, List, [], ◌∷◌, ◌++◌,
  Result, Exec, pure, ◌>>◌,
}
use aerp.Dict.{Dict}
use package.aerp.Github.{
  Posted, GithubReply, answer, github_exception, other_exception, branch_created, file_created,
  pull_created,
}
use package.aerp.Github.Pulls
use package.aerp.Github.Pulls.{RepoClient, guarded, wrote, planned_files, create_pull_request}

-- What is written is the beginning of the plan.
abbrev pub IsBegun : List Posted → List Posted → Result String × List Posted → Type 0
IsBegun plan posted out =
    (written rest : List Posted) × (out.1 ≡ posted ++ written) × (written ++ rest ≡ plan)

append_nil : (xs : List Posted) → xs ++ [] ≡ xs
append_nil [] = refl
append_nil (x ∷ xs) = ap (λ (l : List Posted). x ∷ l) (append_nil xs)

append_assoc : (xs ys zs : List Posted) → (xs ++ ys) ++ zs ≡ xs ++ (ys ++ zs)
append_assoc [] ys zs = refl
append_assoc (x ∷ xs) ys zs = ap (λ (l : List Posted). x ∷ l) (append_assoc xs ys zs)

-- An action whose writes are the beginning of the plan, whatever was written before.
record Begins (plan : List Posted) (m : Exec (List Posted) String) : Type 0 where
  at : (posted : List Posted) → IsBegun plan posted (m posted)

guarded-Begins :
    {A : Type 0} {plan : List Posted} (r : GithubReply A) {k : A → Exec (List Posted) String}
    → ((a : A) → Begins plan (k a))
    → Begins plan (guarded r k)
guarded-Begins (answer a) h = h a
guarded-Begins {plan = plan} (github_exception e) h = record {
  at = λ posted. ([], plan, sym (append_nil posted), refl);
}
guarded-Begins {plan = plan} (other_exception e) h = record {
  at = λ posted. ([], plan, sym (append_nil posted), refl);
}

wrote-Begins :
    {plan : List Posted} (p : Posted) {m : Exec (List Posted) String}
    → Begins plan m
    → Begins (p ∷ plan) (wrote p >> m)
wrote-Begins p h = record {
  at = λ posted.
      let (written, rest, e, whole) = h.at (posted ++ p ∷ []) in
      (
        p ∷ written,
        rest,
        e ∙ append_assoc posted (p ∷ []) written,
        ap (λ (l : List Posted). p ∷ l) whole,
      );
}

pure-Begins : (url : String) → Begins [] (pure url)
pure-Begins url = record { at = λ posted. ([], [], sym (append_nil posted), refl) }

module _ (gh : RepoClient) (token : Option String)
    (owner repo_name branch_name base_branch title body : String) where
  commit_files-Begins :
      (files : Dict String)
      → Begins
          (planned_files gh token owner repo_name branch_name base_branch title body files)
          (Pulls.commit_files gh token owner repo_name branch_name base_branch title body files)
  unfolding Pulls.commit_files Pulls.open_pull_request
  commit_files-Begins [] =
      guarded-Begins (gh.create_pull token owner repo_name title body branch_name base_branch)
        λ url.
          wrote-Begins (pull_created owner repo_name branch_name base_branch title body)
            (pure-Begins url)
  commit_files-Begins ((file_path, content) ∷ files) =
      guarded-Begins (gh.create_file token owner repo_name branch_name file_path content) λ done.
        wrote-Begins (file_created owner repo_name branch_name file_path content)
          (commit_files-Begins files)

  -- What a request for a pull request has written, for the branch at some SHA.
  abbrev IsPartOf : Dict String → List Posted → Result String × List Posted → Type 0
  IsPartOf files posted out =
      (sha : String) × IsBegun
        (branch_created owner repo_name branch_name sha
          ∷ planned_files gh token owner repo_name branch_name base_branch title body files)
        posted out

  in_branch :
      (files : Dict String) (posted : List Posted) (r : GithubReply String)
      → IsPartOf files posted (
          guarded r
            (Pulls.create_branch gh token owner repo_name branch_name base_branch title body files)
            posted)
  unfolding Pulls.create_branch
  in_branch files posted (answer sha) = (
    sha,
    (guarded-Begins (gh.create_git_ref token owner repo_name branch_name sha) λ done.
          wrote-Begins (branch_created owner repo_name branch_name sha)
            (commit_files-Begins files)).at
        posted,
  )
  in_branch files posted (github_exception e) = ("", ([], _, sym (append_nil posted), refl))
  in_branch files posted (other_exception e) = ("", ([], _, sym (append_nil posted), refl))

  in_repo :
      (files : Dict String) (posted : List Posted) (r : GithubReply (Unit {0}))
      → IsPartOf files posted (
          guarded r
            (λ done. guarded (gh.get_branch token owner repo_name base_branch) (
              Pulls.create_branch gh token owner repo_name branch_name base_branch title body
                files))
            posted)
  in_repo files posted (answer done) = in_branch files posted _
  in_repo files posted (github_exception e) = ("", ([], _, sym (append_nil posted), refl))
  in_repo files posted (other_exception e) = ("", ([], _, sym (append_nil posted), refl))

  -- Whatever GitHub answers, what create_pull_request has written is an initial part of the
  -- branch, a commit for each file in order, and the pull request: none is opened before its
  -- branch and all its files are there.
  pub create_pull_request-in_order :
      (files : Dict String) (posted : List Posted)
      → (sha : String) × ((written rest : List Posted) × ((create_pull_request gh token owner
              repo_name branch_name base_branch title body files posted).1
            ≡ posted ++ written)
          × (written ++ rest
              ≡ branch_created owner repo_name branch_name sha
                ∷ planned_files gh token owner repo_name branch_name base_branch title body files))
  unfolding create_pull_request
  create_pull_request-in_order files posted = elim (Bool-cases (str_eq owner "fake")) [
    | inl e ↦ rw e ("", ([], _, sym (append_nil posted), refl))
    | inr e ↦ rw e (in_repo files posted (gh.get_repo token owner repo_name))
  ]
