-- ===== src/Tests/Artifacts.antt =====
-- The generated artifacts, and a run of the whole system, at concrete data.
use aerp.Prelude.{◌≡◌, ◌⊎◌, String, true, none, List, [], ◌∷◌, ◌++◌, Failure, Result, ok, refl}
use aerp.Dict.{Dict}
use aerp.Github.{Posted, answer, github_exception, branch_created}
use aerp.Github.Pulls.{RepoClient, create_pull_request, planned_files}
use aerp.Github.PullOrder.{create_pull_request-in_order}
use aerp.Agents.Documentation.{DocServices, no_array}
use aerp.Agents.TestCode
use aerp.Agents.TestCode.{TestServices, generate_tests, build_human_message}
use aerp.Agents.TestLaws.{generate_tests-returns, FailsToParse}
use aerp.Workflow.Standing.{at_end}
use aerp.Tasks.Review
use aerp.Workflow.Standing.{at_end}
use aerp.Tasks.Review.{System, Task, Checkpoint}
use aerp.Tasks.Artifacts.{ArtifactServices, retried, generate_artifacts_task}
use aerp.Tasks.Retried.{generate_artifacts_task-retried}
use aerp.Lifecycle.{here, after, ran}
use aerp.Lifecycle.Sound.{AllSound}
use aerp.Lifecycle.Invariant.{Reach-AllSound}
use aerp.Tests.Engine.{in_order}
use aerp.Tests.Data.{pr, collected_review}
use aerp.Tests.Accounts.{fernet, uuid}
use aerp.Tests.Storage.{risky, system, task}
use aerp.Tests.Reviews.{settings}

-- GitHub takes the branch and refuses the files.
abbrev repos : RepoClient
repos = record {
  get_repo = λ token owner repo. answer tt;
  get_contents = λ token owner repo path ref. answer "print()";
  get_branch = λ token owner repo name. answer "sha1";
  create_git_ref = λ token owner repo name sha. answer tt;
  create_file = λ token owner repo branch path content. github_exception "409";
  create_pull =
      λ token owner repo title body head base. answer "https://github.com/acme/shop/pull/8";
}

abbrev files : Dict String
files = ("tests/test_aerp_auto.py", "def test_users(): pass") ∷ []

create_pull_request-in_order_example :
    (sha : String) × ((written rest : List Posted) × ((create_pull_request repos none "acme" "shop"
          "aerp/tests/r1" "main" "Tests" "" files []).1
        ≡ [] ++ written)
      × (written ++ rest
          ≡ branch_created "acme" "shop" "aerp/tests/r1" sha
            ∷ planned_files repos none "acme" "shop" "aerp/tests/r1" "main" "Tests" "" files))
create_pull_request-in_order_example =
    create_pull_request-in_order repos none "acme" "shop" "aerp/tests/r1" "main" "Tests" "" files []

abbrev docs : DocServices
docs = record {
  get_llm = ok (λ messages. ok "[]");
  json_loads = λ text. no_array;
  system_prompt = "";
  shown_findings = λ findings. "[]";
}

abbrev answer_tests : List TestCode.ChatMessage → Result String
answer_tests messages = ok "```python\ndef test_users(): pass\n```"

abbrev tests : TestServices
tests = record {
  get_llm = ok answer_tests;
  syntax_error = λ code. none;
  system_prompt = "";
  shown_list = λ xs. "[]";
}

generate_tests-returns_example :
    (code : String) × (generate_tests tests pr none ≡ ok code)
    × ((tests.syntax_error code ≡ none)
        ⊎ FailsToParse tests answer_tests 3
            (TestCode.system "" ∷ TestCode.human (build_human_message tests pr none) ∷ []))
generate_tests-returns_example =
    generate_tests-returns tests answer_tests pr none refl (λ messages. (_, refl))

without-fence : generate_tests tests pr none ≡ ok "def test_users(): pass"
unfolding generate_tests
without-fence = refl

abbrev artifacts : ArtifactServices
artifacts = record { repos = repos; docs = docs; tests = tests }

-- A review that has run to its end.
abbrev saved : Checkpoint
saved = record { thread_id = "r1"; standing = at_end collected_review }

abbrev finished : System risky
finished = record system { checkpoints = saved ∷ [] }

generate_artifacts_task-retried_example :
    (e : Failure) × (generate_artifacts_task risky artifacts fernet "r1" finished
      ≡ (ok (retried e 180), finished))
generate_artifacts_task-retried_example =
    generate_artifacts_task-retried risky artifacts fernet "r1" finished saved refl

-- The same system, with a token that can be decrypted.
abbrev pub connected : System risky
connected = record system {
  db = record system.db {
    accounts =
        record {
          user_id = "u1";
          integration_id = "i1";
          access_token_encrypted = "gsecret";
          is_active = true;
        }
        ∷ [];
  };
}

Reach-AllSound_example :
    AllSound (Review.run_review_task risky in_order fernet uuid 1000 task 0 connected).1.db
Reach-AllSound_example =
    Reach-AllSound risky settings fernet uuid connected _ (after here (ran in_order 1000 task 0))
      (tt, tt)
