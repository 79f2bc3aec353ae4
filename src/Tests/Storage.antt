-- ===== src/Tests/Storage.antt =====
-- The task, the routes and the helpers at concrete data.
use aerp.Prelude.{
  ◌≡◌, refl, find_first, String, str_eq, Option, if◌then◌else◌, true, none, some, List, [], ◌∷◌,
  http, ok, err, arith,
}
use aerp.State.{AgentFinding}
use aerp.Database.{Db}
use aerp.Tasks.Review
use aerp.Tasks.Review.{Task, System, TaskResult, stored_token, github_account}
use aerp.Tasks.Reported.{HasReported, run_with_token-HasReported}
use aerp.Workflow.Nodes.{Services}
use aerp.Auth.Tokens.{get_current_user, create_access_token, add_token_to_blocklist}
use aerp.Auth.Routes
use aerp.Auth.Routes.{UserCreate, TokenResponse, has_hash}
use aerp.Auth.Laws.{register-login, register-login_as_sent, logout-revokes}
use aerp.Auth.Once.{IsOther, more, no_more, logs_out, refreshes, registers, refresh_token-once}
use aerp.Tests.Engine.{in_order}
use aerp.Tests.Data.{services, reporting_llm, judge_of, empty_world, finding}
use aerp.Tests.Accounts.{bcrypt, jwt, fernet, uuid, sha256, queued_review, empty_db}

abbrev pub risky : Services
risky = services reporting_llm (judge_of 75)

abbrev pub task : Task
task = record {
  review_id = "r1";
  pr_url = "https://github.com/fake/repo/pull/1";
  jira_url = none;
  doc_url = none;
  user_id = some "u1";
}

-- One queued review; the stored token of its user is not one of Fernet's.
abbrev pub system : System risky
system = record {
  db = record empty_db {
    pull_requests = queued_review ∷ [];
    integrations =
        record {
          id = "i1";
          name = "github";
          display_name = "GitHub";
          description = none;
          logo_url = none;
          is_enabled = true;
        }
        ∷ [];
    accounts =
        record {
          user_id = "u1";
          integration_id = "i1";
          access_token_encrypted = "broken";
          is_active = true;
        }
        ∷ [];
  };
  world = empty_world;
  checkpoints = [];
  slack = [];
}

abbrev mixed : List AgentFinding
mixed = finding "a" "high" ∷ finding "b" "low" ∷ finding "c" "info" ∷ []

abbrev ada : UserCreate
ada = record {
  email = "ada@ACME.io";
  password = "secret-word";
  first_name = none;
  last_name = none;
}

-- A validator that knows one address.
abbrev validate : String → Option String
validate email = if str_eq email "ada@ACME.io" then some "ada@acme.io" else none

register-login_example :
    (t : TokenResponse) × ((Routes.login bcrypt jwt sha256 uuid 1000 "ada@acme.io" "secret-word"
        (Routes.post_register bcrypt jwt sha256 uuid 1000 validate 3 ada empty_db).1).0
      ≡ ok t)
register-login_example =
    register-login bcrypt jwt sha256 uuid 1000 validate 3 ada "ada@acme.io" empty_db refl
      (omega arith) refl

register-login_as_sent_example :
    (Routes.login bcrypt jwt sha256 uuid 1000 "ada@ACME.io" "secret-word"
      (Routes.post_register bcrypt jwt sha256 uuid 1000 validate 3 ada empty_db).1).0
    ≡ err (http 401 "Incorrect email or password")
register-login_as_sent_example =
    register-login_as_sent bcrypt jwt sha256 uuid 1000 validate 3 ada "ada@acme.io" empty_db refl
      refl refl

logout-revokes_example :
    (let after = (Routes.logout bcrypt jwt sha256 uuid 1000 "raw" "token" empty_db).1 in
      (get_current_user jwt 1500 "token" after ≡ err (http 401 "Token has been revoked"))
      × (find_first (has_hash (sha256 "raw")) after.refresh_tokens ≡ none))
logout-revokes_example =
    logout-revokes bcrypt jwt sha256 uuid 1000 "raw" "token" "u1" "j1" 2000 1500 empty_db refl
      (omega arith) (omega arith) refl refl

abbrev one_token : Db
one_token = record empty_db {
  refresh_tokens =
      record { token_hash = "hraw"; user_id = "u1"; expires_at = 5000; revoked_at = none } ∷ [];
}

abbrev fresh_tokens : TokenResponse
fresh_tokens = record { access_token = "token"; refresh_token = "x-id" }

one_token-refreshes :
    (Routes.refresh_token bcrypt jwt sha256 uuid 1000 "raw" one_token).0 ≡ ok fresh_tokens
unfolding Routes.refresh_token Routes.rotate Routes.delete_token Routes.issue_tokens
    create_access_token
one_token-refreshes = refl

abbrev rotated : Db
rotated = (Routes.refresh_token bcrypt jwt sha256 uuid 1000 "raw" one_token).1

abbrev left : Db
left = (Routes.logout bcrypt jwt sha256 uuid 1200 "other" "token" rotated).1

new_token-IsOther :
    IsOther sha256 "hraw" (Routes.refresh_token bcrypt jwt sha256 uuid 1300 "x-id" left).0
unfolding Routes.refresh_token Routes.rotate Routes.delete_token Routes.issue_tokens
    create_access_token Routes.logout Routes.block_claims Routes.block_jti add_token_to_blocklist
new_token-IsOther = refl

abbrev much_later : Db
much_later =
    (Routes.post_register bcrypt jwt sha256 uuid 1400 validate 3 ada
      (Routes.refresh_token bcrypt jwt sha256 uuid 1300 "x-id" left).1).1

refresh_token-once_example :
    Routes.refresh_token bcrypt jwt sha256 uuid 1500 "raw" much_later
    ≡ (err (http 401 "Invalid or revoked refresh token"), much_later)
refresh_token-once_example =
    refresh_token-once bcrypt jwt sha256 uuid 1000 1500 "raw" one_token much_later fresh_tokens
      one_token-refreshes refl
      (more
        (more (more no_more (logs_out 1200 "other" "token"))
          (refreshes 1300 "x-id" new_token-IsOther))
        (registers 1400 validate 3 ada))

run_with_token-HasReported_example : HasReported "r1" (
  (Review.run_with_token risky in_order fernet uuid 1000 task 0 (some "token") system).0,
  (Review.run_with_token risky in_order fernet uuid 1000 task 0 (some "token") system).1.db,
)
run_with_token-HasReported_example =
    run_with_token-HasReported risky in_order fernet uuid 1000 task 0 (some "token") system
      (queued_review, refl)
