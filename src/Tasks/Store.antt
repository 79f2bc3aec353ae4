-- ===== src/Tasks/Store.antt =====
-- How the tasks write a review's outcome: its findings, its status and its completion. `now` is the
-- clock, and `uuid` gives the ids that `uuid.uuid4` draws.
use aerp.Prelude.{
  ℕ, suc, ◌+◌, String, str_eq, is_truthy, take_chars, find_first, Bool, Option, none, some, List,
  [], ◌∷◌, ◌++◌, Exec, modify, if◌then◌else◌,
}
use aerp.State.{AgentFinding}
use aerp.Database.{ReviewStatus, complete, PullRequest, Comment, Db}
use aerp.Database.Tables.{update_where}

abbrev pub has_id : String → PullRequest → Bool
has_id review_id pr = str_eq pr.id review_id

abbrev pub find_review : String → Db → Option PullRequest
find_review review_id db = find_first (has_id review_id) db.pull_requests

-- A row that is found by its id is changed and committed; a row that is missing is not.
abbrev pub change_review : String → (PullRequest → PullRequest) → Db → Db
change_review review_id f db = record db {
  pull_requests = update_where (has_id review_id) f db.pull_requests;
}

-- `if error: pr.error = error`
abbrev new_error : Option String → Option String → Option String
new_error none old = old
new_error (some e) old = if is_truthy e then some e else old

abbrev new_score : Option ℕ → Option ℕ → Option ℕ
new_score none old = old
new_score (some n) old = some n

unfoldable pub set_status : ℕ → ReviewStatus → Option String → Option ℕ → PullRequest → PullRequest
set_status now status error risk_score pr = record pr {
  status = status;
  updated_at = now;
  error = new_error error pr.error;
  risk_score = new_score risk_score pr.risk_score;
}

unfoldable pub update_review_status :
    ℕ → String → ReviewStatus → Option String → Option ℕ → Exec Db (Unit {0})
unfolding set_status
update_review_status now review_id status error risk_score =
    modify (change_review review_id (set_status now status error risk_score))

unfoldable pub set_complete : ℕ → ℕ → String → PullRequest → PullRequest
set_complete now risk_score recommendation pr = record pr {
  status = complete;
  risk_score = some risk_score;
  recommendation = some recommendation;
  completed_at = some now;
  updated_at = now;
}

unfoldable pub update_review_complete : ℕ → String → ℕ → String → Exec Db (Unit {0})
unfolding set_complete
update_review_complete now review_id risk_score recommendation =
    modify (change_review review_id (set_complete now risk_score recommendation))

unfoldable pub to_comment : ℕ → String → String → AgentFinding → Comment
to_comment now id review_id f = record {
  id = id;
  pull_request_id = review_id;
  agent = f.agent;
  severity = f.severity;
  confidence = f.confidence;
  title = take_chars 255 f.title;
  description = f.description;
  evidence = f.evidence;
  suggested_fix = f.suggested_fix;
  file_path = f.file_path;
  line_number = f.line_number;
  owasp_category = f.owasp_category;
  is_posted_to_github = Bool.false;
  created_at = now;
}

-- The rows of the findings, with the ids that are drawn from the `n`th on.
unfoldable pub to_comments : ℕ → (ℕ → String) → ℕ → String → List AgentFinding → List Comment
unfolding to_comment
to_comments now uuid n review_id [] = []
to_comments now uuid n review_id (f ∷ findings) =
    to_comment now (uuid n) review_id f ∷ to_comments now uuid (suc n) review_id findings

abbrev count_findings : List AgentFinding → ℕ
count_findings [] = 0
count_findings (f ∷ findings) = suc (count_findings findings)

unfoldable pub persist_findings : ℕ → (ℕ → String) → String → List AgentFinding → Exec Db (Unit {0})
unfolding to_comments
persist_findings now uuid review_id findings = modify (λ (db : Db). record db {
  comments = db.comments ++ to_comments now uuid db.drawn review_id findings;
  drawn = db.drawn + count_findings findings;
})
