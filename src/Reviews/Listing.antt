-- ===== src/Reviews/Listing.antt =====
-- `get_review_findings` and `list_reviews`: a review's findings with the worst ones first, and a
-- user's reviews with the newest ones first.
use aerp.Prelude.{
  ℕ, ltb, leb, ◌==◌, String, str_eq, is_truthy, Bool, true, ◌&&◌, ◌||◌, Option, none, some, List,
  map, keep, take, length, order_by, http, Result, ok, err, if◌then◌else◌,
}
use aerp.Database.{PullRequest, Comment, Db, ReviewStatus}
use aerp.Tasks.Store.{find_review}
use aerp.Reviews.{is_owned}

-- `case(…)` of the query; any other text comes last.
unfoldable pub severity_order : String → ℕ
severity_order severity =
    if str_eq severity "critical"
    then 1
    else if str_eq severity "high"
    then 2
    else if str_eq severity "medium"
    then 3
    else if str_eq severity "low"
    then 4
    else 5

-- `m` and `n` are the orders of two severities, `p` and `q` the confidences: the lower order comes
-- first, then the higher confidence.
unfoldable pub rank_before : ℕ → ℕ → ℕ → ℕ → Bool
rank_before m p n q = ltb m n || (m == n && leb q p)

-- `.order_by(severity_order, desc(Comment.confidence))`
unfoldable pub precedes : Comment → Comment → Bool
unfolding severity_order rank_before
precedes c d =
    rank_before (severity_order c.severity) c.confidence (severity_order d.severity) d.confidence

-- `if severity: stmt = stmt.where(…)`
abbrev has_severity : Option String → String → Bool
has_severity none severity = true
has_severity (some s) severity = if is_truthy s then str_eq severity s else true

abbrev pub is_selected : String → Option String → Comment → Bool
is_selected review_id severity c =
    str_eq c.pull_request_id review_id && has_severity severity c.severity

pub record FindingItem : Type 0 where
  pub id : String
  pub agent : String
  pub severity : String
  pub confidence : ℕ
  pub title : String
  pub description : String
  pub file_path : Option String
  pub line_number : Option ℕ
  pub evidence : String
  pub suggested_fix : Option String
  pub owasp_category : Option String
  pub included_in_pr : Bool
  pub created_at : ℕ

abbrev pub to_item : Comment → FindingItem
to_item c = record {
  id = c.id;
  agent = c.agent;
  severity = c.severity;
  confidence = c.confidence;
  title = c.title;
  description = c.description;
  file_path = c.file_path;
  line_number = c.line_number;
  evidence = c.evidence;
  suggested_fix = c.suggested_fix;
  owasp_category = c.owasp_category;
  included_in_pr = c.is_posted_to_github;
  created_at = c.created_at;
}

pub record FindingsPage : Type 0 where
  pub review_id : String
  pub total : ℕ
  pub findings : List FindingItem

-- The rows of the query, in its order.
unfoldable pub ordered_comments : String → Option String → Db → List Comment
unfolding precedes
ordered_comments review_id severity db =
    order_by precedes (keep (is_selected review_id severity) db.comments)

unfoldable pub findings_page : String → List Comment → FindingsPage
findings_page review_id comments = record {
  review_id = review_id;
  total = length (map to_item comments);
  findings = map to_item comments;
}

-- A review that is missing is forbidden too.
unfoldable pub findings_of :
    String → String → Option String → Db → Option PullRequest → Result FindingsPage
unfolding ordered_comments findings_page
findings_of review_id user_id severity db none = err (http 403 "Forbidden")
findings_of review_id user_id severity db (some pr) =
    if is_owned user_id pr.user_id
    then ok (findings_page review_id (ordered_comments review_id severity db))
    else err (http 403 "Forbidden")

unfoldable pub get_review_findings : String → String → Option String → Db → Result FindingsPage
unfolding findings_of
get_review_findings review_id user_id severity db =
    findings_of review_id user_id severity db (find_review review_id db)

pub record ReviewItem : Type 0 where
  pub id : String
  pub pr_url : String
  pub status : ReviewStatus
  pub risk_score : Option ℕ
  pub created_at : ℕ
  pub llm_provider : Option String
  pub llm_model : Option String

abbrev pub to_review_item : PullRequest → ReviewItem
to_review_item pr = record {
  id = pr.id;
  pr_url = pr.pr_url;
  status = pr.status;
  risk_score = pr.risk_score;
  created_at = pr.created_at;
  llm_provider = pr.llm_provider;
  llm_model = pr.llm_model;
}

-- `desc(PullRequest.created_at)`
abbrev pub is_newer : PullRequest → PullRequest → Bool
is_newer pr other = leb other.created_at pr.created_at

unfoldable pub own_reviews : String → Db → List PullRequest
own_reviews user_id db =
    order_by is_newer (keep (λ (pr : PullRequest). is_owned user_id pr.user_id) db.pull_requests)

-- A negative `limit`, which PostgreSQL refuses, is not modelled.
unfoldable pub list_reviews : String → ℕ → Db → List ReviewItem
unfolding own_reviews
list_reviews user_id limit db = map to_review_item (take limit (own_reviews user_id db))
