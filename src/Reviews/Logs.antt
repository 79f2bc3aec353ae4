-- ===== src/Reviews/Logs.antt =====
-- `get_review_logs`: the history of a review. The rows that the progress messages write are kept with
-- the world of the workflow, and the others with the tables; both are rows of `review_logs`.
use aerp.Prelude.{
  ℕ, leb, ◌≡◌, refl, String, str_eq, Bool, true, Option, none, some, List, ◌++◌, map, keep,
  order_by, IsOrdered, order_by-perm, order_by-IsOrdered, http, Result, ok, err, if◌then◌else◌,
  arith,
}
use mathlib.Core.List.{Perm}
use aerp.Pubsub.{Feed}
use aerp.Database.{PullRequest, ReviewLog, Db}
use aerp.Tasks.Store.{find_review}
use aerp.Reviews.{is_owned}

pub record LogItem : Type 0 where
  pub agent_name : String
  pub status : String
  pub message : String
  pub created_at : ℕ

abbrev pub to_log_item : ReviewLog → LogItem
to_log_item l = record {
  agent_name = l.agent_name;
  status = l.status;
  message = l.message;
  created_at = l.created_at;
}

abbrev pub is_log_of : String → ReviewLog → Bool
is_log_of review_id l = str_eq l.pull_request_id review_id

-- `order_by(ReviewLog.created_at)`
abbrev pub is_older : ReviewLog → ReviewLog → Bool
is_older l other = leb l.created_at other.created_at

abbrev pub all_logs : Db → Feed → List ReviewLog
all_logs db feed = feed.review_logs ++ db.review_logs

unfoldable pub ordered_logs : String → Db → Feed → List ReviewLog
ordered_logs review_id db feed = order_by is_older (keep (is_log_of review_id) (all_logs db feed))

-- A review that is missing is forbidden too.
unfoldable pub logs_of : String → String → Db → Feed → Option PullRequest → Result (List LogItem)
unfolding ordered_logs
logs_of review_id user_id db feed none = err (http 403 "Forbidden")
logs_of review_id user_id db feed (some pr) =
    if is_owned user_id pr.user_id
    then ok (map to_log_item (ordered_logs review_id db feed))
    else err (http 403 "Forbidden")

unfoldable pub get_review_logs : String → String → Db → Feed → Result (List LogItem)
unfolding logs_of
get_review_logs review_id user_id db feed =
    logs_of review_id user_id db feed (find_review review_id db)

-- x
pub get_review_logs-IsOrdered :
    (review_id user_id : String) (db : Db) (feed : Feed) (pr : PullRequest)
    → find_review review_id db ≡ some pr
    → is_owned user_id pr.user_id ≡ true
    → (logs : List ReviewLog) × (get_review_logs review_id user_id db feed
        ≡ ok (map to_log_item logs))
      × Perm logs (keep (is_log_of review_id) (all_logs db feed))
      × IsOrdered is_older logs
unfolding get_review_logs logs_of ordered_logs
get_review_logs-IsOrdered review_id user_id db feed pr found owned =
    let rows = keep (is_log_of review_id) (all_logs db feed) in
    (
      ordered_logs review_id db feed,
      rw (found, owned) refl,
      order_by-perm is_older rows,
      order_by-IsOrdered is_older (λ x y h. ground arith) (λ x y z h g. ground arith) rows,
    )
