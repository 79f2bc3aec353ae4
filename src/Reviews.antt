-- ===== src/Reviews.antt =====
-- backend/api/routes/reviews.py: the routes of a review. Its id is a well-formed UUID, and the user
-- is the one that `get_current_user` answered.
pub mod Start
pub mod Cancel
pub mod Approve
pub mod Listing
pub mod Logs
pub mod Logged
pub mod Post
pub mod Ordered
pub mod PostOnce
pub mod Resumed
pub mod Approving
pub mod Laws
pub mod Access
use aerp.Prelude.{
  String, str_eq, Bool, true, false, not, Option, none, some, ◌||◌, Failure, http, Result, ok, err,
}
use aerp.Database.{PullRequest, Db}

-- `pr.user_id == current_user.id`
abbrev pub is_owned : String → Option String → Bool
is_owned user_id none = false
is_owned user_id (some id) = str_eq id user_id
