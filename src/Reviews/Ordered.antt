-- ===== src/Reviews/Ordered.antt =====
-- The order in which the routes show a review's findings and a user's reviews.
use aerp.Prelude.{
  ℕ, ◌≡◌, refl, String, true, List, ◌++◌, map, keep, take, drop, All, length, order_by-take-drop,
  length-take-order_by, min, arith,
}
use mathlib.Core.List.{Perm}
use aerp.Database.{PullRequest, Db}
use aerp.Reviews.{is_owned}
use aerp.Reviews.Listing
use aerp.Reviews.Listing.{is_newer, own_reviews, list_reviews, to_review_item}

-- The list of reviews shows as many of the user's own reviews as there are, up to the limit, and
-- none that is left out is newer than one that is shown.
pub list_reviews-newest :
    (user_id : String) (limit : ℕ) (db : Db)
    → (shown omitted : List PullRequest) × (list_reviews user_id limit db
        ≡ map to_review_item shown)
      × (length shown
          ≡ min limit
              (length (keep (λ (pr : PullRequest). is_owned user_id pr.user_id) db.pull_requests)))
      × Perm
          (shown ++ omitted)
          (keep (λ (pr : PullRequest). is_owned user_id pr.user_id) db.pull_requests)
      × All (λ pr. All (λ other. is_newer pr other ≡ true) omitted) shown
unfolding list_reviews own_reviews
list_reviews-newest user_id limit db =
    let rows = keep (λ (pr : PullRequest). is_owned user_id pr.user_id) db.pull_requests in
    let (all, first) =
      order_by-take-drop is_newer (λ x y h. ground arith) (λ x y z h g. ground arith) limit rows in
    (
      take limit (own_reviews user_id db),
      drop limit (own_reviews user_id db),
      refl,
      length-take-order_by is_newer limit rows,
      all,
      first,
    )
