-- ===== src/Reviews/Access.antt =====
-- Who may read a review and act on it, over all routes of api/routes/reviews.py that take its id, but
-- for the WebSocket, which asks for no user.
use aerp.Prelude.{
  ℕ, ◌≡◌, refl, ◌⊎◌, inl, inr, String, true, false, Option, none, some, http, Result, err,
  Bool-cases,
}
use aerp.Pubsub.{Feed}
use aerp.Database.{PullRequest, Db}
use aerp.Encryption.{Fernet}
use aerp.Workflow.Nodes.{Services}
use aerp.Workflow.Run.{Engine}
use aerp.Tasks.Store.{find_review}
use aerp.Tasks.Review.{System}
use aerp.Reviews.{is_owned}
use aerp.Reviews.Start
use aerp.Reviews.Start.{get_review_status}
use aerp.Reviews.Listing
use aerp.Reviews.Listing.{get_review_findings}
use aerp.Reviews.Logs
use aerp.Reviews.Logs.{get_review_logs}
use aerp.Reviews.Cancel
use aerp.Reviews.Cancel.{cancel_review}
use aerp.Reviews.Approve
use aerp.Reviews.Post

-- The review is stored, and is the user's.
abbrev pub IsOwnReview : String → String → Db → Type 0
IsOwnReview review_id user_id db =
    (pr : PullRequest) × (find_review review_id db ≡ some pr) × (is_owned user_id pr.user_id ≡ true)

-- 403 or 404.
abbrev pub IsRefused : {A : Type 0} → Result A → Type 0
IsRefused r = (detail : String) × ((r ≡ err (http 403 detail)) ⊎ (r ≡ err (http 404 detail)))

-- Refused, with nothing changed.
abbrev pub IsRefusedIn : {S A : Type 0} → S → Result A × S → Type 0
IsRefusedIn s out = IsRefused out.0 × (out.1 ≡ s)

module _ (v : Services) (engine : Engine) (fernet : Fernet) (now : ℕ)
    (settings_token review_id finding_id user_id : String) (severity edited_message : Option String)
    (feed : Feed) where
  -- Every route refuses the user.
  abbrev pub IsShut : System v → Type 0
  IsShut s =
      IsRefused (get_review_status review_id user_id s.db)
      × IsRefused (get_review_findings review_id user_id severity s.db)
      × IsRefused (get_review_logs review_id user_id s.db feed)
      × IsRefusedIn s.db (cancel_review now review_id user_id s.db)
      × IsRefusedIn s (Approve.approve_review v engine fernet now review_id user_id s)
      × IsRefusedIn s (
          Post.post_finding_to_pr v fernet settings_token review_id finding_id user_id
            edited_message s)

  missing-IsShut : (s : System v) → find_review review_id s.db ≡ none → IsShut s
  unfolding get_review_status Start.shown_to get_review_findings Listing.findings_of get_review_logs
      Logs.logs_of cancel_review Cancel.cancel_found Approve.approve_review Approve.approve_found
      Post.post_finding_to_pr Post.post_for
  missing-IsShut s missing = rw missing (
    (_, inr refl),
    (_, inl refl),
    (_, inl refl),
    ((_, inr refl), refl),
    ((_, inr refl), refl),
    ((_, inr refl), refl),
  )

  foreign-IsShut :
      (s : System v) (pr : PullRequest)
      → find_review review_id s.db ≡ some pr
      → is_owned user_id pr.user_id ≡ false
      → IsShut s
  unfolding get_review_status Start.shown_to get_review_findings Listing.findings_of get_review_logs
      Logs.logs_of cancel_review Cancel.cancel_found Approve.approve_review Approve.approve_found
      Post.post_finding_to_pr Post.post_for
  foreign-IsShut s pr found foreign =
      rw (found, foreign)
        (
          (_, inl refl),
          (_, inl refl),
          (_, inl refl),
          ((_, inl refl), refl),
          ((_, inr refl), refl),
          ((_, inr refl), refl),
        )

  owned_or_refused_at :
      (s : System v) (o : Option PullRequest)
      → find_review review_id s.db ≡ o
      → IsOwnReview review_id user_id s.db ⊎ IsShut s
  owned_or_refused_at s none found = inr (missing-IsShut s found)
  owned_or_refused_at s (some pr) found = elim (Bool-cases (is_owned user_id pr.user_id)) [
    | inl own ↦ inl (pr, found, own)
    | inr foreign ↦ inr (foreign-IsShut s pr found foreign)
  ]

  -- In any system, a review is stored and is the user's, or the routes that read its status, its
  -- findings and its history, cancel it, approve it and post a finding of it all refuse the user
  -- with 403 or 404, and those that could write change nothing.
  pub owned_or_refused : (s : System v) → IsOwnReview review_id user_id s.db ⊎ IsShut s
  owned_or_refused s = owned_or_refused_at s (find_review review_id s.db) refl
