-- ===== src/Reviews/PostOnce.antt =====
-- A finding is posted at most once.
use aerp.Prelude.{
  ◌≡◌, refl, ap, String, find_first, Bool, true, false, Option, none, some, ok, arith, Bool-cases,
  inl, inr,
}
use aerp.Database.{PullRequest, Comment}
use aerp.Database.Tables.{update_where, find_first-update_self}
use aerp.Encryption.{Fernet}
use aerp.Workflow.Nodes.{Services}
use aerp.Tasks.Store.{find_review}
use aerp.Tasks.Review.{System}
use aerp.Reviews.{is_owned}
use aerp.Reviews.Post
use aerp.Reviews.Post.{PostReply, already_posted, successfully_posted, is_finding, set_posted}

module _ (v : Services) (fernet : Fernet)
    (settings_token review_id finding_id user_id : String) where
  -- Where a comment was posted, its row is marked, and no other table is written.
  abbrev Marked : System v → System v → Type 0
  Marked s s' = s'.db ≡ record s.db {
    comments = update_where (is_finding review_id finding_id) set_posted s.db.comments;
  }

  post_new-Marked :
      (edited_message : Option String) (pr : PullRequest) (finding : Comment) (s s' : System v)
      (url : String)
      → Post.post_new v fernet settings_token review_id finding_id user_id edited_message pr finding
          s
        ≡ (ok (successfully_posted url), s')
      → Marked s s'
  unfolding Post.post_new Post.find_post_token Post.try_post Post.mark_posted
  post_new-Marked edited_message pr finding s s' url out = ground arith

  post_unless-Marked :
      (edited_message : Option String) (pr : PullRequest) (finding : Comment) (b : Bool)
      (s s' : System v) (url : String)
      → Post.post_unless v fernet settings_token review_id finding_id user_id edited_message pr
          finding b s
        ≡ (ok (successfully_posted url), s')
      → Marked s s'
  unfolding Post.post_unless
  post_unless-Marked edited_message pr finding true s s' url out = cc
  post_unless-Marked edited_message pr finding false s s' url out =
      post_new-Marked edited_message pr finding s s' url out

  post_in-Marked :
      (edited_message : Option String) (pr : PullRequest) (o : Option Comment) (s s' : System v)
      (url : String)
      → Post.post_in v fernet settings_token review_id finding_id user_id edited_message pr o s
        ≡ (ok (successfully_posted url), s')
      → ((finding : Comment) × (o ≡ some finding)) × Marked s s'
  unfolding Post.post_in
  post_in-Marked edited_message pr none s s' url out = cc
  post_in-Marked edited_message pr (some finding) s s' url out =
      ((finding, refl), post_unless-Marked edited_message pr finding _ s s' url out)

  -- Once its row is marked, a finding of an own review is not posted again.
  post_for-again :
      (edited_message : Option String) (pr : PullRequest) (finding : Comment) (s s' : System v)
      → is_owned user_id pr.user_id ≡ true
      → find_first (is_finding review_id finding_id) s.db.comments ≡ some finding
      → Marked s s'
      → Post.post_for v fernet settings_token review_id finding_id user_id edited_message
          (some pr)
          s'
        ≡ (ok already_posted, s')
  unfolding Post.post_for Post.post_in Post.post_unless
  post_for-again edited_message pr finding s s' owned found marked =
      let there =
        find_first-update_self (is_finding review_id finding_id) set_posted s.db.comments finding
          (λ x. refl) found in
      rw (owned, marked, there) refl

  post_for-once :
      (edited_message again : Option String) (o : Option PullRequest) (s s' : System v)
      (url : String)
      → Post.post_for v fernet settings_token review_id finding_id user_id edited_message o s
        ≡ (ok (successfully_posted url), s')
      → Marked s s'
        × (Post.post_for v fernet settings_token review_id finding_id user_id again o s'
            ≡ (ok already_posted, s'))
  unfolding Post.post_for
  post_for-once edited_message again none s s' url out = cc
  post_for-once edited_message again (some pr) s s' url out =
      elim (Bool-cases (is_owned user_id pr.user_id)) [
        | inr e ↦ absurd (ground arith)
        | inl e ↦
            let ((finding, found), marked) =
              post_in-Marked edited_message pr _ s s' url (ground arith) in
            (marked, post_for-again again pr finding s s' e found marked)
      ]

  -- Once a request has answered that it posted a finding, another for the same finding by the same
  -- user answers that it is already posted, whatever message it carries, and changes nothing: no
  -- second comment is posted.
  pub post_finding_to_pr-once :
      (edited_message again : Option String) (s s' : System v) (url : String)
      → Post.post_finding_to_pr v fernet settings_token review_id finding_id user_id edited_message
          s
        ≡ (ok (successfully_posted url), s')
      → Post.post_finding_to_pr v fernet settings_token review_id finding_id user_id again s'
        ≡ (ok already_posted, s')
  unfolding Post.post_finding_to_pr
  post_finding_to_pr-once edited_message again s s' url out =
      let (marked, refused) =
        post_for-once edited_message again (find_review review_id s.db) s s' url out in
      rw (ap (find_review review_id) marked) refused
