-- ===== src/Reviews/Post.antt =====
-- `post_finding_to_pr`: one stored finding is posted on GitHub, with the user's token if there is one.
use aerp.Prelude.{
  String, str_eq, is_truthy, find_first, Bool, true, false, ◌&&◌, Option, none, some, http, Result,
  ok, err, Exec, pure, raise, modify, ◌>>=◌, ◌>>◌, if◌then◌else◌,
}
use aerp.Database.{PullRequest, Comment, ThirdPartyUserAccount}
use aerp.Database.Tables.{update_where}
use aerp.Encryption.{Fernet, decrypt_token}
use aerp.Github.Comments.{FindingDict, post_single_finding_comment}
use aerp.Workflow.Nodes.{Services}
use aerp.Tasks.Store.{find_review}
use aerp.Tasks.Review.{System, github_account}
use aerp.Reviews.{is_owned}

pub data PostReply : Type 0 where
  already_posted : PostReply
  successfully_posted : String → PostReply

abbrev pub is_finding : String → String → Comment → Bool
is_finding review_id finding_id c = str_eq c.id finding_id && str_eq c.pull_request_id review_id

abbrev pub set_posted : Comment → Comment
set_posted c = record c { is_posted_to_github = true }

-- `if request and request.edited_message`
abbrev pub edited : Option String → Option String
edited none = none
edited (some message) = if is_truthy message then some message else none

abbrev pub finding_dict : Option String → Comment → FindingDict
finding_dict edited_message finding = record {
  title = finding.title;
  severity = finding.severity;
  description = finding.description;
  file_path = finding.file_path;
  line_number = finding.line_number;
  evidence = finding.evidence;
  edited_message = edited edited_message;
}

-- `settings_token` is the application's own token.
unfoldable pub token_or : Fernet → String → Option ThirdPartyUserAccount → Result String
token_or fernet settings_token none = ok settings_token
token_or fernet settings_token (some a) =
    if is_truthy a.access_token_encrypted
    then decrypt_token fernet a.access_token_encrypted
    else ok settings_token

module _ (v : Services) (fernet : Fernet) (settings_token : String) (review_id finding_id : String)
    (user_id : String) (edited_message : Option String) where
  unfoldable pub find_post_token : Exec (System v) String
  unfolding token_or
  find_post_token s = (token_or fernet settings_token (github_account s.db user_id), s)

  -- `except Exception`: any failure of the comment is a 500, which keeps what was posted.
  abbrev or_500 : Result String → Result String
  or_500 (ok url) = ok url
  or_500 (err e) = err (http 500 "Failed to post finding")

  unfoldable pub try_post : PullRequest → Comment → String → Exec (System v) String
  try_post pr finding token s =
      let (r, posted) =
        post_single_finding_comment v.github pr.pr_url (finding_dict edited_message finding)
          (some token) s.world.posted in
      (or_500 r, record s { world = record s.world { posted = posted } })

  unfoldable pub mark_posted : Exec (System v) (Unit {0})
  mark_posted = modify (λ (s : System v). record s {
    db = record s.db {
      comments = update_where (is_finding review_id finding_id) set_posted s.db.comments;
    };
  })

  unfoldable pub post_new : PullRequest → Comment → Exec (System v) PostReply
  unfolding find_post_token try_post mark_posted
  post_new pr finding = do
    token ← find_post_token
    url ← try_post pr finding token
    mark_posted
    pure (successfully_posted url)

  unfoldable pub post_unless : PullRequest → Comment → Bool → Exec (System v) PostReply
  unfolding post_new
  post_unless pr finding true = pure already_posted
  post_unless pr finding false = post_new pr finding

  unfoldable pub post_in : PullRequest → Option Comment → Exec (System v) PostReply
  unfolding post_unless
  post_in pr none = raise (http 404 "Finding not found")
  post_in pr (some finding) = post_unless pr finding finding.is_posted_to_github

  unfoldable pub post_for : Option PullRequest → Exec (System v) PostReply
  unfolding post_in
  post_for none = raise (http 404 "Review not found")
  post_for (some pr) = λ s.
      if is_owned user_id pr.user_id
      then post_in pr (find_first (is_finding review_id finding_id) s.db.comments) s
      else (err (http 404 "Review not found"), s)

  unfoldable pub post_finding_to_pr : Exec (System v) PostReply
  unfolding post_for
  post_finding_to_pr s = post_for (find_review review_id s.db) s
