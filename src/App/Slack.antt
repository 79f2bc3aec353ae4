-- ===== src/App/Slack.antt =====
-- backend/utils/slack_tool.py: the message that a review waits for a human.
use aerp.Prelude.{
  ℕ, ◌==◌, String, ◌<>◌, is_truthy, decimal, Option, none, some, List, [], ◌∷◌, ◌++◌, Result, ok,
  err, Exec, if◌then◌else◌,
}
use aerp.Tasks.Review.{Slack}

unfoldable pub payload : Slack → String
payload m =
    "🚨 *High Risk PR Requires Review!* 🚨\n\n*Review ID:* `"
    <> m.review_id
    <> "`\n*PR:* <"
    <> m.pr_url
    <> "|View Pull Request>\n*Risk Score:* "
    <> decimal m.risk_score
    <> "/100\n\nPlease review the findings and approve or reject the PR."

-- The address and the text of a message that Slack has taken.
abbrev delivered : String → Slack → Result ℕ → List (String × String) → List (String × String)
delivered url m (err e) sent = sent
delivered url m (ok status) sent = if status == 200 then sent ++ (url, payload m) ∷ [] else sent

-- `post` answers the status of a request to Slack, or raises: both failures are logged only.
unfoldable pub send_slack_notification :
    (String → String → Result ℕ) → Option String → Slack → Exec (List (String × String)) (Unit {0})
unfolding payload
send_slack_notification post none m sent = (ok tt, sent)
send_slack_notification post (some webhook_url) m sent =
    if is_truthy webhook_url
    then (ok tt, delivered webhook_url m (post webhook_url (payload m)) sent)
    else (ok tt, sent)
