-- ===== src/Tests/Tickets.antt =====
-- Ticket keys and acceptance criteria of concrete texts.
use aerp.Prelude.{◌≡◌, refl, true, [], ◌∷◌, ok}
use aerp.Jira.{is_key, parse_jira_url, extract_acceptance_criteria}
use aerp.Jira.Keys.{parse_jira_url-is_key}

of-url : parse_jira_url "https://acme.atlassian.net/browse/SHOP-12?focus=1" ≡ ok "SHOP-12"
unfolding parse_jira_url
of-url = refl

of-key : parse_jira_url " SHOP-12\n" ≡ ok "SHOP-12"
unfolding parse_jira_url
of-key = refl

parse_jira_url-is_key_example : is_key "SHOP-12" ≡ true
parse_jira_url-is_key_example =
    parse_jira_url-is_key "https://acme.atlassian.net/browse/SHOP-12?focus=1" "SHOP-12" of-url

of-section :
    extract_acceptance_criteria
      "Users.\n\nAcceptance Criteria:\n* A user can be added\n- short\n\nGiven a user when it logs in\nthen nothing"
    ≡ "A user can be added" ∷ "Given a user when it logs in" ∷ "then nothing" ∷ []
unfolding extract_acceptance_criteria
of-section = refl

of-nothing :
    extract_acceptance_criteria "Add users."
    ≡ "No structured acceptance criteria found in ticket" ∷ []
unfolding extract_acceptance_criteria
of-nothing = refl
