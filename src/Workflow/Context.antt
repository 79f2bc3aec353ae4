-- ===== src/Workflow/Context.antt =====
-- backend/graph/nodes.py: the texts that the context collector makes of the ticket, the document and the
-- pull request.
use aerp.Prelude.{
  String, ◌<>◌, is_truthy, join, take, take_chars, begins, drop_chars, strip, leb, ◌==◌, ◌&&◌, Bool,
  true, false, ◌||◌, Option, none, some, List, [], ◌∷◌, ◌++◌, map, if◌then◌else◌,
}
use aerp.State.{PrMetadata, JiraTicket}
use Prim.Native.Char.{code}

-- A character of `[a-zA-Z0-9_-]`, at the head of a text.
abbrev is_id_head : String → Bool
is_id_head String.[] = false
is_id_head (String.◌∷◌ c s) =
    let n = code c in
    leb b'a' n && leb n b'z'
    || leb b'A' n && leb n b'Z'
    || leb b'0' n && leb n b'9'
    || n == b'_'
    || n == b'-'

-- `re.search(r"/document/d/([a-zA-Z0-9_-]+)", doc_url)` finds a match.
abbrev has_doc_id : String → Bool
has_doc_id String.[] = false
has_doc_id (String.◌∷◌ c s) =
    let rest = has_doc_id s in
    let here = String.◌∷◌ c s in
    if begins here "/document/d/" && is_id_head (drop_chars 12 here) then true else rest

-- `_fetch_google_doc`: the download is not written yet, and its exception is caught.
unfoldable pub fetch_google_doc : String → String
fetch_google_doc doc_url =
    if has_doc_id doc_url
    then "Google Doc content unavailable: Google Docs via OAuth token is not yet fully implemented in graph nodes."
    else "Could not extract Google Doc ID from URL"

-- An optional text that is not empty: `if state.get(key)`.
abbrev pub truthy : Option String → Option String
truthy none = none
truthy (some s) = if is_truthy s then some s else none

unfoldable pub jira_to_text : JiraTicket → String
jira_to_text t = strip (
    "\nJIRA TICKET: "
    <> t.ticket_id
    <> "\nTitle: "
    <> t.title
    <> "\nStatus: "
    <> t.status
    <> "\nPriority: "
    <> t.priority
    <> "\n\nDescription:\n"
    <> t.description
    <> "\n\nAcceptance Criteria:\n"
    <> join "\n" (map (λ ac. "- " <> ac) t.acceptance_criteria)
    <> "\n\nBusiness Rules:\n"
    <> join "\n" (map (λ br. "- " <> br) t.business_rules)
    <> "\n")

abbrev jira_parts : Option JiraTicket → List String
jira_parts none = []
jira_parts (some t) =
    ("\n=== JIRA TICKET: " <> t.ticket_id <> " ===")
    ∷ t.title
    ∷ "\nAcceptance Criteria:"
    ∷ map (λ ac. "  - " <> ac) t.acceptance_criteria

abbrev doc_parts : Option String → List String
doc_parts none = []
doc_parts (some doc) = "\n=== FEATURE DOCUMENTATION ===" ∷ take_chars 3000 doc ∷ []

unfoldable pub build_raw_context : PrMetadata → Option JiraTicket → Option String → String
build_raw_context pr jira doc = join "\n" (
    (("=== PULL REQUEST: " <> pr.title <> " ===")
      ∷ ("Author: " <> pr.author <> " | Branch: " <> pr.branch)
      ∷ ("Changed files: " <> join ", " (take 10 pr.changed_files))
      ∷ ("\nDescription:\n" <> pr.description)
      ∷ [])
    ++ jira_parts jira
    ++ doc_parts doc)
