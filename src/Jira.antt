-- ===== src/Jira.antt =====
-- backend/tools/jira_tool.py: Jira behind the client of the package `jira`, which is a parameter. The
-- regular expressions are written out as functions on the text, over the ASCII digits, letters and
-- white space.
pub mod Keys
use aerp.Prelude.{
  ℕ, ◌+◌, ltb, leb, ◌==◌, String, ◌<>◌, begins, drop_chars, count_chars, strip, split_text,
  is_space, is_capital, contains, str_eq, Bool, true, false, ◌&&◌, ◌||◌, Option, none, some, List,
  [], ◌∷◌, ◌++◌, error, Result, ok, err, if◌then◌else◌,
}
use Prim.Native.Char.{Char, code}
use aerp.State.{JiraTicket}

abbrev pub is_digit : Char → Bool
is_digit c = leb 48 (code c) && leb (code c) 57

-- `\d*` at the beginning of a text.
unfoldable pub leading_digits : String → String
leading_digits String.[] = ""
leading_digits (String.◌∷◌ c s) =
    let rest = leading_digits s in if is_digit c then String.◌∷◌ c rest else ""

-- `\d+` behind the dash.
abbrev pub dash_digits : Char → String → Option String
dash_digits c String.[] = none
dash_digits c (String.◌∷◌ d s) = some (String.◌∷◌ c (String.◌∷◌ d s))

abbrev pub cons_some : Char → Option String → Option String
cons_some c none = none
cons_some c (some s) = some (String.◌∷◌ c s)

-- `[A-Z]*-\d+` at the beginning of a text.
unfoldable pub letters_dash_digits : String → Option String
unfolding leading_digits
letters_dash_digits String.[] = none
letters_dash_digits (String.◌∷◌ c s) =
    let rest = letters_dash_digits s in
    if is_capital c
    then cons_some c rest
    else if code c == b'-'
    then dash_digits c (leading_digits s)
    else none

-- `[A-Z]+-\d+` at the beginning of a text: what it matches.
unfoldable pub key_at : String → Option String
unfolding letters_dash_digits
key_at String.[] = none
key_at (String.◌∷◌ c s) = if is_capital c then letters_dash_digits (String.◌∷◌ c s) else none

abbrev is_text : String → Option String → Bool
is_text s none = false
is_text s (some t) = str_eq t s

-- `re.match(r"^[A-Z]+-\d+$", s)`, of a text that ends in no line break.
unfoldable pub is_key : String → Bool
unfolding key_at
is_key s = is_text s (key_at s)

-- `/browse/([A-Z]+-\d+)` at the beginning of a text: the group.
unfoldable pub browse_at : String → Option String
unfolding key_at
browse_at s = if begins s "/browse/" then key_at (drop_chars 8 s) else none

-- `re.search`: the first place that matches.
unfoldable pub search_browse : String → Option String
unfolding browse_at
search_browse String.[] = none
search_browse (String.◌∷◌ c s) =
    let rest = search_browse s in
    elim (browse_at (String.◌∷◌ c s)) [ some key ↦ some key | none ↦ rest ]

unfoldable pub parse_jira_url : String → Result String
unfolding is_key search_browse
parse_jira_url jira_url =
    if is_key (strip jira_url) then ok (strip jira_url) else elim (search_browse jira_url) [
      | some key ↦ ok key
      | none ↦ err (error ("Cannot parse Jira ticket key from: " <> jira_url))
    ]

abbrev lower_code : ℕ → ℕ
lower_code c = if leb 65 c && leb c 90 then c + 32 else c

-- Whether a text begins with a word of small letters, in any case.
abbrev begins_word : String → String → Bool
begins_word s String.[] = true
begins_word String.[] (String.◌∷◌ d t) = false
begins_word (String.◌∷◌ c s) (String.◌∷◌ d t) =
    let rest = begins_word s t in if lower_code (code c) == code d then rest else false

-- `[:\s]*\n`: what stands behind the last line break of the run.
unfoldable pub after_run : String → Option String
after_run String.[] = none
after_run (String.◌∷◌ c s) =
    let rest = after_run s in
    if code c == b':' || is_space (code c)
    then (elim rest [ some t ↦ some t | none ↦ if code c == b'\n' then some s else none ])
    else none

abbrev after_word : String → String → Option String
after_word word s = if begins_word s word then after_run (drop_chars (count_chars word) s) else none

-- The header `(?:Acceptance Criteria|AC|ACs)[:\s]*\n` at the beginning of a text.
unfoldable pub after_header : String → Option String
unfolding after_run
after_header s = elim (after_word "acceptance criteria" s) [
  | some t ↦ some t
  | none ↦ elim (after_word "ac" s) [ some t ↦ some t | none ↦ after_word "acs" s ]
]

-- `(.*?)(?:\n\n|\Z)`: up to an empty line, or to the end.
unfoldable pub up_to_blank : String → String
up_to_blank String.[] = ""
up_to_blank (String.◌∷◌ c s) =
    let rest = up_to_blank s in if begins (String.◌∷◌ c s) "\n\n" then "" else String.◌∷◌ c rest

unfoldable pub ac_section : String → Option String
unfolding after_header up_to_blank
ac_section String.[] = none
ac_section (String.◌∷◌ c s) =
    let rest = ac_section s in
    elim (after_header (String.◌∷◌ c s)) [ some t ↦ some (up_to_blank t) | none ↦ rest ]

-- `lstrip("*-•·")`
abbrev strip_bullets : String → String
strip_bullets String.[] = ""
strip_bullets (String.◌∷◌ c s) =
    let rest = strip_bullets s in
    if code c == 42 || code c == 45 || code c == 8226 || code c == 183 then rest else String.◌∷◌ c s

abbrev clean_line : String → String
clean_line line = strip (strip_bullets (strip line))

unfoldable pub long_lines : List String → List String
long_lines [] = []
long_lines (line ∷ lines) =
    let rest = long_lines lines in
    if ltb 10 (count_chars (clean_line line)) then clean_line line ∷ rest else rest

-- `(?:Given|When|Then).*` in one line: from the first of these words to its end.
unfoldable pub from_keyword : String → Option String
from_keyword String.[] = none
from_keyword (String.◌∷◌ c s) =
    let rest = from_keyword s in
    let line = String.◌∷◌ c s in
    if begins_word line "given" || begins_word line "when" || begins_word line "then"
    then some line
    else rest

-- The matches of the lines are added to the criteria, a match that is among them already is not.
unfoldable pub add_matches : List String → List String → List String
unfolding from_keyword
add_matches criteria [] = criteria
add_matches criteria (line ∷ lines) = elim (from_keyword line) [
  | none ↦ add_matches criteria lines
  | some found ↦
      add_matches (if contains criteria found then criteria else criteria ++ strip found ∷ []) lines
]

abbrev section_lines : Option String → List String
section_lines none = []
section_lines (some section) = long_lines (split_text section "\n")

abbrev or_none_found : List String → List String
or_none_found [] = "No structured acceptance criteria found in ticket" ∷ []
or_none_found (c ∷ criteria) = c ∷ criteria

unfoldable pub extract_acceptance_criteria : String → List String
unfolding ac_section long_lines add_matches
extract_acceptance_criteria description =
    or_none_found
      (add_matches (section_lines (ac_section description)) (split_text description "\n"))

-- A link to another issue, by the attribute that it has.
pub data IssueLink : Type 0 where
  outward_issue inward_issue : String → IssueLink
  no_issue : IssueLink

-- The fields that the tool reads; `issuelinks` may be missing.
pub record Issue : Type 0 where
  pub summary : String
  pub description : Option String
  pub story_points : Option ℕ
  pub priority : Option String
  pub status : String
  pub reporter : Option String
  pub issuelinks : Option (List IssueLink)

-- Connecting and `jira.issue(key)`, which raises a `JIRAError` among others.
abbrev pub JiraClient : Type 0
JiraClient = String → Result Issue

linked_keys : List IssueLink → List String
linked_keys [] = []
linked_keys (outward_issue key ∷ links) = key ∷ linked_keys links
linked_keys (inward_issue key ∷ links) = key ∷ linked_keys links
linked_keys (no_issue ∷ links) = linked_keys links

unfoldable pub get_linked_tickets : Option (List IssueLink) → List String
unfolding linked_keys
get_linked_tickets none = []
get_linked_tickets (some links) = linked_keys links

abbrev pub or_default : String → Option String → String
or_default d none = d
or_default d (some s) = s

unfoldable pub to_ticket : String → Issue → JiraTicket
unfolding extract_acceptance_criteria get_linked_tickets
to_ticket ticket_key issue = record {
  ticket_id = ticket_key;
  title = issue.summary;
  description = or_default "" issue.description;
  acceptance_criteria = extract_acceptance_criteria (or_default "" issue.description);
  business_rules = [];
  story_points = issue.story_points;
  priority = or_default "Medium" issue.priority;
  status = issue.status;
  reporter = or_default "Unknown" issue.reporter;
  linked_tickets = get_linked_tickets issue.issuelinks;
}

unfoldable pub fetch_jira_ticket : JiraClient → String → Result JiraTicket
unfolding parse_jira_url to_ticket
fetch_jira_ticket jira jira_url = elim (parse_jira_url jira_url) [
  | err e ↦ err e
  | ok ticket_key ↦ elim (jira ticket_key) [
    | err e ↦ err e
    | ok issue ↦ ok (to_ticket ticket_key issue)
  ]
]
