-- ===== src/Agents/Documentation.antt =====
-- backend/agents/documentation_agent.py and prompts/documentation.py: the changed files with comments
-- that a model adds. The model and `json.loads` are third-party, and so is Python's text of a list.
use aerp.Prelude.{
  String, ◌<>◌, codes, ends, is_truthy, join, from_char, up_to_last, any_of, Bool, true, false,
  Option, none, some, List, [], ◌∷◌, error, Result, ok, err, if◌then◌else◌,
}
use aerp.State.{PrMetadata, JiraTicket, AgentFinding}
use aerp.Agents.Attempts.{Message, system, human}
use aerp.Dict.{Dict, insert}

-- An element of the parsed array: an object with what stands under its two keys, or another value,
-- which has no method `get`.
pub data DocItem : Type 0 where
  object : Option String → Option String → DocItem
  no_object : DocItem

-- What `json.loads` gives: an array, another value, or a `JSONDecodeError`.
pub data Json : Type 0 where
  array : List DocItem → Json
  no_array : Json
  decode_error : Json

pub record DocServices : Type 0 where
  pub get_llm : Result (List Message → Result String)
  pub json_loads : String → Json
  pub system_prompt : String
  pub shown_findings : List AgentFinding → String

-- `file_path.endswith((…))`
unfoldable pub is_code_file : String → Bool
is_code_file file_path =
    any_of (λ (suffix : String). ends (codes file_path) (codes suffix))
      (".py" ∷ ".js" ∷ ".ts" ∷ ".go" ∷ ".java" ∷ ".md" ∷ [])

-- A file that is empty is left out.
abbrev pub add_file : String → String → Dict String → Dict String
add_file file_path content raw_files =
    if is_truthy content then insert file_path content raw_files else raw_files

files_context : Dict String → List String
files_context [] = []
files_context ((path, content) ∷ raw_files) =
    ("=== FILE: " <> path <> " ===\n" <> content <> "\n") ∷ files_context raw_files

abbrev pub jira_title : Option JiraTicket → String
jira_title none = "N/A"
jira_title (some t) = t.title

abbrev pub jira_description : Option JiraTicket → String
jira_description none = "N/A"
jira_description (some t) = t.description

unfoldable pub build_human_message :
    DocServices → PrMetadata → Option JiraTicket → List AgentFinding → Dict String → String
unfolding files_context
build_human_message v pr jira findings raw_files =
    "\nPlease add inline documentation to the following changed files.\n\n=== PR METADATA ===\nTitle: "
    <> pr.title
    <> "\nDescription: "
    <> pr.description
    <> "\nDiff:\n"
    <> pr.diff
    <> "\n\n=== JIRA TICKET ===\nTitle: "
    <> jira_title jira
    <> "\nDescription: "
    <> jira_description jira
    <> "\n\n=== APPROVED REVIEW FINDINGS ===\n"
    <> v.shown_findings findings
    <> "\n\n=== RAW FILE CONTENTS (TO BE MODIFIED) ===\n"
    <> join "\n" (files_context raw_files)
    <> "\n\nReturn the updated files as a JSON array of objects `[ {\"file_path\": \"...\", \"content\": \"...\"} ]`. Return ONLY valid JSON.\n"

-- From the first `[` to the last `]`, where the second stands behind the first.
unfoldable pub json_part : String → String
json_part content = elim (from_char b'[' content) [
  | none ↦ content
  | some rest ↦ elim (up_to_last b']' rest) [ none ↦ content | some part ↦ part ]
]

-- `if path and body: updated_files[path] = body`
abbrev add_item : Option String → Option String → Dict String → Dict String
add_item none body updated_files = updated_files
add_item (some path) none updated_files = updated_files
add_item (some path) (some body) updated_files =
    if is_truthy path then add_file path body updated_files else updated_files

unfoldable pub collect_items : List DocItem → Dict String → Result (Dict String)
collect_items [] updated_files = ok updated_files
collect_items (no_object ∷ items) updated_files = err (error "object has no attribute 'get'")
collect_items (object path body ∷ items) updated_files =
    collect_items items (add_item path body updated_files)

unfoldable pub parsed_files : Json → Result (Dict String)
unfolding collect_items
parsed_files (array items) = collect_items items []
parsed_files no_array = ok []
parsed_files decode_error = ok []

unfoldable pub ask_for_files :
    DocServices → List Message → Result (List Message → Result String) → Result (Dict String)
unfolding json_part parsed_files
ask_for_files v messages (err e) = err e
ask_for_files v messages (ok invoke) = elim (invoke messages) [
  | err e ↦ err e
  | ok content ↦ parsed_files (v.json_loads (json_part content))
]

-- `get_file_content(repo_owner, repo_name, file_path, branch)`: the function has a fifth parameter,
-- `github_token`, with no default, so the call raises whatever its arguments are.
unfoldable pub call_get_file_content : String → String → String → String → Result String
call_get_file_content repo_owner repo_name file_path branch =
    err (error "get_file_content() missing 1 required positional argument: 'github_token'")

-- `fetch` reads a file of the branch.
unfoldable pub read_files :
    (String → Result String) → List String → Dict String → Result (Dict String)
unfolding is_code_file
read_files fetch [] raw_files = ok raw_files
read_files fetch (file_path ∷ changed_files) raw_files = elim (is_code_file file_path) [
  | false ↦ read_files fetch changed_files raw_files
  | true ↦ elim (fetch file_path) [
    | err e ↦ err e
    | ok content ↦ read_files fetch changed_files (add_file file_path content raw_files)
  ]
]

-- The changed files that are code, and README.md in any case.
unfoldable pub read_all : (String → Result String) → List String → Result (Dict String)
unfolding read_files
read_all fetch changed_files = elim (read_files fetch changed_files []) [
  | err e ↦ err e
  | ok raw_files ↦ elim (fetch "README.md") [
    | err e ↦ err e
    | ok readme ↦ ok (add_file "README.md" readme raw_files)
  ]
]

unfoldable pub document :
    DocServices
    → PrMetadata
    → Option JiraTicket
    → List AgentFinding
    → Result (Dict String)
    → Result (Dict String)
unfolding ask_for_files build_human_message
document v pr jira findings (err e) = err e
document v pr jira findings (ok raw_files) =
    ask_for_files v
      (system v.system_prompt ∷ human (build_human_message v pr jira findings raw_files) ∷ [])
      v.get_llm

unfoldable pub generate_documentation :
    DocServices → PrMetadata → Option JiraTicket → List AgentFinding → Result (Dict String)
unfolding document read_all call_get_file_content
generate_documentation v pr jira findings = document v pr jira findings (
    read_all (λ (path : String). call_get_file_content pr.repo_owner pr.repo_name path pr.branch)
      pr.changed_files)
