-- ===== src/Agents/TestCode.antt =====
-- backend/agents/test_agent.py and prompts/test.py: test code that a model writes, checked by Python's
-- parser. The model and `ast.parse` are third-party, and so is Python's text of a list.
use aerp.Prelude.{
  ℕ, zero, suc, String, ◌<>◌, begins, remove_prefix, remove_suffix, strip, join, Option, none, some,
  List, [], ◌∷◌, ◌++◌, Result, ok, err, if◌then◌else◌,
}
use aerp.State.{PrMetadata, JiraTicket}
use aerp.Agents.Documentation.{jira_title, jira_description}

-- What the conversation holds here: `AIMessage` too.
pub data ChatMessage : Type 0 where
  system human ai : String → ChatMessage

-- `syntax_error` gives `str(e)` and `e.lineno`, as a text, of the error that `ast.parse` raises.
pub record TestServices : Type 0 where
  pub get_llm : Result (List ChatMessage → Result String)
  pub syntax_error : String → Option (String × String)
  pub system_prompt : String
  pub shown_list : List String → String

abbrev jira_criteria : TestServices → Option JiraTicket → String
jira_criteria v none = "N/A"
jira_criteria v (some t) = v.shown_list t.acceptance_criteria

unfoldable pub build_human_message : TestServices → PrMetadata → Option JiraTicket → String
build_human_message v pr jira =
    "\nPlease generate a comprehensive `pytest` test suite for the following changes.\n\n=== PR METADATA ===\nTitle: "
    <> pr.title
    <> "\nDescription: "
    <> pr.description
    <> "\nChanged Files: "
    <> join ", " pr.changed_files
    <> "\nDiff:\n```diff\n"
    <> pr.diff
    <> "\n```\n\n=== JIRA TICKET ===\nTitle: "
    <> jira_title jira
    <> "\nDescription: "
    <> jira_description jira
    <> "\nAcceptance Criteria: "
    <> jira_criteria v jira
    <> "\n\nGenerate the test code.\n"

-- The code inside a Markdown fence.
unfoldable pub extract_code : String → String
extract_code content =
    if begins content "```python"
    then strip (remove_suffix "```" (remove_prefix "```python" content))
    else if begins content "```"
    then strip (remove_suffix "```" (remove_prefix "```" content))
    else content

-- The answer, and the request to fix it.
unfoldable pub fix_request : String → String × String → List ChatMessage
fix_request content (message, line) =
    ai content
    ∷ human (
        "The code you generated has a SyntaxError: " <> message <> " at line " <> line
        <> ". Please fix it and return ONLY the corrected python code.")
    ∷ []

module _ (v : TestServices) (invoke : List ChatMessage → Result String) where
  -- `code_content` is the code of the last answer; after the last attempt it is returned as it is.
  unfoldable pub attempts : ℕ → String → List ChatMessage → Result String
  unfolding extract_code fix_request
  attempts zero code_content messages = ok code_content
  attempts (suc n) code_content messages = elim (invoke messages) [
    | err e ↦ err e
    | ok content ↦ elim (v.syntax_error (extract_code content)) [
      | none ↦ ok (extract_code content)
      | some e ↦ attempts n (extract_code content) (messages ++ fix_request content e)
    ]
  ]

unfoldable pub ask_for_tests :
    TestServices → List ChatMessage → Result (List ChatMessage → Result String) → Result String
unfolding attempts
ask_for_tests v messages (err e) = err e
ask_for_tests v messages (ok invoke) = attempts v invoke 3 "" messages

unfoldable pub generate_tests : TestServices → PrMetadata → Option JiraTicket → Result String
unfolding ask_for_tests build_human_message
generate_tests v pr jira =
    ask_for_tests v (system v.system_prompt ∷ human (build_human_message v pr jira) ∷ []) v.get_llm
