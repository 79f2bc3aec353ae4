-- ===== src/Agents/TestLaws.antt =====
-- What the loop over test code returns.
use aerp.Prelude.{
  ℕ, zero, suc, ◌≡◌, refl, ap, ◌∙◌, ◌⊎◌, inl, inr, String, Option, none, some, List, [], ◌∷◌, ◌++◌,
  Result, ok, Option-cases,
}
use aerp.State.{PrMetadata, JiraTicket}
use aerp.Agents.TestCode
use aerp.Agents.TestCode.{
  TestServices, ChatMessage, system, human, extract_code, fix_request, generate_tests,
  build_human_message,
}

module _ (v : TestServices) (invoke : List ChatMessage → Result String) where
  -- The model's next `n` answers, each asked for after the errors of those before it, are all code
  -- that does not parse.
  abbrev pub FailsToParse : ℕ → List ChatMessage → Type 0
  FailsToParse zero messages = Unit
  FailsToParse (suc n) messages =
      (content : String) × (invoke messages ≡ ok content)
      × ((e : String × String) × (v.syntax_error (extract_code content) ≡ some e)
          × FailsToParse n (messages ++ fix_request content e))

  -- A model that answers whatever it is asked.
  abbrev pub Answers : Type 0
  Answers = (messages : List ChatMessage) → (content : String) × (invoke messages ≡ ok content)

  attempts-returns :
      (n : ℕ) (last : String) (messages : List ChatMessage)
      → Answers
      → (code : String) × (TestCode.attempts v invoke n last messages ≡ ok code)
        × ((v.syntax_error code ≡ none) ⊎ FailsToParse n messages)
  unfolding TestCode.attempts
  attempts-returns zero last messages up = (last, refl, inr tt)
  attempts-returns (suc n) last messages up =
      let (content, answered) = up messages in
      elim (Option-cases (v.syntax_error (extract_code content))) [
        | inl parses ↦
            (extract_code content, rw (answered, TestCode.attempts, parses) refl, inl parses)
        | inr (e, fails) ↦
            let (code, r, h) =
              attempts-returns n (extract_code content) (messages ++ fix_request content e) up in
            (
              code,
              rw (answered, TestCode.attempts, fails) r,
              elim h [
                | inl parses ↦ inl parses
                | inr rest ↦ inr (content, answered, (e, fails, rest))
              ],
            )
      ]

-- Where the model answers whatever it is asked, generating tests returns code, and the code parses
-- unless the code of each of three answers, asked for with the errors of those before it, did not.
pub generate_tests-returns :
    (v : TestServices) (invoke : List ChatMessage → Result String) (pr : PrMetadata)
    (jira : Option JiraTicket)
    → v.get_llm ≡ ok invoke
    → Answers v invoke
    → (code : String) × (generate_tests v pr jira ≡ ok code)
      × ((v.syntax_error code ≡ none)
          ⊎ FailsToParse v invoke 3
              (system v.system_prompt ∷ human (build_human_message v pr jira) ∷ []))
unfolding generate_tests TestCode.ask_for_tests
generate_tests-returns v invoke pr jira got up =
    let messages = system v.system_prompt ∷ human (build_human_message v pr jira) ∷ [] in
    let (code, r, h) = attempts-returns v invoke 3 "" messages up in
    (code, ap (TestCode.ask_for_tests v messages) got ∙ r, h)
