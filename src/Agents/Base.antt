-- ===== src/Agents/Base.antt =====
-- backend/agents/base_agent.py: the life of a specialist agent, which its eight subclasses share.
use aerp.Prelude.{
  String, ◌<>◌, is_truthy, str_eq, join, Bool, not, Option, none, some, List, [], ◌∷◌, ◌++◌, map,
  take, Failure, error, http, Result, ok, err, Exec, pure, lift, raise_if, ◌>>=◌, ◌>>◌,
  if◌then◌else◌,
}
use aerp.Findings.{
  CodeFinding, AgentReport, severity_value, recommendation_value, approve_with_comments,
}
use aerp.State.{
  Agent, code_review, security, database, requirements, scalability, standards, architecture,
  blast_radius, AgentFinding, AgentResult,
}
use aerp.State.Merge
use aerp.State.Merge.{Update}
use aerp.Pubsub.{Feed, publish_agent_status}
use aerp.Agents.Attempts.{Message, system, human, Model, attempts}

-- One tool call that the model asks for; `shown_args` is its arguments as Python prints them.
pub record ToolCall : Type 0 where
  pub name : String
  pub query : String
  pub source : Option String
  pub shown_args : String

-- LangChain's model and tools. `get_llm` gives a model (`true`), a false value, or raises.
pub record Llm : Type 0 where
  pub get_llm : Result Bool
  pub agent_report : Model AgentReport
  pub tool_calls : List Message → Result (List ToolCall)
  pub search_context : String → Option String → Result String

-- `AGENT_NAME` of each subclass.
abbrev pub agent_name : Agent → String
agent_name code_review = "code_review_agent"
agent_name security = "security_agent"
agent_name database = "database_agent"
agent_name requirements = "requirements_agent"
agent_name scalability = "scalability_agent"
agent_name standards = "standards_agent"
agent_name architecture = "architecture_agent"
agent_name blast_radius = "blast_radius_agent"

-- `AGENT_NAME.replace("_", " ").title()`
abbrev pub display_name : Agent → String
display_name code_review = "Code Review Agent"
display_name security = "Security Agent"
display_name database = "Database Agent"
display_name requirements = "Requirements Agent"
display_name scalability = "Scalability Agent"
display_name standards = "Standards Agent"
display_name architecture = "Architecture Agent"
display_name blast_radius = "Blast Radius Agent"

-- `str(e)`
abbrev pub failure_text : Failure → String
failure_text (http status detail) = detail
failure_text (error message) = message

-- The dict of one finding, under the name of the agent that reports it.
unfoldable pub to_state : String → CodeFinding → AgentFinding
to_state agent f = record {
  agent = agent;
  severity = severity_value f.severity;
  confidence = f.confidence;
  title = f.title;
  description = f.description;
  file_path = f.file_path;
  line_number = f.line_number;
  evidence = f.evidence;
  suggested_fix = f.suggested_fix;
  owasp_category = f.owasp_category;
}

-- The two keys that an agent returns. The key of its result is `AGENT_NAME` with `_agent` replaced
-- by `_result`.
unfoldable pub agent_update : Agent → AgentResult → Update
agent_update a r = Merge.Write.agent_result a r ∷ Merge.Write.agent_findings r.findings ∷ []

unfoldable pub report_result : Agent → AgentReport → AgentResult
unfolding to_state
report_result a report = record {
  agent = agent_name a;
  findings = map (to_state (agent_name a)) report.findings;
  overall_assessment = report.overall_assessment;
  recommendation = recommendation_value report.recommendation;
  confidence = report.confidence;
  tokens_used = none;
}

-- The result when the agent raised.
unfoldable pub failed_result : Agent → String → AgentResult
failed_result a message = record {
  agent = agent_name a;
  findings = [];
  overall_assessment = "Agent failed: " <> message;
  recommendation = "approve_with_comments";
  confidence = 0;
  tokens_used = none;
}

-- The report when all three attempts gave none.
unfoldable pub fallback_report : Agent → AgentReport
fallback_report a = record {
  findings = [];
  overall_assessment =
      "JSON Parsing Failed after 3 attempts with "
      <> agent_name a
      <> ". The LLM output could not be parsed.";
  recommendation = approve_with_comments;
  confidence = 0;
}

abbrev pub report_or : {A : Type 0} → A → Option A → A
report_or d none = d
report_or d (some r) = r

-- The `except` block: any exception becomes an empty result.
unfoldable pub recover : Agent → Result AgentReport → AgentResult
unfolding report_result failed_result
recover a (ok report) = report_result a report
recover a (err e) = failed_result a (failure_text e)

module _ (llm : Llm) (review_id : String) (a : Agent) where
  announce : String → Exec Feed (Unit {0})
  unfolding publish_agent_status
  announce = publish_agent_status review_id (display_name a) "running"

  call_tool : ToolCall → Exec Feed (List String)
  call_tool c =
      if str_eq c.name "search_context"
      then (do
        result ← lift (llm.search_context c.query c.source)
        pure
            (("[Tool: " <> c.name <> "]\nQuery: " <> c.shown_args <> "\nResult:\n" <> result) ∷ []))
      else pure []

  run_tool_calls : List ToolCall → Exec Feed (List String)
  unfolding announce call_tool
  run_tool_calls [] = pure []
  run_tool_calls (c ∷ calls) = do
    announce (
        if is_truthy c.query
        then "Searching codebase for '" <> c.query <> "'..."
        else "Running tool " <> c.name <> "...")
    here ← call_tool c
    rest ← run_tool_calls calls
    pure (here ++ rest)

  enrich : String → List String → String
  enrich human_message [] = human_message
  enrich human_message (r ∷ results) =
      human_message <> "\n\n## Additional Context from Search\n" <> join "\n\n" (r ∷ results)

  -- The first half of the `try` block: the messages of the final call, enriched by the tools.
  unfoldable pub gather : String → String → Exec Feed (List Message)
  unfolding run_tool_calls enrich
  gather system_prompt human_message = do
    found ← lift llm.get_llm
    raise_if (not found) (error "Failed to initialize LLM. Check API keys.")
    announce "Reasoning and determining needed context..."
    calls ← lift (llm.tool_calls (system system_prompt ∷ human human_message ∷ []))
    results ← run_tool_calls (take 5 calls)
    announce "Compiling final findings and recommendations..."
    pure (system system_prompt ∷ human (enrich human_message results) ∷ [])

  unfoldable pub final_report : List Message → AgentReport
  unfolding attempts fallback_report
  final_report messages = report_or (fallback_report a) (attempts llm.agent_report 3 messages)

  -- The body of the `try` block.
  unfoldable pub attempt_run : String → String → Exec Feed AgentReport
  unfolding gather final_report
  attempt_run system_prompt human_message = do
    messages ← gather system_prompt human_message
    pure (final_report messages)

  unfoldable pub run : String → String → Exec Feed Update
  unfolding attempt_run recover agent_update
  run system_prompt human_message feed =
      let (r, feed') = attempt_run system_prompt human_message feed in
      (ok (agent_update a (recover a r)), feed')
