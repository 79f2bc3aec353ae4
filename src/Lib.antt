-- ===== src/Lib.antt =====
-- AERP reviews GitHub pull requests with language models. A FastAPI backend stores a review and
-- queues a Celery task; the task runs a LangGraph workflow, stores its outcome, and stops before a
-- human where the risk is high. The parts, with the files under backend/ that they model:
--   Findings     schemas/findings.py: the reports that the models fill in.
--   State        graph/state.py: `ReviewState`, its initial value, and (State/Merge) how the update of
--                a node is merged into it, with `agent_findings` appended to.
--   Pubsub       utils/pubsub.py: progress messages on Redis and in `review_logs`.
--   Agents       agents/: the retry loop (Attempts), `BaseAgent.run` (Base), the selection of the
--                agents (Orchestrator), the final score (Consensus), and the agents of the generated
--                documentation (Documentation) and tests (TestCode).
--   Prompts      prompts/: what each agent is told of a pull request, which Workflow and Agents use.
--   App          main.py, db/session.py (Session), tasks/celery_app.py and utils/slack_tool.py (Slack):
--                what the application hands to FastAPI, SQLAlchemy and Celery.
--   Config       config/settings.py and utils/llm_factory.py: which model the settings select.
--   Rag          rag/chunker.py, rag/indexer.py, and rag/retriever.py (Retriever), whose tool the
--                agents of the workflow call on the rows that are stored so far.
--   Github       tools/github_tool.py: reading a pull request, posting to it (Github/Comments), and
--                reading a file and opening a pull request (Github/Pulls).
--   Jira         tools/jira_tool.py: ticket keys (Jira/Keys has their law), fields and criteria.
--   Database     db/models: the rows, and (Database/Tables) queries and writes on a table.
--   Schema       db/models, as what they declare (Mapped, Declared), and db/migrations/versions: the
--                statements (Initial, Versions), their runs (Steps), and the first rows (Seed).
--   Tools        the LangChain tools of tools/github_tool.py and tools/jira_tool.py.
--   Encryption   utils/encryption.py.
--   Tasks        tasks/review_tasks.py: the fallback score (Risk), the writes to the database
--                (Store), `run_review_task` (Review) and `generate_artifacts_task` (Artifacts).
--   Repository   graph/nodes.py, the repository analyzer.
--   Workflow     graph/workflow.py: the routing, the nodes of graph/nodes.py (Context, Nodes), and a
--                run of the compiled graph up to the gate, and past it (Run), and where the
--                checkpointer leaves a run that raised (Standing).
--   Auth         utils/security.py, api/deps.py and api/routes/auth.py.
--   Reviews      api/routes/reviews.py: starting, reading, cancelling and approving a review, the
--                lists of reviews and findings (Listing), the history (Logs) and posting one
--                finding (Post).
--   Integrations api/routes/integrations.py: the connected accounts.
--   Lifecycle    the system over time, as a relation of steps: requests and executions of the task,
--                one by one and (Interleaved) a transaction at a time.
--   Dict, Prelude and Tests hold Python's dict, shared helpers, and concrete services and examples.
--
-- A call that may raise is a function from a state to a result and the next state, so that what
-- was written before an exception stays written. The state is the world of the workflow (progress
-- messages, embeddings, posted comments), the tables of the database, or both with LangGraph's
-- checkpoints. A checkpoint is the state before the next step of the graph, for a run that raised
-- too: an approval goes on from there, and a retry of the task starts anew with the findings of the
-- earlier run kept. Handlers are split where they branch on a field, with the field as an argument.
--
-- Parameters stand for what is not in the repository: LangChain's models and tools (`Llm`,
-- `Judge`, `Selector`), PyGithub (`Client`, `RepoClient`), Jira's client, LangGraph (`Engine`: the
-- routed agents are started once each, in some order), email-validator, the text splitter, the embedding model and
-- pgvector (`VectorStore`, `Search`), `json.loads`, `ast.parse`, Fernet, bcrypt, jose, SHA-256, the
-- ids that `uuid4` draws and the clock. A model that is asked again answers by the conversation that
-- it is sent. The messages of agents that run in parallel stand agent by agent.
--
-- Numbers are natural numbers, confidences are in thousandths, times in seconds, and ids and UUIDs
-- are texts. The retry loops recurse on the number of attempts, 3 in the code. The loop over
-- batches of 100 chunks recurses on a bound, the number of chunks: each batch takes one at least.
-- PostgreSQL and Redis answer, except where progress messages and embeddings are written, whose
-- failures the code handles; a unique column is read by its first match.
--
-- A step of Lifecycle is one whole request or one whole execution of a task. Lifecycle/Interleaved
-- takes executions of the review task (Tasks/Phases) and approvals (Reviews/Approving) apart into
-- their transactions, which other requests, tasks and approvals come between, and lets a worker be
-- killed between two; a run of the workflow with its checkpoints stays one transaction, which is
-- not killed within. An execution
-- has 6 transactions at most, an approval 5. A test of two rows orders a query, and rows that the
-- test does not tell apart keep their places.
--
-- A schema refuses the statements that PostgreSQL refuses: a name that is taken or missing, a
-- reference to a table that is missing, a table that others refer to, and an index of a method
-- without a default operator class where none is named; which methods have one is a parameter.
--
-- Not modelled: the WebSocket, which forwards the messages of a Redis channel, the system prompts,
-- how settings are read, logging, pydantic's checks of the requests but those of a pull request's
-- URL and of a registration, the connection of Alembic, and the registration of the routes.
pub mod Prelude
pub mod App
pub mod Config
pub mod Prompts
pub mod Jira
pub mod Integrations
pub mod Lifecycle
pub mod Findings
pub mod State
pub mod Pubsub
pub mod Agents
pub mod Dict
pub mod Rag
pub mod Github
pub mod Database
pub mod Schema
pub mod Encryption
pub mod Tasks
pub mod Tools
pub mod Repository
pub mod Workflow
pub mod Auth
pub mod Reviews
pub mod Tests
