-- ===== src/Agents.antt =====
-- backend/agents: the model behind the agents, which is LangChain's, and what the agents share.
-- A call of the model depends on the messages that it is sent, and it answers, answers nothing
-- (the parser failed silently) or raises.
pub mod Attempts
pub mod Base
pub mod Orchestrator
pub mod Consensus
pub mod Documentation
pub mod TestCode
pub mod TestLaws
pub mod Laws
pub mod ConsensusLaws
