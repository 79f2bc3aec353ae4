-- ===== src/Prompts/Message.antt =====
-- The message of each specialist agent.
use aerp.Prelude.{String}
use aerp.State.{
  Agent, code_review, security, database, requirements, scalability, standards, architecture,
  blast_radius, PrMetadata,
}
use package.aerp.Prompts.CodeReview
use package.aerp.Prompts.Security
use package.aerp.Prompts.DatabasePrompt
use package.aerp.Prompts.Requirements
use package.aerp.Prompts.Scalability
use package.aerp.Prompts.Standards
use package.aerp.Prompts.Architecture
use package.aerp.Prompts.BlastRadius

-- `build_human_message` of the agent's prompt module.
unfoldable pub human_message : Agent → String → PrMetadata → String
unfolding CodeReview.build_human_message Security.build_human_message
    DatabasePrompt.build_human_message Requirements.build_human_message
    Scalability.build_human_message Standards.build_human_message Architecture.build_human_message
    BlastRadius.build_human_message
human_message code_review = CodeReview.build_human_message
human_message security = Security.build_human_message
human_message database = DatabasePrompt.build_human_message
human_message requirements = Requirements.build_human_message
human_message scalability = Scalability.build_human_message
human_message standards = Standards.build_human_message
human_message architecture = Architecture.build_human_message
human_message blast_radius = BlastRadius.build_human_message
