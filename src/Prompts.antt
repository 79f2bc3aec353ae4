-- ===== src/Prompts.antt =====
-- backend/prompts: what the agents are told of a pull request. The system prompts are fixed texts and
-- stay parameters.
pub mod CodeReview
pub mod Security
pub mod DatabasePrompt
pub mod Requirements
pub mod Scalability
pub mod Standards
pub mod Architecture
pub mod BlastRadius
pub mod ConsensusPrompt
pub mod Message
use aerp.Prelude.{String, ◌<>◌, join, List, map}

-- A line for each file.
abbrev pub file_lines : List String → String
file_lines files = join "\n" (map (λ (f : String). "  - " <> f) files)
