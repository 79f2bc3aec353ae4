-- ===== src/Tests.antt =====
-- Concrete services, and the theorems at concrete inputs.
mod Engine
mod Data
mod Accounts
mod Runs
mod Agents
mod Storage
mod Reviews
mod Indexing
mod Reading
mod Artifacts
mod Interleavings
mod Tickets
mod Apps
mod Schemas
mod ToolCalls
mod Prompts
