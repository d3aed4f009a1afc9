-- ===== src/Pipeline.antt =====
-- pipeline/: the stages and their states, the journal, the orchestrator and the stage loop.
pub mod Stages
pub mod State
pub mod Collaborators
pub mod Confinement
pub mod Replay
pub mod Orchestrator
pub mod Handlers
pub mod Runner
