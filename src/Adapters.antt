-- ===== src/Adapters.antt =====
-- adapters: what the tools' adapters share, and the adapters of single tools.
pub mod Arguments
pub mod Outputs
pub mod Directories
pub mod Processes
pub mod Prowler
pub mod Scubagear
pub mod Verification
