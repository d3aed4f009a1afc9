-- ===== src/Persistence.antt =====
-- persistence/: the store, and the repositories over it.
pub mod Store
pub mod Journal
pub mod Engagements
pub mod Findings
pub mod Artifacts
