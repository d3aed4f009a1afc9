-- ===== src/Policy.antt =====
-- policy/: pure functions from findings and injected rules.
pub mod Floats
pub mod Severity
pub mod Reporting
pub mod Consolidation
pub mod Normalization
pub mod Roadmap
