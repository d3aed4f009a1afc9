-- ===== src/Domain.antt =====
-- core/domain: the value sets, the life cycle of an engagement, and the records of findings.
pub mod Enums
pub mod Lifecycle
pub mod Findings
pub mod PathValidation
pub mod Manifests
pub mod Credentials
pub mod Configs
