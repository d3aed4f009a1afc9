-- ===== src/Adapters/Verification.antt =====
-- core/contracts/verification.py and adapters/_verification.py: the verification of a tool's module.
pub mod Versions
pub mod Policies
pub mod Approval
pub mod Verifying
