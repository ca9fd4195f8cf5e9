-- ===== src/Governance.antt =====
-- The crate governance_contract.
pub mod State
pub mod Errors
pub mod Topics
mod Getters
pub mod Storage
pub mod Contract
mod Tests
