-- ===== src/Settlement.antt =====
-- The crate settlement_contract.
pub mod Types
pub mod State
pub mod Errors
pub mod Topics
pub mod Getters
pub mod Storage
pub mod Fees
pub mod Split
pub mod Payments
pub mod Merchant
pub mod Rules
pub mod Admin
pub mod Operations
pub mod Timelock
pub mod Invariant
pub mod History
mod Readers
pub mod Paused
pub mod Governed
pub mod System
mod TopicRegistry
mod Tests
