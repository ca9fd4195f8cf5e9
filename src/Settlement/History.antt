-- ===== src/Settlement/History.antt =====
-- The settlement contract over sequences of calls: abstract views of what a call may do to the
-- payments, the timelock and the pending recovery, without the rest of the storage.
pub mod Frame
pub mod Quiet
pub mod Steps
pub mod Records
pub mod Queue
pub mod Runs
pub mod Plans
pub mod Slots
pub mod Audit
pub mod Stays
pub mod Recoveries
pub mod Appointments
