-- ===== src/Settlement/Tests.antt =====
-- Runs of the settlement contract at concrete states, and its theorems there.
mod Hosts
mod Premises
mod Calls
mod Witnesses
mod Runs
mod Registry
