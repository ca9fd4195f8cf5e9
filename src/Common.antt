-- ===== src/Common.antt =====
-- The crate bettapay_common: what the two contracts share.
pub mod Constants
pub mod Rule
pub mod Env
pub mod Auth
pub mod Recovery
pub mod Codes
pub mod Topics
