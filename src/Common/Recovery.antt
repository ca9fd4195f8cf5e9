-- ===== src/Common/Recovery.antt =====
-- bettapay_common/src/events.rs: the record of a pending recovery, as it is stored.
use betta_pay_contract.Base.{ℕ}
use betta_pay_contract.Common.Env.{Address}

pub record PendingRecovery : Type 0 where
  pub new_admin : Address
  pub execute_after : ℕ  -- u64
  pub initiated_by : Address

-- The stored value is decoded by hand: a record of the format before `initiated_by` does not
-- decode.
pub data RecoveryEntry : Type 0 where
  pending : PendingRecovery → RecoveryEntry
  undecodable : RecoveryEntry
