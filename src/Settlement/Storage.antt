-- ===== src/Settlement/Storage.antt =====
-- settlement_contract/src/storage.rs: admins and their authorization, merchants, counters.
pub mod Access
use betta_pay_contract.Base.{
  ℕ, ◌+◌, ◌-◌, ◌^◌, ◌==◌, Bool, true, false, not, Option, some, List, update, unwrap_or, is_some,
  min_u32, if◌then◌else◌,
}
use betta_pay_contract.Base.Ledger.{
  pure, ◌>>=◌, ◌>>◌, refuse, require, get_or_fail, fail, when, add_checked, stored, write,
  extend_ttl, extend_instance_ttl,
}
use betta_pay_contract.Common.Constants.{read_instance_ttl_threshold, read_instance_ttl_bump}
use betta_pay_contract.Common.Env.{Address, is_zero_address}
use betta_pay_contract.Common.Auth.{verify_quorum, validate_set}
use betta_pay_contract.Common.Recovery.{PendingRecovery, RecoveryEntry, pending, undecodable}
use betta_pay_contract.Settlement.Types.{
  DataKey, SettlementError, not_initialized, unauthorized, invalid_threshold, invalid_admin,
  zero_address, invalid_governance, paused, payment_orphaned, recovery_not_pending, ttl_threshold,
  ttl_bump, current_schema_version,
}
use betta_pay_contract.Settlement.State.{Store, State, Act, Host}

abbrev pub bump_instance : Act (Unit {0})
bump_instance = extend_instance_ttl read_instance_ttl_threshold read_instance_ttl_bump

unfoldable pub read_admins : Act (List Address)
read_admins = do bump_instance; store ← stored; get_or_fail store.admins not_initialized

abbrev pub read_optional_admins : Act (List Address)
read_optional_admins = do store ← stored; pure (unwrap_or store.admins List.[])

unfoldable pub read_threshold : Act ℕ
read_threshold = do bump_instance; store ← stored; get_or_fail store.threshold not_initialized

unfoldable pub read_schema_version : Act ℕ
read_schema_version = do
  store ← stored
  pure (unwrap_or store.schema_version current_schema_version)

unfoldable pub validate_admins_and_threshold : List Address → ℕ → Act (Unit {0})
validate_admins_and_threshold = validate_set invalid_threshold zero_address invalid_admin

unfoldable pub write_admins : List Address → ℕ → Act (Unit {0})
write_admins admins n = do
  validate_admins_and_threshold admins n
  write λ store. record store { admins = some admins; threshold = some n }

unfoldable pub read_governance : Act Address
read_governance = do bump_instance; store ← stored; get_or_fail store.governance not_initialized

unfoldable pub read_recovery_address : Act Address
read_recovery_address = do
  bump_instance
  store ← stored
  get_or_fail store.recovery_address not_initialized

abbrev pub decode_recovery : RecoveryEntry → Act PendingRecovery
decode_recovery (pending p) = pure p
decode_recovery undecodable = fail recovery_not_pending

unfoldable pub read_pending_recovery : Act PendingRecovery
read_pending_recovery = do
  bump_instance
  store ← stored
  entry ← get_or_fail store.pending_recovery recovery_not_pending
  decode_recovery entry

abbrev pub validate_nonzero_address : Address → SettlementError → Act (Unit {0})
validate_nonzero_address address zero_error = refuse (is_zero_address address) zero_error

abbrev pub validate_governance : Address → Act (Unit {0})
validate_governance governance = validate_nonzero_address governance invalid_governance

abbrev pub is_merchant_registered_internal : Address → Act Bool
is_merchant_registered_internal merchant = do store ← stored; pure (store.merchants merchant)

unfoldable pub assert_payments_readable : Address → Act (Unit {0})
assert_payments_readable merchant = do
  registered ← is_merchant_registered_internal merchant
  require registered payment_orphaned
  store ← stored
  refuse (store.archived_merchants merchant) payment_orphaned

unfoldable pub is_merchant_registered_and_bump_ttl : Address → Act Bool
is_merchant_registered_and_bump_ttl merchant = do
  store ← stored
  when (store.merchants merchant) (extend_ttl (DataKey.merchant merchant) ttl_threshold ttl_bump)
  pure (store.merchants merchant)

abbrev pub payment_count : Store → Address → ℕ
payment_count store merchant = unwrap_or (store.payment_counts merchant) 0

abbrev pub read_payment_count : Address → Act ℕ
read_payment_count merchant = do store ← stored; pure (payment_count store merchant)

unfoldable pub increment_payment_count : Address → Act (Unit {0})
increment_payment_count merchant = do
  count ← read_payment_count merchant
  next ← add_checked 32 count 1
  write λ store. record store { payment_counts = update store.payment_counts merchant (some next) }
  extend_ttl (DataKey.payment_count merchant) ttl_threshold ttl_bump

-- `saturating_sub` on `u32` stops at 0, as `-` does.
unfoldable pub decrement_payment_count : Address → ℕ → Act (Unit {0})
decrement_payment_count merchant by = when (not (by == 0)) (do
  count ← read_payment_count merchant
  write λ store. record store {
    payment_counts = update store.payment_counts merchant (some (count - by));
  }
  extend_ttl (DataKey.payment_count merchant) ttl_threshold ttl_bump)

abbrev pub operation_count : Store → ℕ
operation_count store = unwrap_or store.pending_operation_count 0

-- `count.saturating_add(1)`
unfoldable pub increment_pending_operation_count : Act (Unit {0})
increment_pending_operation_count =
    write
      λ store. record store { pending_operation_count = some (min_u32 (operation_count store + 1)) }

unfoldable pub decrement_pending_operation_count : ℕ → Act (Unit {0})
decrement_pending_operation_count by =
    when (not (by == 0))
      (write λ store. record store { pending_operation_count = some (operation_count store - by) })

abbrev pub is_paused : Store → Bool
is_paused store = unwrap_or store.paused_flag false

abbrev pub assert_not_paused : Act (Unit {0})
assert_not_paused = do store ← stored; refuse (is_paused store) paused

module _ (h : Host) where
  unfoldable pub verify_admin_auth : List Address → ℕ → Act (Unit {0})
  verify_admin_auth signers required_count = do
    admins ← read_admins
    verify_quorum h.env unauthorized admins signers required_count

  -- `verify_admin_auth(env, signers, read_threshold(env))`
  unfoldable pub verify_admins : List Address → Act (Unit {0})
  verify_admins signers = do n ← read_threshold; verify_admin_auth signers n

  unfoldable pub assert_admin_and_not_paused : List Address → Act (Unit {0})
  assert_admin_and_not_paused signers = do assert_not_paused; verify_admins signers
