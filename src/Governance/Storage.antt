-- ===== src/Governance/Storage.antt =====
-- governance_contract/src/lib.rs: the functions below the entry points.
use betta_pay_contract.Base.{ℕ, zero, suc, ◌-◌, Bool, false, some, List, unwrap_or}
use betta_pay_contract.Base.Ledger.{
  pure, ◌>>=◌, ◌>>◌, refuse, get_or_fail, fail, add_checked, stored, write, extend_instance_ttl,
}
use betta_pay_contract.Common.Constants.{read_instance_ttl_threshold, read_instance_ttl_bump}
use betta_pay_contract.Common.Env.{Env, Address, is_zero_address}
use betta_pay_contract.Common.Auth.{verify_quorum, validate_set}
use betta_pay_contract.Common.Recovery.{PendingRecovery, RecoveryEntry, pending, undecodable}
use betta_pay_contract.Governance.State.{
  Store, Act, GovernanceError, not_initialized, unauthorized, invalid_threshold, invalid_admin,
  paused, recovery_not_pending,
}

abbrev pub current_schema_version : ℕ
current_schema_version = 1

abbrev pub bump_instance : Act (Unit {0})
bump_instance = extend_instance_ttl read_instance_ttl_threshold read_instance_ttl_bump

unfoldable pub read_admins : Act (List Address)
read_admins = do bump_instance; store ← stored; get_or_fail store.admins not_initialized

unfoldable pub read_threshold : Act ℕ
read_threshold = do store ← stored; get_or_fail store.threshold not_initialized

-- A zero address among the admins is `InvalidAdmin` here, as a repeated one is.
unfoldable pub validate_admins_and_threshold : List Address → ℕ → Act (Unit {0})
validate_admins_and_threshold = validate_set invalid_threshold invalid_admin invalid_admin

unfoldable pub read_recovery_address : Act Address
read_recovery_address = do
  bump_instance
  store ← stored
  get_or_fail store.recovery_address not_initialized

abbrev decode_recovery : RecoveryEntry → Act PendingRecovery
decode_recovery (pending p) = pure p
decode_recovery undecodable = fail recovery_not_pending

unfoldable pub read_pending_recovery : Act PendingRecovery
read_pending_recovery = do
  store ← stored
  entry ← get_or_fail store.pending_recovery recovery_not_pending
  decode_recovery entry

unfoldable pub read_schema_version : Act ℕ
read_schema_version = do
  store ← stored
  pure (unwrap_or store.schema_version current_schema_version)

-- The loop of `run_migrations` over the versions left; a step converts no records.
unfoldable pub migrate_from : ℕ → ℕ → Act (Unit {0})
migrate_from zero version = pure tt
migrate_from (suc left) version = do
  next ← add_checked 32 version 1
  write λ store. record store { schema_version = some next }
  migrate_from left next

unfoldable pub run_migrations : Act (Unit {0})
run_migrations = do
  version ← read_schema_version
  migrate_from (current_schema_version - version) version

abbrev pub read_optional_admins : Act (List Address)
read_optional_admins = do store ← stored; pure (unwrap_or store.admins List.[])

abbrev pub assert_not_zero : Address → GovernanceError → Act (Unit {0})
assert_not_zero address error = refuse (is_zero_address address) error

abbrev pub is_paused : Store → Bool
is_paused store = unwrap_or store.paused_flag false

abbrev pub assert_not_paused : Act (Unit {0})
assert_not_paused = do store ← stored; refuse (is_paused store) paused

module _ (env : Env) where
  unfoldable pub verify_admin_auth : List Address → ℕ → Act (Unit {0})
  verify_admin_auth signers required_count = do
    admins ← read_admins
    verify_quorum env unauthorized admins signers required_count

  -- `verify_admin_auth(env, signers, read_threshold(env))`
  unfoldable pub verify_admins : List Address → Act (Unit {0})
  verify_admins signers = do n ← read_threshold; verify_admin_auth signers n

  unfoldable pub assert_admin_and_not_paused : List Address → Act (Unit {0})
  assert_admin_and_not_paused signers = do assert_not_paused; verify_admins signers
