-- ===== src/Settlement/Admin.antt =====
-- settlement_contract/src/admin.rs: initialisation, the admin set, recovery, upgrade, pause and
-- migration.
pub mod Effect
pub mod Lockout
pub mod Delay
pub mod Init
pub mod Liveness
pub mod Migration
use betta_pay_contract.Base.{
  ℕ, zero, suc, ◌+◌, ◌-◌, ◌==◌, ltb, ◌&&◌, ◌||◌, Bool, true, false, Option, none, some, List, [],
  ◌∷◌, is_some, unwrap_or, if◌then◌else◌, not,
}
use betta_pay_contract.Base.Lists.{length, same}
use betta_pay_contract.Base.Ledger.{
  Call, pure, ◌>>=◌, ◌>>◌, refuse, require, first, add_checked, stored, write, publish,
}
use betta_pay_contract.Common.Constants.{recovery_delay_seconds, max_pause_reason}
use betta_pay_contract.Common.Env.{Address, Hash, require_auth, probe_supports_interface}
use betta_pay_contract.Common.Auth.{require_auth_each}
use betta_pay_contract.Common.Recovery.{RecoveryEntry}
use betta_pay_contract.Settlement.Types.{
  DataKey, already_initialized, invalid_recovery_address, invalid_admin, recovery_already_pending,
  recovery_delay_active, same_admin, invalid_threshold, invalid_wasm_interface, already_paused,
  already_unpaused, invalid_pause_reason, supported_interface_version, current_schema_version,
}
use betta_pay_contract.Settlement.State.{Store, Event, Act, Host}
use betta_pay_contract.Settlement.Storage.{
  read_admins, read_optional_admins, read_threshold, read_schema_version, write_admins,
  validate_admins_and_threshold, read_governance, read_recovery_address, read_pending_recovery,
  validate_nonzero_address, validate_governance, is_paused, assert_not_paused, verify_admin_auth,
  verify_admins, assert_admin_and_not_paused, is_merchant_registered_internal, operation_count,
}

unfoldable pub supports_interface : ℕ → Bool
supports_interface version = version == supported_interface_version

-- The loop of `run_migrations` over the versions left; a step converts no records.
unfoldable pub migrate_from : ℕ → ℕ → Act (Unit {0})
migrate_from zero version = pure tt
migrate_from (suc left) version = do
  next ← add_checked 32 version 1
  write λ store. record store { schema_version = some next }
  migrate_from left next

unfoldable pub run_migrations : Act (Unit {0})
run_migrations = do
  version ← read_schema_version
  migrate_from (current_schema_version - version) version

abbrev is_initialized : Act Bool
is_initialized = do store ← stored; pure (is_some store.admins)

abbrev get_pending_operation_count : Act ℕ
get_pending_operation_count = do store ← stored; pure (operation_count store)

-- The loop that looks for a registered merchant among the new admins.
unfoldable pub refuse_merchants : List Address → Act (Unit {0})
refuse_merchants [] = pure tt
refuse_merchants (admin ∷ rest) = do
  registered ← is_merchant_registered_internal admin
  refuse registered invalid_admin
  refuse_merchants rest

-- The end of both transfers of the admin set, direct and timelocked.
unfoldable pub replace_admins : List Address → List Address → ℕ → Act (Unit {0})
replace_admins old_admins new_admins new_threshold = do
  refuse_merchants new_admins
  write_admins new_admins new_threshold
  publish (Event.admin_transferred old_admins new_admins)

abbrev set_paused : Bool → Act (Unit {0})
set_paused value = write λ s. record s { paused_flag = some value }

abbrev apply_pause : Address → ℕ → Act (Unit {0})
apply_pause admin reason = do set_paused true; publish (Event.paused admin true reason)

abbrev apply_unpause : Address → Act (Unit {0})
apply_unpause admin = do set_paused false; publish (Event.unpaused admin false)

abbrev pub is_initiator : List Address → Address → Bool
is_initiator (signer ∷ []) initiator = signer == initiator
is_initiator _ initiator = false

module _ (h : Host) where
  unfoldable pub init : Address → List Address → ℕ → Address → Address → Act (Unit {0})
  init deployer admins threshold governance recovery_address = do
    store ← stored
    refuse (is_some store.admins) already_initialized
    require_auth h.env deployer
    refuse store.initializing already_initialized
    validate_admins_and_threshold admins threshold
    write λ s. record s { initializing = true }
    validate_governance governance
    validate_nonzero_address recovery_address invalid_recovery_address
    require_auth_each h.env admins
    write λ s. record s { deployer = some deployer }
    write_admins admins threshold
    write λ s. record s { governance = some governance }
    write λ s. record s { recovery_address = some recovery_address }
    write λ s. record s { initializing = false }
    write λ s. record s { schema_version = some current_schema_version }

  unfoldable pub update_governance : List Address → Address → Act (Unit {0})
  update_governance signers new_governance = do
    assert_admin_and_not_paused h signers
    validate_governance new_governance
    admin ← first signers
    write λ s. record s { governance = some new_governance }
    publish (Event.governance_updated admin new_governance)

  unfoldable pub initiate_recovery : Address → Act (Unit {0})
  initiate_recovery new_admin = do
    recovery ← read_recovery_address
    require_auth h.env recovery
    validate_nonzero_address new_admin invalid_admin
    store ← stored
    refuse (is_some store.pending_recovery) recovery_already_pending
    at ← add_checked 64 h.env.timestamp recovery_delay_seconds
    write λ s. record s {
      pending_recovery = some (
          RecoveryEntry.pending
            (record { new_admin = new_admin; execute_after = at; initiated_by = recovery }));
    }
    publish (Event.recovery_initiated recovery new_admin at)

  unfoldable pub cancel_recovery : List Address → Act (Unit {0})
  cancel_recovery signers = do
    recovery ← read_pending_recovery
    if is_initiator signers recovery.initiated_by
        then require_auth h.env recovery.initiated_by
        else verify_admins h signers
    canceller ← first signers
    write λ s. record s { pending_recovery = none }
    publish (Event.recovery_cancelled canceller)

  unfoldable pub update_recovery_address : List Address → Address → Act (Unit {0})
  update_recovery_address signers new_recovery = do
    verify_admins h signers
    admin ← first signers
    validate_nonzero_address new_recovery invalid_recovery_address
    write λ s. record s { recovery_address = some new_recovery }
    publish (Event.recovery_address_updated new_recovery admin)

  unfoldable pub execute_recovery : Act (Unit {0})
  execute_recovery = do
    recovery ← read_pending_recovery
    refuse (ltb h.env.timestamp recovery.execute_after) recovery_delay_active
    old_admins ← read_optional_admins
    let new_admins = recovery.new_admin ∷ []
    write_admins new_admins 1
    write λ s. record s { pending_recovery = none }
    publish (Event.recovery_executed old_admins new_admins)

  unfoldable pub transfer_admin : List Address → List Address → ℕ → Act (Unit {0})
  transfer_admin signers new_admins new_threshold = do
    verify_admins h signers
    validate_admins_and_threshold new_admins new_threshold
    old_admins ← read_admins
    old_threshold ← read_threshold
    refuse (same old_admins new_admins && old_threshold == new_threshold) same_admin
    replace_admins old_admins new_admins new_threshold

  unfoldable pub change_threshold : List Address → ℕ → Act (Unit {0})
  change_threshold signers new_threshold = do
    admins ← read_admins
    refuse (new_threshold == 0 || ltb (length admins) new_threshold) invalid_threshold
    current_threshold ← read_threshold
    refuse (new_threshold == current_threshold) same_admin
    needed ← add_checked 32 current_threshold 1
    verify_admin_auth h signers needed
    write λ s. record s { threshold = some new_threshold }
    caller ← first signers
    publish (Event.threshold_changed caller current_threshold new_threshold)

  unfoldable pub upgrade : List Address → Hash → Act (Unit {0})
  upgrade signers new_wasm_hash = do
    verify_admins h signers
    admin ← first signers
    supports ← probe_supports_interface h.env new_wasm_hash 1
    require supports invalid_wasm_interface
    publish (Event.contract_upgraded new_wasm_hash admin)
    write λ s. record s { wasm = new_wasm_hash }

  unfoldable pub pause : List Address → ℕ → Act (Unit {0})
  pause signers reason = do
    verify_admins h signers
    store ← stored
    refuse (is_paused store) already_paused
    refuse (ltb max_pause_reason reason) invalid_pause_reason
    admin ← first signers
    apply_pause admin reason

  unfoldable pub unpause : List Address → Act (Unit {0})
  unpause signers = do
    verify_admins h signers
    store ← stored
    require (is_paused store) already_unpaused
    admin ← first signers
    apply_unpause admin

  unfoldable pub migrate : List Address → Act (Unit {0})
  migrate signers = do
    verify_admins h signers
    assert_not_paused
    admin ← first signers
    run_migrations
    publish (Event.migrated admin current_schema_version)
