-- ===== src/Governance/Contract.antt =====
-- governance_contract/src/lib.rs: the entry points.
pub mod Effect
pub mod Invariant
pub mod Runs
pub mod Recoveries
pub mod Appointments
use text.Mathlib.Text.{◌==◌ as str_eq}
use betta_pay_contract.Base.{
  ℕ, ◌+◌, ◌==◌, ltb, ◌&&◌, ◌||◌, Bool, true, false, Option, none, some, List, [], ◌∷◌, update,
  is_some, if◌then◌else◌,
}
use betta_pay_contract.Base.Int.{ℤ, pos, ltb_ℤ}
use betta_pay_contract.Base.Lists.{length, same}
use betta_pay_contract.Base.Ledger.{
  Call, pure, ◌>>=◌, ◌>>◌, refuse, require, first, when, add_checked, stored, write, publish,
  extend_ttl,
}
use betta_pay_contract.Common.Constants.{
  bps_denominator, min_fee_bps, max_fee_bps, recovery_delay_seconds, pause_reason_none,
  ttl_threshold_ledgers, ttl_bump_ledgers,
}
use betta_pay_contract.Common.Env.{
  Env, Address, Hash, Symbol, require_auth, probe_supports_interface,
}
use betta_pay_contract.Common.Auth.{require_auth_each}
use betta_pay_contract.Common.Recovery.{RecoveryEntry}
use betta_pay_contract.Governance.State.{
  FeeConfig, DataKey, Store, Event, Act, already_initialized, invalid_recovery_address,
  invalid_admin, invalid_threshold, same_admin, already_paused, already_unpaused,
  recovery_already_pending, recovery_delay_active, invalid_wasm_interface, invalid_fee_bps,
  invalid_param_value, anchor_missing,
}
use betta_pay_contract.Governance.Storage.{
  current_schema_version, read_admins, read_threshold, validate_admins_and_threshold,
  read_recovery_address, read_pending_recovery, run_migrations, read_optional_admins,
  assert_not_zero, is_paused, assert_not_paused, verify_admin_auth, verify_admins,
  assert_admin_and_not_paused,
}

abbrev pub bypass_gov_fees_param : Symbol
bypass_gov_fees_param = "bypass_gov_fees"

abbrev set_paused : Bool → Act (Unit {0})
set_paused value = write λ s. record s { paused_flag = some value }

abbrev apply_pause : Address → ℕ → Act (Unit {0})
apply_pause admin reason = do set_paused true; publish (Event.paused admin true reason)

abbrev apply_unpause : Address → Act (Unit {0})
apply_unpause admin = do set_paused false; publish (Event.unpaused admin false)

abbrev pub is_initiator : List Address → Address → Bool
is_initiator (signer ∷ []) initiator = signer == initiator
is_initiator _ initiator = false

abbrev pub set_param : (Symbol → Option ℤ) → Symbol → ℤ → Symbol → Option ℤ
set_param params key value k = if str_eq k key then some value else params k

unfoldable pub get_system_param : Symbol → Act (Option ℤ)
get_system_param key = do
  store ← stored
  when (is_some (store.system_params key))
      (extend_ttl (DataKey.system_param key) ttl_threshold_ledgers ttl_bump_ledgers)
  pure (store.system_params key)

unfoldable pub get_fee_config : Act (Option FeeConfig)
get_fee_config = do store ← stored; pure store.fee_config

unfoldable pub get_anchor : Address → Act (Option Address)
get_anchor asset = do
  store ← stored
  when (is_some (store.anchors asset))
      (extend_ttl (DataKey.anchor asset) ttl_threshold_ledgers ttl_bump_ledgers)
  pure (store.anchors asset)

module _ (env : Env) where
  unfoldable pub init : Address → List Address → ℕ → Address → Act (Unit {0})
  init deployer admins threshold recovery_address = do
    store ← stored
    refuse (is_some store.admins) already_initialized
    require_auth env deployer
    validate_admins_and_threshold admins threshold
    assert_not_zero recovery_address invalid_recovery_address
    require_auth_each env admins
    write λ s. record s { deployer = some deployer }
    write λ s. record s { admins = some admins }
    write λ s. record s { threshold = some threshold }
    write λ s. record s { recovery_address = some recovery_address }
    write λ s. record s { schema_version = some current_schema_version }
    admin ← first admins
    publish (Event.initialized admin)

  unfoldable pub update_recovery_address : List Address → Address → Act (Unit {0})
  update_recovery_address signers new_recovery = do
    verify_admins env signers
    admin ← first signers
    assert_not_zero new_recovery invalid_recovery_address
    write λ s. record s { recovery_address = some new_recovery }
    publish (Event.recovery_address_updated new_recovery admin)

  unfoldable pub upgrade : List Address → Hash → Act (Unit {0})
  upgrade signers new_wasm_hash = do
    verify_admins env signers
    supports ← probe_supports_interface env new_wasm_hash 1
    require supports invalid_wasm_interface
    caller ← first signers
    publish (Event.contract_upgraded new_wasm_hash caller)
    write λ s. record s { wasm = new_wasm_hash }

  unfoldable pub initiate_recovery : Address → Act (Unit {0})
  initiate_recovery new_admin = do
    recovery ← read_recovery_address
    require_auth env recovery
    assert_not_zero new_admin invalid_admin
    store ← stored
    refuse (is_some store.pending_recovery) recovery_already_pending
    at ← add_checked 64 env.timestamp recovery_delay_seconds
    write λ s. record s {
      pending_recovery = some (
          RecoveryEntry.pending
            (record { new_admin = new_admin; execute_after = at; initiated_by = recovery }));
    }
    publish (Event.recovery_initiated recovery new_admin at)

  unfoldable pub cancel_recovery : List Address → Act (Unit {0})
  cancel_recovery signers = do
    recovery ← read_pending_recovery
    if is_initiator signers recovery.initiated_by
        then require_auth env recovery.initiated_by
        else verify_admins env signers
    canceller ← first signers
    write λ s. record s { pending_recovery = none }
    publish (Event.recovery_cancelled canceller)

  unfoldable pub execute_recovery : Act (Unit {0})
  execute_recovery = do
    recovery ← read_pending_recovery
    refuse (ltb env.timestamp recovery.execute_after) recovery_delay_active
    old_admins ← read_optional_admins
    let new_admins = recovery.new_admin ∷ []
    write λ s. record s { admins = some new_admins }
    write λ s. record s { threshold = some 1 }
    write λ s. record s { pending_recovery = none }
    publish (Event.recovery_executed old_admins new_admins)

  unfoldable pub transfer_admin : List Address → List Address → ℕ → Act (Unit {0})
  transfer_admin signers new_admins new_threshold = do
    old_threshold ← read_threshold
    verify_admin_auth env signers old_threshold
    validate_admins_and_threshold new_admins new_threshold
    old_admins ← read_admins
    refuse (same old_admins new_admins && old_threshold == new_threshold) same_admin
    write λ s. record s { admins = some new_admins }
    write λ s. record s { threshold = some new_threshold }
    publish (Event.admin_transferred old_admins new_admins)

  unfoldable pub change_threshold : List Address → ℕ → Act (Unit {0})
  change_threshold signers new_threshold = do
    admins ← read_admins
    refuse (new_threshold == 0 || ltb (length admins) new_threshold) invalid_threshold
    current_threshold ← read_threshold
    verify_admin_auth env signers current_threshold
    write λ s. record s { threshold = some new_threshold }
    publish (Event.threshold_changed current_threshold new_threshold)

  unfoldable pub pause : List Address → Act (Unit {0})
  pause signers = do
    verify_admins env signers
    store ← stored
    refuse (is_paused store) already_paused
    admin ← first signers
    apply_pause admin pause_reason_none

  unfoldable pub unpause : List Address → Act (Unit {0})
  unpause signers = do
    verify_admins env signers
    store ← stored
    require (is_paused store) already_unpaused
    admin ← first signers
    apply_unpause admin

  unfoldable pub migrate : List Address → Act (Unit {0})
  migrate signers = do
    assert_not_paused
    verify_admins env signers
    admin ← first signers
    run_migrations
    publish (Event.migrated admin current_schema_version)

  unfoldable pub update_system_param : List Address → Symbol → ℤ → Act (Unit {0})
  update_system_param signers key value = do
    assert_admin_and_not_paused env signers
    refuse (ltb_ℤ value (pos 0)) invalid_param_value
    refuse (str_eq key bypass_gov_fees_param && ltb_ℤ (pos 1) value) invalid_param_value
    admin ← first signers
    store ← stored
    write λ s. record s { system_params = set_param s.system_params key value }
    extend_ttl (DataKey.system_param key) ttl_threshold_ledgers ttl_bump_ledgers
    publish (Event.sys_param_updated key admin (store.system_params key) value)

  unfoldable pub set_fee_config : List Address → FeeConfig → Act (Unit {0})
  set_fee_config signers config = do
    assert_admin_and_not_paused env signers
    refuse
        (ltb platform min_fee_bps
          || ltb max_fee_bps platform
          || ltb network min_fee_bps
          || ltb max_fee_bps network)
        invalid_fee_bps
    sum ← add_checked 32 platform network
    refuse (ltb bps_denominator sum) invalid_fee_bps
    admin ← first signers
    write λ s. record s { fee_config = some config }
    publish (Event.fee_config_updated admin config)
    where
      open config use {platform_fee_bps as platform, network_fee_bps as network}

  unfoldable pub upsert_anchor : List Address → Address → Address → Act (Unit {0})
  upsert_anchor signers asset anchor = do
    assert_admin_and_not_paused env signers
    assert_not_zero asset invalid_admin
    assert_not_zero anchor invalid_admin
    refuse (asset == anchor) invalid_admin
    store ← stored
    write λ s. record s { anchors = update s.anchors asset (some anchor) }
    extend_ttl (DataKey.anchor asset) ttl_threshold_ledgers ttl_bump_ledgers
    publish (Event.anchor_upserted asset (store.anchors asset) anchor)

  unfoldable pub remove_anchor : List Address → Address → Act (Unit {0})
  remove_anchor signers asset = do
    assert_admin_and_not_paused env signers
    store ← stored
    require (is_some (store.anchors asset)) anchor_missing
    write λ s. record s { anchors = update s.anchors asset none }
    publish (Event.anchor_removed asset)
