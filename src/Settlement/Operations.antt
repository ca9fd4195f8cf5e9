-- ===== src/Settlement/Operations.antt =====
-- settlement_contract/src/admin.rs: the arms of `execute`, one for each kind of operation. None of
-- them checks the caller: the admins have agreed to the operation when they scheduled it.
pub mod Effect
use betta_pay_contract.Base.{
  ℕ, ◌+◌, ◌^◌, ◌==◌, ltb, ◌&&◌, ◌||◌, Bool, true, false, not, Option, none, some, List, [], ◌∷◌,
  is_some, unwrap_or, if◌then◌else◌,
}
use betta_pay_contract.Base.Lists.{length, same}
use betta_pay_contract.Base.Dict.{Dict, get, set, delete}
use betta_pay_contract.Base.Ledger.{
  Call, pure, ◌>>=◌, ◌>>◌, refuse, require, fail, get_or_fail, first, when, add_checked, stored,
  write, publish, extend_ttl,
}
use betta_pay_contract.Common.Constants.{bps_denominator, min_fee_bps, max_fee_bps}
use betta_pay_contract.Common.Rule.{SettlementRule}
use betta_pay_contract.Common.Env.{Address, Hash, Bytes, probe_supports_interface}
use betta_pay_contract.Settlement.Types.{
  Operation, ScheduledOp, DataKey, execution_not_ready, execution_delay_too_long, invalid_threshold,
  invalid_settlement_delay, payload_too_large, operation_already_scheduled,
  operation_hash_collision, operation_not_scheduled, recovery_delay_active, recovery_not_pending,
  batch_too_large, invalid_wasm_interface, zero_address, merchant_missing, merchant_rule_not_set,
  invalid_fee_bps, min_timelock_delay_seconds, max_timelock_delay_seconds,
  max_settlement_delay_ledger, max_scheduled_operation_payload_len, max_cancel_all_batch,
  supported_interface_version, bootstrap_default_rule, ttl_threshold, ttl_bump,
}
use betta_pay_contract.Settlement.State.{Store, Event, Act, Host}
use betta_pay_contract.Settlement.Storage.{
  read_admins, write_admins, validate_admins_and_threshold, validate_nonzero_address,
  validate_governance, assert_not_paused, verify_admins, assert_admin_and_not_paused,
  is_merchant_registered_and_bump_ttl, increment_pending_operation_count,
  decrement_pending_operation_count,
}
use betta_pay_contract.Settlement.Fees.{
  validate_fee_against_governance, read_rule_or_default, assert_governance_reachable,
}
use betta_pay_contract.Settlement.Rules.{with_rule, write_rule, write_default}
use betta_pay_contract.Settlement.Merchant.{refuse_admin, add_merchant, remove_merchant}
use betta_pay_contract.Settlement.Admin.{replace_admins}

-- The bounds as the timelocked setters write them: the sum is unchecked `u32` addition.
unfoldable pub check_rule_bounds : SettlementRule → Act (Unit {0})
check_rule_bounds rule = do
  refuse (ltb bps_denominator platform || ltb bps_denominator network) invalid_fee_bps
  refuse (ltb platform min_fee_bps || ltb network min_fee_bps) invalid_fee_bps
  refuse (ltb max_fee_bps platform || ltb max_fee_bps network) invalid_fee_bps
  sum ← add_checked 32 platform network
  refuse (ltb bps_denominator sum) invalid_fee_bps
  refuse (ltb max_settlement_delay_ledger rule.settlement_delay_ledger) invalid_settlement_delay
  where
    open rule use {platform_fee_bps as platform, network_fee_bps as network}

module _ (h : Host) where
  -- The arms of `execute`.
  unfoldable pub run_update_governance : Address → Address → Act (Unit {0})
  run_update_governance executor new_governance = do
    assert_not_paused
    validate_governance new_governance
    write λ s. record s { governance = some new_governance }
    publish (Event.governance_updated executor new_governance)

  unfoldable pub run_cancel_recovery : Address → Act (Unit {0})
  run_cancel_recovery executor = do
    store ← stored
    require (is_some store.pending_recovery) recovery_not_pending
    write λ s. record s { pending_recovery = none }
    publish (Event.recovery_cancelled executor)

  unfoldable pub run_transfer_admin : List Address → ℕ → Act (Unit {0})
  run_transfer_admin new_admins new_threshold = do
    old_admins ← read_admins
    validate_admins_and_threshold new_admins new_threshold
    replace_admins old_admins new_admins new_threshold

  unfoldable pub run_upgrade : Address → Hash → Act (Unit {0})
  run_upgrade executor new_wasm_hash = do
    refuse (new_wasm_hash == 0) invalid_wasm_interface
    assert_not_paused
    supports ← probe_supports_interface h.env new_wasm_hash supported_interface_version
    require supports invalid_wasm_interface
    publish (Event.contract_upgraded new_wasm_hash executor)
    write λ s. record s { wasm = new_wasm_hash }

  unfoldable pub run_register_merchant : Address → Address → Act (Unit {0})
  run_register_merchant executor merchant = do
    assert_not_paused
    validate_nonzero_address merchant zero_address
    refuse_admin merchant
    add_merchant merchant
    publish (Event.merchant_registered merchant executor)

  unfoldable pub run_unregister_merchant : Address → Address → Act (Unit {0})
  run_unregister_merchant executor merchant = do
    assert_not_paused
    remove_merchant h merchant executor

  unfoldable pub run_set_settlement_rule : Address → Address → SettlementRule → Act (Unit {0})
  run_set_settlement_rule executor merchant rule = do
    assert_not_paused
    validate_fee_against_governance h rule
    registered ← is_merchant_registered_and_bump_ttl merchant
    require registered merchant_missing
    check_rule_bounds rule
    write_rule h executor merchant rule

  unfoldable pub run_clear_settlement_rule : Address → Address → Act (Unit {0})
  run_clear_settlement_rule executor merchant = do
    assert_not_paused
    store ← stored
    removed ← get_or_fail (store.rules merchant) merchant_rule_not_set
    write (with_rule merchant none)
    fallback ← read_rule_or_default h merchant
    publish (Event.settlement_rule_cleared merchant executor removed fallback)

  unfoldable pub run_set_default_rule : Address → SettlementRule → Act (Unit {0})
  run_set_default_rule executor new_rule = do
    assert_not_paused
    validate_fee_against_governance h new_rule
    check_rule_bounds new_rule
    write_default executor new_rule

  -- The `match` of `execute`.
  unfoldable pub run_operation : Address → Operation → Act (Unit {0})
  run_operation executor (Operation.update_governance g) = run_update_governance executor g
  run_operation executor Operation.cancel_recovery = run_cancel_recovery executor
  run_operation executor (Operation.transfer_admin admins t) = run_transfer_admin admins t
  run_operation executor (Operation.upgrade hash) = run_upgrade executor hash
  run_operation executor (Operation.register_merchant m) = run_register_merchant executor m
  run_operation executor (Operation.unregister_merchant m) = run_unregister_merchant executor m
  run_operation executor (Operation.set_settlement_rule m r) = run_set_settlement_rule executor m r
  run_operation executor (Operation.clear_settlement_rule m) = run_clear_settlement_rule executor m
  run_operation executor (Operation.set_default_rule r) = run_set_default_rule executor r
