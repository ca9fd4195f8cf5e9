-- ===== src/Settlement/Timelock.antt =====
-- settlement_contract/src/admin.rs: the timelock. An operation is scheduled by the admins, and
-- anyone may execute it when its delay has passed.
pub mod Effect
pub mod Safety
pub mod Batch
pub mod Count
pub mod Success
pub mod Liveness
use betta_pay_contract.Base.{
  ℕ, ◌+◌, ◌^◌, ◌==◌, ltb, ◌&&◌, ◌||◌, Bool, true, false, not, Option, none, some, List, [], ◌∷◌,
  is_some, unwrap_or, if◌then◌else◌,
}
use betta_pay_contract.Base.Lists.{length, same}
use betta_pay_contract.Base.Dict.{Dict, get, set, delete}
use betta_pay_contract.Base.Ledger.{
  Call, pure, ◌>>=◌, ◌>>◌, refuse, require, fail, get_or_fail, first, when, add_checked, stored,
  write, publish, extend_ttl,
}
use betta_pay_contract.Common.Constants.{bps_denominator, min_fee_bps, max_fee_bps}
use betta_pay_contract.Common.Rule.{SettlementRule}
use betta_pay_contract.Common.Env.{Address, Hash, Bytes, probe_supports_interface}
use betta_pay_contract.Settlement.Types.{
  Operation, ScheduledOp, DataKey, execution_not_ready, execution_delay_too_long, invalid_threshold,
  invalid_settlement_delay, payload_too_large, operation_already_scheduled,
  operation_hash_collision, operation_not_scheduled, recovery_delay_active, recovery_not_pending,
  batch_too_large, invalid_wasm_interface, zero_address, merchant_missing, merchant_rule_not_set,
  invalid_fee_bps, min_timelock_delay_seconds, max_timelock_delay_seconds,
  max_settlement_delay_ledger, max_scheduled_operation_payload_len, max_cancel_all_batch,
  supported_interface_version, bootstrap_default_rule, ttl_threshold, ttl_bump,
}
use betta_pay_contract.Settlement.State.{Store, Event, Act, Host}
use betta_pay_contract.Settlement.Storage.{
  read_admins, write_admins, validate_admins_and_threshold, validate_nonzero_address,
  validate_governance, assert_not_paused, verify_admins, assert_admin_and_not_paused,
  is_merchant_registered_and_bump_ttl, increment_pending_operation_count,
  decrement_pending_operation_count,
}
use betta_pay_contract.Settlement.Fees.{
  validate_fee_against_governance, read_rule_or_default, assert_governance_reachable,
}
use betta_pay_contract.Settlement.Rules.{or_effective_rule, with_rule}
use betta_pay_contract.Settlement.Merchant.{refuse_admin, add_merchant, remove_merchant}
use betta_pay_contract.Settlement.Operations.{run_operation}

abbrev pub is_cancel_recovery : Operation → Bool
is_cancel_recovery Operation.cancel_recovery = true
is_cancel_recovery _ = false

-- The checks of `schedule` on two kinds of operation.
abbrev check_operation : Operation → Act (Unit {0})
check_operation (Operation.transfer_admin new_admins t) =
    refuse (t == 0 || ltb (length new_admins) t) invalid_threshold
check_operation (Operation.set_settlement_rule _ r) =
    refuse (ltb max_settlement_delay_ledger r.settlement_delay_ledger) invalid_settlement_delay
check_operation _ = pure tt

-- A slot that is taken is refused, with an error that says whether the content is the same.
abbrev refuse_taken : Option ScheduledOp → Bytes → Act (Unit {0})
refuse_taken none operation_xdr = pure tt
refuse_taken (some existing) operation_xdr =
    if same existing.operation_xdr operation_xdr
    then fail operation_already_scheduled
    else fail operation_hash_collision

-- `timestamp().checked_add(execute_in)`
abbrev time_after : ℕ → ℕ → Option ℕ
time_after now delay = if ltb (now + delay) (2 ^ 64) then some (now + delay) else none

abbrev pub with_scheduled : (Dict ScheduledOp → Dict ScheduledOp) → Store → Store
with_scheduled f store = record store { scheduled = f store.scheduled }

unfoldable pub consume_scheduled_operation : Hash → Act (Unit {0})
consume_scheduled_operation key = do
  write (with_scheduled (λ d. delete d key))
  decrement_pending_operation_count 1

abbrev pub cancels : Bytes → Option ScheduledOp → Bool
cancels operation_xdr none = false
cancels operation_xdr (some entry) = same entry.operation_xdr operation_xdr

module _ (h : Host) where
  abbrev pub hash_of : Operation → Hash
  hash_of operation = h.sha256 (h.to_xdr operation)

  unfoldable pub schedule : List Address → Operation → ℕ → Act (Unit {0})
  schedule signers operation execute_in = do
    assert_admin_and_not_paused h signers
    caller ← first signers
    refuse (execute_in == 0) execution_not_ready
    refuse (ltb execute_in min_timelock_delay_seconds) execution_not_ready
    refuse (ltb max_timelock_delay_seconds execute_in) execution_delay_too_long
    check_operation operation
    let operation_xdr = h.to_xdr operation
    refuse (ltb max_scheduled_operation_payload_len (length operation_xdr)) payload_too_large
    assert_governance_reachable h
    let op_hash = h.sha256 operation_xdr
    store ← stored
    refuse_taken (get store.scheduled op_hash) operation_xdr
    at ← get_or_fail (time_after h.env.timestamp execute_in) execution_delay_too_long
    let entry : ScheduledOp = record { operation_xdr = operation_xdr; execute_at = at }
    write (with_scheduled (λ d. set d op_hash entry))
    extend_ttl (DataKey.scheduled_operation op_hash) ttl_threshold ttl_bump
    increment_pending_operation_count
    publish (Event.op_scheduled op_hash caller at)

  unfoldable pub validate_scheduled_execution : Operation → Act Hash
  validate_scheduled_execution operation = do
    assert_not_paused
    let operation_xdr = h.to_xdr operation
    let op_hash = h.sha256 operation_xdr
    store ← stored
    entry ← get_or_fail (get store.scheduled op_hash) operation_not_scheduled
    require (same entry.operation_xdr operation_xdr) operation_not_scheduled
    refuse (ltb h.env.timestamp entry.execute_at) execution_not_ready
    refuse (is_some store.pending_recovery && not (is_cancel_recovery operation))
        recovery_delay_active
    pure op_hash

  unfoldable pub execute : Address → Operation → Act (Unit {0})
  execute executor operation = do
    op_hash ← validate_scheduled_execution operation
    consume_scheduled_operation op_hash
    run_operation h executor operation
    publish (Event.op_executed op_hash)

  unfoldable pub dry_run : Operation → Act (Unit {0})
  dry_run operation = do _ ← validate_scheduled_execution operation; pure tt

  unfoldable pub cancel : List Address → Operation → Act (Unit {0})
  cancel signers operation = do
    verify_admins h signers
    assert_not_paused
    caller ← first signers
    let operation_xdr = h.to_xdr operation
    let op_hash = h.sha256 operation_xdr
    store ← stored
    entry ← get_or_fail (get store.scheduled op_hash) operation_not_scheduled
    require (same entry.operation_xdr operation_xdr) operation_not_scheduled
    consume_scheduled_operation op_hash
    publish (Event.op_cancelled op_hash caller)

  -- The loop of `cancel_all`, with the number cancelled so far.
  unfoldable pub cancel_each : List Operation → ℕ → Act ℕ
  cancel_each [] cancelled = pure cancelled
  cancel_each (operation ∷ operations) cancelled = do
    store ← stored
    let hit = cancels (h.to_xdr operation) (get store.scheduled (hash_of operation))
    when hit (consume_scheduled_operation (hash_of operation))
    next ← (if hit then add_checked 32 cancelled 1 else pure cancelled)
    cancel_each operations next

  unfoldable pub cancel_all : List Address → List Operation → Act ℕ
  cancel_all signers operations = do
    verify_admins h signers
    assert_not_paused
    caller ← first signers
    refuse (ltb max_cancel_all_batch (length operations)) batch_too_large
    cancelled ← cancel_each operations 0
    publish (Event.ops_cancelled caller cancelled)
    pure cancelled
