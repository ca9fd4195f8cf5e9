-- ===== src/Settlement/Types.antt =====
-- settlement_contract/src/types.rs, errors.rs and policy.rs: the data types, the errors with their
-- codes, and the constants.
use betta_pay_contract.Base.{ℕ, ◌*◌, ◌/◌, Bool, false, Option, List}
use betta_pay_contract.Base.Int.{ℤ, pos}
use betta_pay_contract.Common.Constants.{ledgers_per_day, min_fee_bps}
use betta_pay_contract.Common.Rule.{SettlementRule}
use betta_pay_contract.Common.Env.{Address, Reference, Hash, Bytes}

pub record FeeSplit : Type 0 where
  pub gross_amount : ℤ
  pub platform_fee_amount : ℤ
  pub network_fee_amount : ℤ
  pub merchant_payout_amount : ℤ

pub data RuleProvenance : Type 0 where
  merchant default governance bootstrap : RuleProvenance

pub record EffectiveRule : Type 0 where
  pub rule : SettlementRule
  pub provenance : RuleProvenance

pub record PaymentRecord : Type 0 where
  pub merchant : Address
  pub amount : ℤ
  pub platform_fee_amount : ℤ
  pub network_fee_amount : ℤ
  pub merchant_payout_amount : ℤ
  pub platform_fee_bps : ℕ
  pub network_fee_bps : ℕ
  pub ledger : ℕ
  pub settlement_delay_ledger : ℕ
  pub auto_settle : Bool
  pub version : ℕ

pub record PaymentsPage : Type 0 where
  pub records : List PaymentRecord
  pub next_cursor : Option ℕ

pub record GovFeeConfig : Type 0 where
  pub platform_fee_bps : ℕ
  pub network_fee_bps : ℕ

pub record ScheduledOp : Type 0 where
  pub operation_xdr : Bytes
  pub execute_at : ℕ  -- u64

pub data Operation : Type 0 where
  update_governance : Address → Operation
  cancel_recovery : Operation
  transfer_admin : List Address → ℕ → Operation
  upgrade : Hash → Operation
  register_merchant unregister_merchant clear_settlement_rule : Address → Operation
  set_settlement_rule : Address → SettlementRule → Operation
  set_default_rule : SettlementRule → Operation

pub data DataKey : Type 0 where
  admin initializing governance default_rule deployer schema_version : DataKey
  cached_gov_rule pending_operation_count : DataKey
  merchant rule archived_merchant payment_count : Address → DataKey
  payment : Address → Reference → DataKey
  scheduled_operation : Hash → DataKey

pub data SettlementError : Type 0 where
  already_initialized not_initialized unauthorized invalid_fee_bps paused : SettlementError
  invalid_admin invalid_recovery_address recovery_not_pending : SettlementError
  recovery_delay_active execution_not_ready operation_not_scheduled : SettlementError
  operation_already_scheduled invalid_wasm_interface invalid_threshold : SettlementError
  recovery_already_pending already_paused already_unpaused merchant_exists : SettlementError
  merchant_missing duplicate_payment_reference merchant_rule_not_set : SettlementError
  zero_address invalid_payment_reference invalid_settlement_delay : SettlementError
  invalid_governance amount_overflow governance_call_failed : SettlementError
  fee_exceeds_governance_config amount_too_small batch_too_large : SettlementError
  payment_orphaned operation_hash_collision admin_set_empty same_admin : SettlementError
  payload_too_large execution_delay_too_long invalid_pause_reason : SettlementError

abbrev pub min_payment_amount : ℤ
min_payment_amount = pos 100

abbrev pub max_settlement_delay_ledger : ℕ
max_settlement_delay_ledger = 100_000

abbrev pub max_payments_batch : ℕ
max_payments_batch = 100

abbrev pub max_cancel_all_batch : ℕ
max_cancel_all_batch = 50

abbrev pub ttl_threshold : ℕ
ttl_threshold = ledgers_per_day * 14

abbrev pub ttl_bump : ℕ
ttl_bump = ledgers_per_day * 30

abbrev pub min_timelock_delay_seconds : ℕ
min_timelock_delay_seconds = 7 * 24 * 60 * 60

abbrev pub max_timelock_delay_seconds : ℕ
max_timelock_delay_seconds = (ttl_bump / ledgers_per_day) * 24 * 60 * 60

abbrev pub max_scheduled_operation_payload_len : ℕ
max_scheduled_operation_payload_len = 4096

abbrev pub supported_interface_version : ℕ
supported_interface_version = 1

abbrev pub current_schema_version : ℕ
current_schema_version = 1

abbrev pub bootstrap_default_rule : SettlementRule
bootstrap_default_rule = record {
  platform_fee_bps = 100;
  network_fee_bps = min_fee_bps;
  settlement_delay_ledger = 0;
  auto_settle = false;
}
