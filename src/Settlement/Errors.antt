-- ===== src/Settlement/Errors.antt =====
-- settlement_contract/src/errors.rs: the codes of the errors, and the assertions that pin them.
pub mod Registered
pub mod Agreement
use Prim.Native.String.{String}
use betta_pay_contract.Base.{ℕ, ◌==◌, leb, Bool, true, List, [], ◌∷◌}
use betta_pay_contract.Common.Codes as Codes
use betta_pay_contract.Settlement.Types.{SettlementError}

unfoldable pub error_code : SettlementError → ℕ
error_code SettlementError.already_initialized = 1
error_code SettlementError.not_initialized = 2
error_code SettlementError.unauthorized = 3
error_code SettlementError.invalid_fee_bps = 4
error_code SettlementError.paused = 5
error_code SettlementError.invalid_admin = 6
error_code SettlementError.invalid_recovery_address = 7
error_code SettlementError.recovery_not_pending = 8
error_code SettlementError.recovery_delay_active = 9
error_code SettlementError.execution_not_ready = 10
error_code SettlementError.operation_not_scheduled = 11
error_code SettlementError.operation_already_scheduled = 12
error_code SettlementError.invalid_wasm_interface = 13
error_code SettlementError.invalid_threshold = 14
error_code SettlementError.recovery_already_pending = 15
error_code SettlementError.already_paused = 17
error_code SettlementError.already_unpaused = 16
error_code SettlementError.merchant_exists = 300
error_code SettlementError.merchant_missing = 302
error_code SettlementError.duplicate_payment_reference = 303
error_code SettlementError.merchant_rule_not_set = 304
error_code SettlementError.zero_address = 306
error_code SettlementError.invalid_payment_reference = 307
error_code SettlementError.invalid_settlement_delay = 308
error_code SettlementError.invalid_governance = 309
error_code SettlementError.amount_overflow = 310
error_code SettlementError.governance_call_failed = 311
error_code SettlementError.fee_exceeds_governance_config = 312
error_code SettlementError.amount_too_small = 313
error_code SettlementError.batch_too_large = 314
error_code SettlementError.payment_orphaned = 315
error_code SettlementError.operation_hash_collision = 316
error_code SettlementError.admin_set_empty = 317
error_code SettlementError.same_admin = 18
error_code SettlementError.payload_too_large = 318
error_code SettlementError.execution_delay_too_long = 319
error_code SettlementError.invalid_pause_reason = 320

-- The name of the variant.
unfoldable pub error_name : SettlementError → String
error_name SettlementError.already_initialized = "AlreadyInitialized"
error_name SettlementError.not_initialized = "NotInitialized"
error_name SettlementError.unauthorized = "Unauthorized"
error_name SettlementError.invalid_fee_bps = "InvalidFeeBps"
error_name SettlementError.paused = "Paused"
error_name SettlementError.invalid_admin = "InvalidAdmin"
error_name SettlementError.invalid_recovery_address = "InvalidRecoveryAddress"
error_name SettlementError.recovery_not_pending = "RecoveryNotPending"
error_name SettlementError.recovery_delay_active = "RecoveryDelayActive"
error_name SettlementError.execution_not_ready = "ExecutionNotReady"
error_name SettlementError.operation_not_scheduled = "OperationNotScheduled"
error_name SettlementError.operation_already_scheduled = "OperationAlreadyScheduled"
error_name SettlementError.invalid_wasm_interface = "InvalidWasmInterface"
error_name SettlementError.invalid_threshold = "InvalidThreshold"
error_name SettlementError.recovery_already_pending = "RecoveryAlreadyPending"
error_name SettlementError.already_paused = "AlreadyPaused"
error_name SettlementError.already_unpaused = "AlreadyUnpaused"
error_name SettlementError.merchant_exists = "MerchantExists"
error_name SettlementError.merchant_missing = "MerchantMissing"
error_name SettlementError.duplicate_payment_reference = "DuplicatePaymentReference"
error_name SettlementError.merchant_rule_not_set = "MerchantRuleNotSet"
error_name SettlementError.zero_address = "ZeroAddress"
error_name SettlementError.invalid_payment_reference = "InvalidPaymentReference"
error_name SettlementError.invalid_settlement_delay = "InvalidSettlementDelay"
error_name SettlementError.invalid_governance = "InvalidGovernance"
error_name SettlementError.amount_overflow = "AmountOverflow"
error_name SettlementError.governance_call_failed = "GovernanceCallFailed"
error_name SettlementError.fee_exceeds_governance_config = "FeeExceedsGovernanceConfig"
error_name SettlementError.amount_too_small = "AmountTooSmall"
error_name SettlementError.batch_too_large = "BatchTooLarge"
error_name SettlementError.payment_orphaned = "PaymentOrphaned"
error_name SettlementError.operation_hash_collision = "OperationHashCollision"
error_name SettlementError.admin_set_empty = "AdminSetEmpty"
error_name SettlementError.same_admin = "SameAdmin"
error_name SettlementError.payload_too_large = "PayloadTooLarge"
error_name SettlementError.execution_delay_too_long = "ExecutionDelayTooLong"
error_name SettlementError.invalid_pause_reason = "InvalidPauseReason"

-- The assertion about the variant that stands in the constant block below the type.
unfoldable pub asserted : SettlementError → Bool
asserted SettlementError.already_initialized =
    error_code SettlementError.already_initialized == Codes.already_initialized
asserted SettlementError.not_initialized =
    error_code SettlementError.not_initialized == Codes.not_initialized
asserted SettlementError.unauthorized =
    error_code SettlementError.unauthorized == Codes.unauthorized
asserted SettlementError.invalid_fee_bps =
    error_code SettlementError.invalid_fee_bps == Codes.invalid_fee_bps
asserted SettlementError.paused = error_code SettlementError.paused == Codes.paused
asserted SettlementError.invalid_admin =
    error_code SettlementError.invalid_admin == Codes.invalid_admin
asserted SettlementError.invalid_recovery_address =
    error_code SettlementError.invalid_recovery_address == Codes.invalid_recovery_address
asserted SettlementError.recovery_not_pending =
    error_code SettlementError.recovery_not_pending == Codes.recovery_not_pending
asserted SettlementError.recovery_delay_active =
    error_code SettlementError.recovery_delay_active == Codes.recovery_delay_active
asserted SettlementError.execution_not_ready =
    error_code SettlementError.execution_not_ready == Codes.execution_not_ready
asserted SettlementError.operation_not_scheduled =
    error_code SettlementError.operation_not_scheduled == Codes.operation_not_scheduled
asserted SettlementError.operation_already_scheduled =
    error_code SettlementError.operation_already_scheduled == Codes.operation_already_scheduled
asserted SettlementError.invalid_wasm_interface =
    error_code SettlementError.invalid_wasm_interface == Codes.invalid_wasm_interface
asserted SettlementError.invalid_threshold =
    error_code SettlementError.invalid_threshold == Codes.invalid_threshold
asserted SettlementError.recovery_already_pending =
    error_code SettlementError.recovery_already_pending == Codes.recovery_already_pending
asserted SettlementError.already_paused =
    error_code SettlementError.already_paused == Codes.already_paused
asserted SettlementError.already_unpaused =
    error_code SettlementError.already_unpaused == Codes.already_unpaused
asserted SettlementError.merchant_exists =
    leb Codes.settlement_range_start (error_code SettlementError.merchant_exists)
asserted SettlementError.merchant_missing =
    leb Codes.settlement_range_start (error_code SettlementError.merchant_missing)
asserted SettlementError.duplicate_payment_reference =
    leb Codes.settlement_range_start (error_code SettlementError.duplicate_payment_reference)
asserted SettlementError.merchant_rule_not_set =
    leb Codes.settlement_range_start (error_code SettlementError.merchant_rule_not_set)
asserted SettlementError.zero_address =
    leb Codes.settlement_range_start (error_code SettlementError.zero_address)
asserted SettlementError.invalid_payment_reference =
    leb Codes.settlement_range_start (error_code SettlementError.invalid_payment_reference)
asserted SettlementError.invalid_settlement_delay =
    leb Codes.settlement_range_start (error_code SettlementError.invalid_settlement_delay)
asserted SettlementError.invalid_governance =
    leb Codes.settlement_range_start (error_code SettlementError.invalid_governance)
asserted SettlementError.amount_overflow =
    leb Codes.settlement_range_start (error_code SettlementError.amount_overflow)
asserted SettlementError.governance_call_failed =
    leb Codes.settlement_range_start (error_code SettlementError.governance_call_failed)
asserted SettlementError.fee_exceeds_governance_config =
    leb Codes.settlement_range_start (error_code SettlementError.fee_exceeds_governance_config)
asserted SettlementError.amount_too_small =
    leb Codes.settlement_range_start (error_code SettlementError.amount_too_small)
asserted SettlementError.batch_too_large =
    leb Codes.settlement_range_start (error_code SettlementError.batch_too_large)
asserted SettlementError.payment_orphaned =
    leb Codes.settlement_range_start (error_code SettlementError.payment_orphaned)
asserted SettlementError.operation_hash_collision =
    leb Codes.settlement_range_start (error_code SettlementError.operation_hash_collision)
asserted SettlementError.admin_set_empty =
    leb Codes.settlement_range_start (error_code SettlementError.admin_set_empty)
asserted SettlementError.same_admin = error_code SettlementError.same_admin == Codes.same_admin
asserted SettlementError.payload_too_large =
    leb Codes.settlement_range_start (error_code SettlementError.payload_too_large)
asserted SettlementError.execution_delay_too_long =
    leb Codes.settlement_range_start (error_code SettlementError.execution_delay_too_long)
asserted SettlementError.invalid_pause_reason =
    leb Codes.settlement_range_start (error_code SettlementError.invalid_pause_reason)

abbrev pub entry : SettlementError → String × ℕ
entry error = (error_name error, error_code error)

-- The table of all errors of the contract.
unfoldable pub error_table : List (String × ℕ)
error_table =
    entry SettlementError.already_initialized
    ∷ entry SettlementError.not_initialized
    ∷ entry SettlementError.unauthorized
    ∷ entry SettlementError.invalid_fee_bps
    ∷ entry SettlementError.paused
    ∷ entry SettlementError.invalid_admin
    ∷ entry SettlementError.invalid_recovery_address
    ∷ entry SettlementError.recovery_not_pending
    ∷ entry SettlementError.recovery_delay_active
    ∷ entry SettlementError.execution_not_ready
    ∷ entry SettlementError.operation_not_scheduled
    ∷ entry SettlementError.operation_already_scheduled
    ∷ entry SettlementError.invalid_wasm_interface
    ∷ entry SettlementError.invalid_threshold
    ∷ entry SettlementError.recovery_already_pending
    ∷ entry SettlementError.already_paused
    ∷ entry SettlementError.already_unpaused
    ∷ entry SettlementError.merchant_exists
    ∷ entry SettlementError.merchant_missing
    ∷ entry SettlementError.duplicate_payment_reference
    ∷ entry SettlementError.merchant_rule_not_set
    ∷ entry SettlementError.zero_address
    ∷ entry SettlementError.invalid_payment_reference
    ∷ entry SettlementError.invalid_settlement_delay
    ∷ entry SettlementError.invalid_governance
    ∷ entry SettlementError.amount_overflow
    ∷ entry SettlementError.governance_call_failed
    ∷ entry SettlementError.fee_exceeds_governance_config
    ∷ entry SettlementError.amount_too_small
    ∷ entry SettlementError.batch_too_large
    ∷ entry SettlementError.payment_orphaned
    ∷ entry SettlementError.operation_hash_collision
    ∷ entry SettlementError.admin_set_empty
    ∷ entry SettlementError.same_admin
    ∷ entry SettlementError.payload_too_large
    ∷ entry SettlementError.execution_delay_too_long
    ∷ entry SettlementError.invalid_pause_reason
    ∷ []
