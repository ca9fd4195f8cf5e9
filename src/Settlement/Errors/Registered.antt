-- ===== src/Settlement/Errors/Registered.antt =====
-- The error codes of settlement_contract/src/errors.rs: they are pinned to the registry, and each names one error.
use betta_pay_contract.Base.{ℕ, ◌≡◌, refl, ◌==◌, true, some, if◌then◌else◌, ap, sym, ◌∙◌}
use betta_pay_contract.Common.Codes.{find_code, assert_no_code_collisions, settlement_range_start}
use betta_pay_contract.Settlement.Types.{SettlementError}
use betta_pay_contract.Settlement.Errors.{error_code, error_name, asserted, error_table}

-- The assertions of the constant block hold.
pub asserted_lem : (error : SettlementError) → asserted error ≡ true
unfolding asserted error_code
asserted_lem SettlementError.already_initialized = refl
asserted_lem SettlementError.not_initialized = refl
asserted_lem SettlementError.unauthorized = refl
asserted_lem SettlementError.invalid_fee_bps = refl
asserted_lem SettlementError.paused = refl
asserted_lem SettlementError.invalid_admin = refl
asserted_lem SettlementError.invalid_recovery_address = refl
asserted_lem SettlementError.recovery_not_pending = refl
asserted_lem SettlementError.recovery_delay_active = refl
asserted_lem SettlementError.execution_not_ready = refl
asserted_lem SettlementError.operation_not_scheduled = refl
asserted_lem SettlementError.operation_already_scheduled = refl
asserted_lem SettlementError.invalid_wasm_interface = refl
asserted_lem SettlementError.invalid_threshold = refl
asserted_lem SettlementError.recovery_already_pending = refl
asserted_lem SettlementError.already_paused = refl
asserted_lem SettlementError.already_unpaused = refl
asserted_lem SettlementError.merchant_exists = refl
asserted_lem SettlementError.merchant_missing = refl
asserted_lem SettlementError.duplicate_payment_reference = refl
asserted_lem SettlementError.merchant_rule_not_set = refl
asserted_lem SettlementError.zero_address = refl
asserted_lem SettlementError.invalid_payment_reference = refl
asserted_lem SettlementError.invalid_settlement_delay = refl
asserted_lem SettlementError.invalid_governance = refl
asserted_lem SettlementError.amount_overflow = refl
asserted_lem SettlementError.governance_call_failed = refl
asserted_lem SettlementError.fee_exceeds_governance_config = refl
asserted_lem SettlementError.amount_too_small = refl
asserted_lem SettlementError.batch_too_large = refl
asserted_lem SettlementError.payment_orphaned = refl
asserted_lem SettlementError.operation_hash_collision = refl
asserted_lem SettlementError.admin_set_empty = refl
asserted_lem SettlementError.same_admin = refl
asserted_lem SettlementError.payload_too_large = refl
asserted_lem SettlementError.execution_delay_too_long = refl
asserted_lem SettlementError.invalid_pause_reason = refl

-- The table lists every error with its name under its code.
pub find_code-error_table :
    (error : SettlementError) → find_code error_table (error_code error) ≡ some (error_name error)
unfolding error_table error_code
find_code-error_table SettlementError.already_initialized = refl
find_code-error_table SettlementError.not_initialized = refl
find_code-error_table SettlementError.unauthorized = refl
find_code-error_table SettlementError.invalid_fee_bps = refl
find_code-error_table SettlementError.paused = refl
find_code-error_table SettlementError.invalid_admin = refl
find_code-error_table SettlementError.invalid_recovery_address = refl
find_code-error_table SettlementError.recovery_not_pending = refl
find_code-error_table SettlementError.recovery_delay_active = refl
find_code-error_table SettlementError.execution_not_ready = refl
find_code-error_table SettlementError.operation_not_scheduled = refl
find_code-error_table SettlementError.operation_already_scheduled = refl
find_code-error_table SettlementError.invalid_wasm_interface = refl
find_code-error_table SettlementError.invalid_threshold = refl
find_code-error_table SettlementError.recovery_already_pending = refl
find_code-error_table SettlementError.already_paused = refl
find_code-error_table SettlementError.already_unpaused = refl
find_code-error_table SettlementError.merchant_exists = refl
find_code-error_table SettlementError.merchant_missing = refl
find_code-error_table SettlementError.duplicate_payment_reference = refl
find_code-error_table SettlementError.merchant_rule_not_set = refl
find_code-error_table SettlementError.zero_address = refl
find_code-error_table SettlementError.invalid_payment_reference = refl
find_code-error_table SettlementError.invalid_settlement_delay = refl
find_code-error_table SettlementError.invalid_governance = refl
find_code-error_table SettlementError.amount_overflow = refl
find_code-error_table SettlementError.governance_call_failed = refl
find_code-error_table SettlementError.fee_exceeds_governance_config = refl
find_code-error_table SettlementError.amount_too_small = refl
find_code-error_table SettlementError.batch_too_large = refl
find_code-error_table SettlementError.payment_orphaned = refl
find_code-error_table SettlementError.operation_hash_collision = refl
find_code-error_table SettlementError.admin_set_empty = refl
find_code-error_table SettlementError.same_admin = refl
find_code-error_table SettlementError.payload_too_large = refl
find_code-error_table SettlementError.execution_delay_too_long = refl
find_code-error_table SettlementError.invalid_pause_reason = refl

-- The table passes the check against the registry.
pub error_table_passes : assert_no_code_collisions error_table settlement_range_start ≡ true
unfolding assert_no_code_collisions error_table error_code error_name
error_table_passes = refl

-- The error of a code; a number that is no code counts as the first.
error_of : ℕ → SettlementError
error_of code =
    if code == 2
    then SettlementError.not_initialized
    else if code == 3
    then SettlementError.unauthorized
    else if code == 4
    then SettlementError.invalid_fee_bps
    else if code == 5
    then SettlementError.paused
    else if code == 6
    then SettlementError.invalid_admin
    else if code == 7
    then SettlementError.invalid_recovery_address
    else if code == 8
    then SettlementError.recovery_not_pending
    else if code == 9
    then SettlementError.recovery_delay_active
    else if code == 10
    then SettlementError.execution_not_ready
    else if code == 11
    then SettlementError.operation_not_scheduled
    else if code == 12
    then SettlementError.operation_already_scheduled
    else if code == 13
    then SettlementError.invalid_wasm_interface
    else if code == 14
    then SettlementError.invalid_threshold
    else if code == 15
    then SettlementError.recovery_already_pending
    else if code == 17
    then SettlementError.already_paused
    else if code == 16
    then SettlementError.already_unpaused
    else if code == 300
    then SettlementError.merchant_exists
    else if code == 302
    then SettlementError.merchant_missing
    else if code == 303
    then SettlementError.duplicate_payment_reference
    else if code == 304
    then SettlementError.merchant_rule_not_set
    else if code == 306
    then SettlementError.zero_address
    else if code == 307
    then SettlementError.invalid_payment_reference
    else if code == 308
    then SettlementError.invalid_settlement_delay
    else if code == 309
    then SettlementError.invalid_governance
    else if code == 310
    then SettlementError.amount_overflow
    else if code == 311
    then SettlementError.governance_call_failed
    else if code == 312
    then SettlementError.fee_exceeds_governance_config
    else if code == 313
    then SettlementError.amount_too_small
    else if code == 314
    then SettlementError.batch_too_large
    else if code == 315
    then SettlementError.payment_orphaned
    else if code == 316
    then SettlementError.operation_hash_collision
    else if code == 317
    then SettlementError.admin_set_empty
    else if code == 18
    then SettlementError.same_admin
    else if code == 318
    then SettlementError.payload_too_large
    else if code == 319
    then SettlementError.execution_delay_too_long
    else if code == 320
    then SettlementError.invalid_pause_reason
    else SettlementError.already_initialized

error_of-error_code : (error : SettlementError) → error_of (error_code error) ≡ error
unfolding error_of error_code
error_of-error_code SettlementError.already_initialized = refl
error_of-error_code SettlementError.not_initialized = refl
error_of-error_code SettlementError.unauthorized = refl
error_of-error_code SettlementError.invalid_fee_bps = refl
error_of-error_code SettlementError.paused = refl
error_of-error_code SettlementError.invalid_admin = refl
error_of-error_code SettlementError.invalid_recovery_address = refl
error_of-error_code SettlementError.recovery_not_pending = refl
error_of-error_code SettlementError.recovery_delay_active = refl
error_of-error_code SettlementError.execution_not_ready = refl
error_of-error_code SettlementError.operation_not_scheduled = refl
error_of-error_code SettlementError.operation_already_scheduled = refl
error_of-error_code SettlementError.invalid_wasm_interface = refl
error_of-error_code SettlementError.invalid_threshold = refl
error_of-error_code SettlementError.recovery_already_pending = refl
error_of-error_code SettlementError.already_paused = refl
error_of-error_code SettlementError.already_unpaused = refl
error_of-error_code SettlementError.merchant_exists = refl
error_of-error_code SettlementError.merchant_missing = refl
error_of-error_code SettlementError.duplicate_payment_reference = refl
error_of-error_code SettlementError.merchant_rule_not_set = refl
error_of-error_code SettlementError.zero_address = refl
error_of-error_code SettlementError.invalid_payment_reference = refl
error_of-error_code SettlementError.invalid_settlement_delay = refl
error_of-error_code SettlementError.invalid_governance = refl
error_of-error_code SettlementError.amount_overflow = refl
error_of-error_code SettlementError.governance_call_failed = refl
error_of-error_code SettlementError.fee_exceeds_governance_config = refl
error_of-error_code SettlementError.amount_too_small = refl
error_of-error_code SettlementError.batch_too_large = refl
error_of-error_code SettlementError.payment_orphaned = refl
error_of-error_code SettlementError.operation_hash_collision = refl
error_of-error_code SettlementError.admin_set_empty = refl
error_of-error_code SettlementError.same_admin = refl
error_of-error_code SettlementError.payload_too_large = refl
error_of-error_code SettlementError.execution_delay_too_long = refl
error_of-error_code SettlementError.invalid_pause_reason = refl

pub error_code_injective :
    (error other : SettlementError) → error_code error ≡ error_code other → error ≡ other
error_code_injective error other e =
    sym (error_of-error_code error) ∙ ap error_of e ∙ error_of-error_code other
