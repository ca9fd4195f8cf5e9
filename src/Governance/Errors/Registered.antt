-- ===== src/Governance/Errors/Registered.antt =====
-- The error codes of governance_contract/src/lib.rs: they are pinned to the registry, and each names one error.
use betta_pay_contract.Base.{ℕ, ◌≡◌, refl, ◌==◌, true, some, if◌then◌else◌, ap, sym, ◌∙◌}
use betta_pay_contract.Common.Codes.{find_code, assert_no_code_collisions, governance_range_start}
use betta_pay_contract.Governance.State.{GovernanceError}
use betta_pay_contract.Governance.Errors.{error_code, error_name, asserted, error_table}

-- The assertions of the constant block hold.
pub asserted_lem : (error : GovernanceError) → asserted error ≡ true
unfolding asserted error_code
asserted_lem GovernanceError.already_initialized = refl
asserted_lem GovernanceError.not_initialized = refl
asserted_lem GovernanceError.unauthorized = refl
asserted_lem GovernanceError.invalid_fee_bps = refl
asserted_lem GovernanceError.paused = refl
asserted_lem GovernanceError.invalid_admin = refl
asserted_lem GovernanceError.invalid_recovery_address = refl
asserted_lem GovernanceError.recovery_not_pending = refl
asserted_lem GovernanceError.recovery_delay_active = refl
asserted_lem GovernanceError.invalid_wasm_interface = refl
asserted_lem GovernanceError.invalid_threshold = refl
asserted_lem GovernanceError.recovery_already_pending = refl
asserted_lem GovernanceError.anchor_missing = refl
asserted_lem GovernanceError.invalid_param_value = refl
asserted_lem GovernanceError.already_paused = refl
asserted_lem GovernanceError.already_unpaused = refl
asserted_lem GovernanceError.same_admin = refl

-- The table lists every error with its name under its code.
pub find_code-error_table :
    (error : GovernanceError) → find_code error_table (error_code error) ≡ some (error_name error)
unfolding error_table error_code
find_code-error_table GovernanceError.already_initialized = refl
find_code-error_table GovernanceError.not_initialized = refl
find_code-error_table GovernanceError.unauthorized = refl
find_code-error_table GovernanceError.invalid_fee_bps = refl
find_code-error_table GovernanceError.paused = refl
find_code-error_table GovernanceError.invalid_admin = refl
find_code-error_table GovernanceError.invalid_recovery_address = refl
find_code-error_table GovernanceError.recovery_not_pending = refl
find_code-error_table GovernanceError.recovery_delay_active = refl
find_code-error_table GovernanceError.invalid_wasm_interface = refl
find_code-error_table GovernanceError.invalid_threshold = refl
find_code-error_table GovernanceError.recovery_already_pending = refl
find_code-error_table GovernanceError.anchor_missing = refl
find_code-error_table GovernanceError.invalid_param_value = refl
find_code-error_table GovernanceError.already_paused = refl
find_code-error_table GovernanceError.already_unpaused = refl
find_code-error_table GovernanceError.same_admin = refl

-- The table passes the check against the registry.
pub error_table_passes : assert_no_code_collisions error_table governance_range_start ≡ true
unfolding assert_no_code_collisions error_table error_code error_name
error_table_passes = refl

-- The error of a code; a number that is no code counts as the first.
error_of : ℕ → GovernanceError
error_of code =
    if code == 2
    then GovernanceError.not_initialized
    else if code == 3
    then GovernanceError.unauthorized
    else if code == 4
    then GovernanceError.invalid_fee_bps
    else if code == 5
    then GovernanceError.paused
    else if code == 6
    then GovernanceError.invalid_admin
    else if code == 7
    then GovernanceError.invalid_recovery_address
    else if code == 8
    then GovernanceError.recovery_not_pending
    else if code == 9
    then GovernanceError.recovery_delay_active
    else if code == 13
    then GovernanceError.invalid_wasm_interface
    else if code == 14
    then GovernanceError.invalid_threshold
    else if code == 15
    then GovernanceError.recovery_already_pending
    else if code == 200
    then GovernanceError.anchor_missing
    else if code == 201
    then GovernanceError.invalid_param_value
    else if code == 17
    then GovernanceError.already_paused
    else if code == 16
    then GovernanceError.already_unpaused
    else if code == 18
    then GovernanceError.same_admin
    else GovernanceError.already_initialized

error_of-error_code : (error : GovernanceError) → error_of (error_code error) ≡ error
unfolding error_of error_code
error_of-error_code GovernanceError.already_initialized = refl
error_of-error_code GovernanceError.not_initialized = refl
error_of-error_code GovernanceError.unauthorized = refl
error_of-error_code GovernanceError.invalid_fee_bps = refl
error_of-error_code GovernanceError.paused = refl
error_of-error_code GovernanceError.invalid_admin = refl
error_of-error_code GovernanceError.invalid_recovery_address = refl
error_of-error_code GovernanceError.recovery_not_pending = refl
error_of-error_code GovernanceError.recovery_delay_active = refl
error_of-error_code GovernanceError.invalid_wasm_interface = refl
error_of-error_code GovernanceError.invalid_threshold = refl
error_of-error_code GovernanceError.recovery_already_pending = refl
error_of-error_code GovernanceError.anchor_missing = refl
error_of-error_code GovernanceError.invalid_param_value = refl
error_of-error_code GovernanceError.already_paused = refl
error_of-error_code GovernanceError.already_unpaused = refl
error_of-error_code GovernanceError.same_admin = refl

pub error_code_injective :
    (error other : GovernanceError) → error_code error ≡ error_code other → error ≡ other
error_code_injective error other e =
    sym (error_of-error_code error) ∙ ap error_of e ∙ error_of-error_code other
