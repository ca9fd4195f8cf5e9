-- ===== src/Governance/Errors.antt =====
-- governance_contract/src/lib.rs: the codes of the errors, and the assertions that pin them.
pub mod Registered
use Prim.Native.String.{String}
use betta_pay_contract.Base.{ℕ, ◌==◌, leb, Bool, true, List, [], ◌∷◌}
use betta_pay_contract.Common.Codes as Codes
use betta_pay_contract.Governance.State.{GovernanceError}

unfoldable pub error_code : GovernanceError → ℕ
error_code GovernanceError.already_initialized = 1
error_code GovernanceError.not_initialized = 2
error_code GovernanceError.unauthorized = 3
error_code GovernanceError.invalid_fee_bps = 4
error_code GovernanceError.paused = 5
error_code GovernanceError.invalid_admin = 6
error_code GovernanceError.invalid_recovery_address = 7
error_code GovernanceError.recovery_not_pending = 8
error_code GovernanceError.recovery_delay_active = 9
error_code GovernanceError.invalid_wasm_interface = 13
error_code GovernanceError.invalid_threshold = 14
error_code GovernanceError.recovery_already_pending = 15
error_code GovernanceError.anchor_missing = 200
error_code GovernanceError.invalid_param_value = 201
error_code GovernanceError.already_paused = 17
error_code GovernanceError.already_unpaused = 16
error_code GovernanceError.same_admin = 18

-- The name of the variant.
unfoldable pub error_name : GovernanceError → String
error_name GovernanceError.already_initialized = "AlreadyInitialized"
error_name GovernanceError.not_initialized = "NotInitialized"
error_name GovernanceError.unauthorized = "Unauthorized"
error_name GovernanceError.invalid_fee_bps = "InvalidFeeBps"
error_name GovernanceError.paused = "Paused"
error_name GovernanceError.invalid_admin = "InvalidAdmin"
error_name GovernanceError.invalid_recovery_address = "InvalidRecoveryAddress"
error_name GovernanceError.recovery_not_pending = "RecoveryNotPending"
error_name GovernanceError.recovery_delay_active = "RecoveryDelayActive"
error_name GovernanceError.invalid_wasm_interface = "InvalidWasmInterface"
error_name GovernanceError.invalid_threshold = "InvalidThreshold"
error_name GovernanceError.recovery_already_pending = "RecoveryAlreadyPending"
error_name GovernanceError.anchor_missing = "AnchorMissing"
error_name GovernanceError.invalid_param_value = "InvalidParamValue"
error_name GovernanceError.already_paused = "AlreadyPaused"
error_name GovernanceError.already_unpaused = "AlreadyUnpaused"
error_name GovernanceError.same_admin = "SameAdmin"

-- The assertion about the variant that stands in the constant block below the type.
unfoldable pub asserted : GovernanceError → Bool
asserted GovernanceError.already_initialized =
    error_code GovernanceError.already_initialized == Codes.already_initialized
asserted GovernanceError.not_initialized =
    error_code GovernanceError.not_initialized == Codes.not_initialized
asserted GovernanceError.unauthorized =
    error_code GovernanceError.unauthorized == Codes.unauthorized
asserted GovernanceError.invalid_fee_bps =
    error_code GovernanceError.invalid_fee_bps == Codes.invalid_fee_bps
asserted GovernanceError.paused = error_code GovernanceError.paused == Codes.paused
asserted GovernanceError.invalid_admin =
    error_code GovernanceError.invalid_admin == Codes.invalid_admin
asserted GovernanceError.invalid_recovery_address =
    error_code GovernanceError.invalid_recovery_address == Codes.invalid_recovery_address
asserted GovernanceError.recovery_not_pending =
    error_code GovernanceError.recovery_not_pending == Codes.recovery_not_pending
asserted GovernanceError.recovery_delay_active =
    error_code GovernanceError.recovery_delay_active == Codes.recovery_delay_active
asserted GovernanceError.invalid_wasm_interface =
    error_code GovernanceError.invalid_wasm_interface == Codes.invalid_wasm_interface
asserted GovernanceError.invalid_threshold =
    error_code GovernanceError.invalid_threshold == Codes.invalid_threshold
asserted GovernanceError.recovery_already_pending =
    error_code GovernanceError.recovery_already_pending == Codes.recovery_already_pending
asserted GovernanceError.anchor_missing =
    leb Codes.governance_range_start (error_code GovernanceError.anchor_missing)
asserted GovernanceError.invalid_param_value =
    leb Codes.governance_range_start (error_code GovernanceError.invalid_param_value)
asserted GovernanceError.already_paused =
    error_code GovernanceError.already_paused == Codes.already_paused
asserted GovernanceError.already_unpaused =
    error_code GovernanceError.already_unpaused == Codes.already_unpaused
asserted GovernanceError.same_admin = error_code GovernanceError.same_admin == Codes.same_admin

abbrev pub entry : GovernanceError → String × ℕ
entry error = (error_name error, error_code error)

-- The table of all errors of the contract.
unfoldable pub error_table : List (String × ℕ)
error_table =
    entry GovernanceError.already_initialized
    ∷ entry GovernanceError.not_initialized
    ∷ entry GovernanceError.unauthorized
    ∷ entry GovernanceError.invalid_fee_bps
    ∷ entry GovernanceError.paused
    ∷ entry GovernanceError.invalid_admin
    ∷ entry GovernanceError.invalid_recovery_address
    ∷ entry GovernanceError.recovery_not_pending
    ∷ entry GovernanceError.recovery_delay_active
    ∷ entry GovernanceError.invalid_wasm_interface
    ∷ entry GovernanceError.invalid_threshold
    ∷ entry GovernanceError.recovery_already_pending
    ∷ entry GovernanceError.anchor_missing
    ∷ entry GovernanceError.invalid_param_value
    ∷ entry GovernanceError.already_paused
    ∷ entry GovernanceError.already_unpaused
    ∷ entry GovernanceError.same_admin
    ∷ []
