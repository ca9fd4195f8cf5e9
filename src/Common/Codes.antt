-- ===== src/Common/Codes.antt =====
-- bettapay_common/src/error_codes.rs: the registry of the error codes that the two contracts share,
-- the check of a contract's table against it, and the search for gaps in a contract's range.
pub mod Gaps
pub mod Collisions
use Prim.Native.String.{String}
use text.Mathlib.Text
use betta_pay_contract.Base.{
  ℕ, zero, suc, ◌+◌, ◌-◌, ◌==◌, ltb, leb, ◌&&◌, ◌||◌, Bool, true, false, not, Option, none, some,
  List, [], ◌∷◌, if◌then◌else◌,
}
use betta_pay_contract.Base.Lists.{contains}

abbrev pub already_initialized : ℕ
already_initialized = 1

abbrev pub not_initialized : ℕ
not_initialized = 2

abbrev pub unauthorized : ℕ
unauthorized = 3

abbrev pub invalid_fee_bps : ℕ
invalid_fee_bps = 4

abbrev pub paused : ℕ
paused = 5

abbrev pub invalid_admin : ℕ
invalid_admin = 6

abbrev pub invalid_recovery_address : ℕ
invalid_recovery_address = 7

abbrev pub recovery_not_pending : ℕ
recovery_not_pending = 8

abbrev pub recovery_delay_active : ℕ
recovery_delay_active = 9

abbrev pub execution_not_ready : ℕ
execution_not_ready = 10

abbrev pub operation_not_scheduled : ℕ
operation_not_scheduled = 11

abbrev pub operation_already_scheduled : ℕ
operation_already_scheduled = 12

abbrev pub invalid_wasm_interface : ℕ
invalid_wasm_interface = 13

abbrev pub invalid_threshold : ℕ
invalid_threshold = 14

abbrev pub recovery_already_pending : ℕ
recovery_already_pending = 15

abbrev pub already_paused : ℕ
already_paused = 17

abbrev pub already_unpaused : ℕ
already_unpaused = 16

abbrev pub same_admin : ℕ
same_admin = 18

abbrev pub governance_range_start : ℕ
governance_range_start = 200

abbrev pub settlement_range_start : ℕ
settlement_range_start = 300

abbrev pub shared_codes : List (String × ℕ)
shared_codes =
    ("AlreadyInitialized", already_initialized)
    ∷ ("NotInitialized", not_initialized)
    ∷ ("Unauthorized", unauthorized)
    ∷ ("InvalidFeeBps", invalid_fee_bps)
    ∷ ("Paused", paused)
    ∷ ("InvalidAdmin", invalid_admin)
    ∷ ("InvalidRecoveryAddress", invalid_recovery_address)
    ∷ ("RecoveryNotPending", recovery_not_pending)
    ∷ ("RecoveryDelayActive", recovery_delay_active)
    ∷ ("ExecutionNotReady", execution_not_ready)
    ∷ ("OperationNotScheduled", operation_not_scheduled)
    ∷ ("OperationAlreadyScheduled", operation_already_scheduled)
    ∷ ("InvalidWasmInterface", invalid_wasm_interface)
    ∷ ("InvalidThreshold", invalid_threshold)
    ∷ ("RecoveryAlreadyPending", recovery_already_pending)
    ∷ ("AlreadyPaused", already_paused)
    ∷ ("AlreadyUnpaused", already_unpaused)
    ∷ ("SameAdmin", same_admin)
    ∷ []

-- `SHARED_CODES.iter().find(|&&(_, c)| c == code)`, with the name only.
abbrev pub find_code : List (String × ℕ) → ℕ → Option String
find_code [] code = none
find_code ((name, c) ∷ table) code = if c == code then some name else find_code table code

-- Whether the assertions on one entry of a contract's table hold.
abbrev pub fits_registry : ℕ → String → ℕ → Option String → Bool
fits_registry range_start name code (some shared_name) = text.Mathlib.Text.◌==◌ name shared_name
fits_registry range_start name code none = leb range_start code

abbrev pub all_fit : List (String × ℕ) → ℕ → Bool
all_fit [] range_start = true
all_fit ((name, code) ∷ table) range_start =
    fits_registry range_start name code (find_code shared_codes code) && all_fit table range_start

abbrev pub lists_code : List (String × ℕ) → ℕ → Bool
lists_code [] code = false
lists_code ((_, c) ∷ table) code = code == c || lists_code table code

-- The loops that look for a code that two entries have.
abbrev pub no_duplicate : List (String × ℕ) → Bool
no_duplicate [] = true
no_duplicate ((_, code) ∷ table) = not (lists_code table code) && no_duplicate table

-- Whether all assertions hold, so that the function returns.
unfoldable pub assert_no_code_collisions : List (String × ℕ) → ℕ → Bool
assert_no_code_collisions contract_codes range_start =
    all_fit contract_codes range_start && no_duplicate contract_codes

-- `sort_unstable` on numbers.
abbrev pub insert_sorted : ℕ → List ℕ → List ℕ
insert_sorted a [] = a ∷ []
insert_sorted a (x ∷ xs) = if leb a x then a ∷ x ∷ xs else x ∷ insert_sorted a xs

unfoldable pub sort : List ℕ → List ℕ
sort [] = []
sort (x ∷ xs) = insert_sorted x (sort xs)

-- `Vec::dedup`: an element that equals the one before it is dropped.
unfoldable pub dedup_after : ℕ → List ℕ → List ℕ
dedup_after a [] = []
dedup_after a (x ∷ xs) = if a == x then dedup_after a xs else x ∷ dedup_after x xs

unfoldable pub dedup : List ℕ → List ℕ
dedup [] = []
dedup (x ∷ xs) = x ∷ dedup_after x xs

-- The codes of the table from `range_start` on.
unfoldable pub codes_from : List (String × ℕ) → ℕ → List ℕ
codes_from [] range_start = []
codes_from ((_, code) ∷ table) range_start =
    if leb range_start code
    then code ∷ codes_from table range_start
    else codes_from table range_start

-- The last element of a list with a first.
abbrev pub last : ℕ → List ℕ → ℕ
last x [] = x
last x (y ∷ ys) = last y ys

-- The loop over `expected in min..=max`, with the number of values that are left.
unfoldable pub collect_gaps : ℕ → ℕ → List ℕ → List ℕ
collect_gaps expected zero specific_codes = []
collect_gaps expected (suc left) specific_codes =
    let rest = collect_gaps (expected + 1) left specific_codes in
    if contains specific_codes expected then rest else expected ∷ rest

unfoldable pub gaps_between : List ℕ → List ℕ
gaps_between [] = []
gaps_between (min ∷ more) = collect_gaps min (last min more + 1 - min) (min ∷ more)

unfoldable pub find_code_gaps : List (String × ℕ) → ℕ → List ℕ
find_code_gaps contract_codes range_start =
    gaps_between (dedup (sort (codes_from contract_codes range_start)))
