-- ===== src/Settlement/Getters.antt =====
-- settlement_contract/src/admin.rs, storage.rs and policy.rs: entry points and helpers that only read.
use text.Mathlib.Text
use betta_pay_contract.Base.{
  ℕ, ◌≡◌, refl, Bool, true, false, ◌||◌, Option, none, some, unwrap_or, and_then, List, [], ◌∷◌,
  if◌then◌else◌, arith,
}
use betta_pay_contract.Base.Ledger.{pure, ◌>>=◌, get_or_fail, stored}
use betta_pay_contract.Common.Env.{Address, Symbol, zero_address}
use betta_pay_contract.Common.Auth.{primary_admin}
use betta_pay_contract.Settlement.Types.{admin_set_empty, current_schema_version}
use betta_pay_contract.Settlement.State.{Act}
use betta_pay_contract.Settlement.Storage as Storage
use betta_pay_contract.Settlement.Storage.{
  read_admins, read_threshold, read_governance, read_recovery_address,
}

unfoldable pub read_admin : Act Address
read_admin = do admins ← read_admins; get_or_fail (primary_admin admins) admin_set_empty

unfoldable pub read_optional_primary_admin : Act Address
read_optional_primary_admin = do
  store ← stored
  pure (unwrap_or (and_then store.admins primary_admin) zero_address)

abbrev version : ℕ
version = current_schema_version

abbrev pub capability_flags : List Symbol
capability_flags =
    "timelock" ∷ "multisig_admin" ∷ "admin_recovery" ∷ "pause" ∷ "wasm_upgrade" ∷ "schema_migration"
    ∷ "merchant_rules" ∷ "default_rule" ∷ "governance_fee_ceiling" ∷ "fee_split_preview"
    ∷ "batch_payment_read" ∷ "payment_pruning" ∷ []

-- A map from symbols with one entry set.
abbrev set_flag : (Symbol → Option Bool) → Symbol → Symbol → Option Bool
set_flag flags name key = if text.Mathlib.Text.◌==◌ name key then some true else flags key

-- The loop of `get_capabilities` over the names.
unfoldable pub set_flags : List Symbol → (Symbol → Option Bool) → Symbol → Option Bool
set_flags [] flags = flags
set_flags (name ∷ names) flags = set_flags names (set_flag flags name)

-- The map that is returned, as a function from its keys.
unfoldable pub get_capabilities : Symbol → Option Bool
get_capabilities = set_flags capability_flags (λ _. none)

abbrev get_admin : Act (List Address)
get_admin = read_admins

abbrev get_threshold : Act ℕ
get_threshold = read_threshold

abbrev get_governance : Act Address
get_governance = read_governance

abbrev get_recovery_address : Act Address
get_recovery_address = read_recovery_address

abbrev is_paused : Act Bool
is_paused = do store ← stored; pure (Storage.is_paused store)

abbrev pub is_listed : List Symbol → Symbol → Bool
is_listed [] key = false
is_listed (name ∷ names) key = text.Mathlib.Text.◌==◌ name key || is_listed names key

set_flags-listed :
    (names : List Symbol) (flags : Symbol → Option Bool) (key : Symbol)
    → set_flags names flags key ≡ (if is_listed names key then some true else flags key)
unfolding set_flags
set_flags-listed [] flags key = refl
set_flags-listed (name ∷ names) flags key =
    ground (arith, set_flags-listed names (set_flag flags name) key)

-- The capabilities are exactly the listed flags, and each is reported as `true`.
pub get_capabilities-listed :
    (key : Symbol)
    → get_capabilities key ≡ (if is_listed capability_flags key then some true else none)
unfolding get_capabilities
get_capabilities-listed key = set_flags-listed capability_flags (λ _. none) key
