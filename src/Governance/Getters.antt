-- ===== src/Governance/Getters.antt =====
-- governance_contract/src/lib.rs: entry points and helpers that only read.
use betta_pay_contract.Base.{ℕ, ◌==◌, Bool, unwrap_or, and_then, is_some, List}
use betta_pay_contract.Base.Ledger.{pure, ◌>>=◌, stored}
use betta_pay_contract.Common.Env.{Address, zero_address}
use betta_pay_contract.Common.Auth.{primary_admin}
use betta_pay_contract.Governance.State.{Act}
use betta_pay_contract.Governance.Storage as Storage
use betta_pay_contract.Governance.Storage.{read_admins, read_threshold, read_recovery_address}

unfoldable read_optional_primary_admin : Act Address
read_optional_primary_admin = do
  store ← stored
  pure (unwrap_or (and_then store.admins primary_admin) zero_address)

abbrev supported_interface_version : ℕ
supported_interface_version = 1

abbrev supports_interface : ℕ → Bool
supports_interface version = version == supported_interface_version

abbrev is_initialized : Act Bool
is_initialized = do store ← stored; pure (is_some store.admins)

abbrev get_admin : Act (List Address)
get_admin = read_admins

abbrev get_threshold : Act ℕ
get_threshold = read_threshold

abbrev get_recovery_address : Act Address
get_recovery_address = read_recovery_address

abbrev is_paused : Act Bool
is_paused = do store ← stored; pure (Storage.is_paused store)
