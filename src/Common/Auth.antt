-- ===== src/Common/Auth.antt =====
-- The loops of `verify_admin_auth` and `validate_admins_and_threshold`, which the two contracts
-- write alike but for the errors: the section's parameters are the errors that a contract uses.
pub mod Quorum
use betta_pay_contract.Base.{ℕ, ◌||◌, Option, none, some, List, [], ◌∷◌, ltb, ◌==◌}
use betta_pay_contract.Base.Lists.{length, contains, is_empty}
use betta_pay_contract.Base.Ledger.{Call, pure, require, refuse, expect, ◌>>=◌, ◌>>◌}
use betta_pay_contract.Common.Env.{Env, Address, is_zero_address, require_auth}

abbrev pub primary_admin : List Address → Option Address
primary_admin [] = none
primary_admin (admin ∷ _) = some admin

module _ {L E : Type 0} where
  -- Each signer is an admin, is not listed again further on, and has authorized the call.
  unfoldable pub verify_signers : Env → E → List Address → List Address → Call L E (Unit {0})
  verify_signers env unauthorized admins [] = pure tt
  verify_signers env unauthorized admins (signer ∷ rest) = do
    require (contains admins signer) unauthorized
    refuse (contains rest signer) unauthorized
    require_auth env signer
    verify_signers env unauthorized admins rest

  -- Enough signers, and then the loop.
  unfoldable pub verify_quorum : Env → E → List Address → List Address → ℕ → Call L E (Unit {0})
  verify_quorum env unauthorized admins signers required_count = do
    refuse (ltb (length signers) required_count) unauthorized
    verify_signers env unauthorized admins signers

  -- No admin is the zero address, and none is listed again further on.
  unfoldable pub validate_each : E → E → List Address → Call L E (Unit {0})
  validate_each zero_error duplicate_error [] = pure tt
  validate_each zero_error duplicate_error (admin ∷ rest) = do
    refuse (is_zero_address admin) zero_error
    refuse (contains rest admin) duplicate_error
    validate_each zero_error duplicate_error rest

  unfoldable pub validate_set : E → E → E → List Address → ℕ → Call L E (Unit {0})
  validate_set threshold_error zero_error duplicate_error admins threshold = do
    refuse (threshold == 0 || ltb (length admins) threshold) threshold_error
    refuse (is_empty admins) duplicate_error
    validate_each zero_error duplicate_error admins

  unfoldable pub require_auth_each : Env → List Address → Call L E (Unit {0})
  require_auth_each env [] = pure tt
  require_auth_each env (a ∷ rest) = do require_auth env a; require_auth_each env rest
