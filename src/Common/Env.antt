-- ===== src/Common/Env.antt =====
-- What a call is given by the Soroban host: the ledger's clock, the addresses that have authorized
-- the invocation, and the answers of code outside this repository.
-- Addresses, 32-byte references and hashes are only compared, so they are numbers; the zero address
-- (bettapay_common/src/storage.rs) and the all-zero 32 bytes are 0. A symbol is its text.
use Prim.Native.String.{String}
use betta_pay_contract.Base.{ℕ, ◌==◌, Bool, false, List}
use betta_pay_contract.Base.Ledger.{Call, pure, expect, ◌>>◌}

abbrev pub Address : Type 0
Address = ℕ

abbrev pub Reference : Type 0
Reference = ℕ

abbrev pub Hash : Type 0
Hash = ℕ

abbrev pub Symbol : Type 0
Symbol = String

abbrev pub Bytes : Type 0
Bytes = List ℕ

-- What `try_invoke_contract` gives: `Ok(Ok(v))`, or any of its errors.
pub data Invoked (A : Type 0) : Type 0 where
  returned : A → Invoked A
  failed : Invoked A

pub record Env : Type 0 where
  pub timestamp : ℕ  -- u64
  pub sequence : ℕ  -- u32
  pub authorized : Address → Bool
  -- Whether a contract with this code can be deployed at the probe's address.
  pub deploys : Hash → Bool
  -- The answer of a probe of this code to `supports_interface(version)`.
  pub probe : Hash → ℕ → Invoked Bool

abbrev pub zero_address : Address
zero_address = 0

-- `storage::is_zero_address`
abbrev pub is_zero_address : Address → Bool
is_zero_address a = a == zero_address

abbrev pub answered_true : Invoked Bool → Bool
answered_true (returned b) = b
answered_true failed = false

module _ (env : Env) {L E : Type 0} where
  -- `Address::require_auth`: the host traps if the address has not authorized the call.
  abbrev pub require_auth : Address → Call L E (Unit {0})
  require_auth a = expect (env.authorized a)

  -- bettapay_common/src/upgrade.rs: deploy the code under a probe address and ask it.
  unfoldable pub probe_supports_interface : Hash → ℕ → Call L E Bool
  probe_supports_interface hash version =
      expect (env.deploys hash) >> pure (answered_true (env.probe hash version))
