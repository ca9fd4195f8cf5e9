-- ===== src/Settlement/Admin/Init.antt =====
-- What `init` checks and writes.
use betta_pay_contract.Base.{ℕ, ◌≡◌, ◌≢◌, true, false, none, some, List, arith}
use betta_pay_contract.Base.Ledger.{Ensures}
use betta_pay_contract.Common.Env.{Address}
use betta_pay_contract.Common.Auth.Quorum.{IsAdminSet, require_auth_each-same}
use betta_pay_contract.Settlement.Types.{SettlementError}
use betta_pay_contract.Settlement.State.{Store, State, Host}
use betta_pay_contract.Settlement.Storage.Access.{validate_admins_sound, write_admins_effect}
use betta_pay_contract.Settlement.Admin.{init}

-- What `init` has checked, and the storage that it leaves.
pub record Initialized (h : Host) (s s' : Store) (deployer : Address) (admins : List Address)
    (n : ℕ) (governance recovery : Address) : Type 0 where
  pub fresh : s.admins ≡ none
  pub agreed : h.env.authorized deployer ≡ true
  pub valid : IsAdminSet admins n
  pub governance_nonzero : governance ≢ 0
  pub recovery_nonzero : recovery ≢ 0
  pub written : s' ≡ record s {
    initializing = false;
    deployer = some deployer;
    admins = some admins;
    threshold = some n;
    governance = some governance;
    recovery_address = some recovery;
    schema_version = some 1;
  }

-- An `init` that returns found no admins stored, was authorized by the deployer, and was given a
-- valid admin set and a governance and a recovery address that are not zero. It stores these and
-- the schema version 1, and nothing else in the storage changes.
pub init-Initialized :
    (h : Host) (deployer : Address) (admins : List Address) (n : ℕ) (governance recovery : Address)
    (l : State)
    → Ensures
        (init h deployer admins n governance recovery l)
        (λ _ l'. Initialized h l.store l'.store deployer admins n governance recovery)
unfolding init
init-Initialized h deployer admins n governance recovery l = grind (
  arith,
  validate_admins_sound,
  require_auth_each-same State SettlementError h.env,
  write_admins_effect,
)
