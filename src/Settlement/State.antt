-- ===== src/Settlement/State.antt =====
-- The settlement contract's storage, one field for each kind of key of `DataKey` (types.rs) and
-- `CommonDataKey` (bettapay_common/src/storage.rs), its events, and the host that it runs on.
use betta_pay_contract.Base.{ℕ, Bool, Option, List}
use betta_pay_contract.Base.Int.{ℤ}
use betta_pay_contract.Base.Dict.{Dict}
use betta_pay_contract.Base.Ledger.{Ledger, Call}
use betta_pay_contract.Common.Rule.{SettlementRule}
use betta_pay_contract.Common.Env.{Address, Reference, Hash, Symbol, Bytes, Invoked, Env}
use betta_pay_contract.Common.Recovery.{RecoveryEntry}
use betta_pay_contract.Settlement.Types.{
  PaymentRecord, ScheduledOp, Operation, DataKey, SettlementError,
}

pub record Store : Type 0 where
  -- instance storage
  pub admins : Option (List Address)
  pub threshold : Option ℕ
  pub initializing : Bool
  pub governance : Option Address
  pub deployer : Option Address
  pub schema_version : Option ℕ
  pub recovery_address : Option Address
  pub pending_recovery : Option RecoveryEntry
  pub paused_flag : Option Bool
  pub default_rule : Option SettlementRule
  pub cached_gov_rule : Option (Option SettlementRule)
  pub pending_operation_count : Option ℕ
  -- the contract's code
  pub wasm : Hash
  -- persistent storage; an entry whose value is `()` is there or not
  pub merchants : Address → Bool
  pub archived_merchants : Address → Bool
  pub rules : Address → Option SettlementRule
  pub payments : Address → Dict PaymentRecord
  pub payment_counts : Address → Option ℕ
  pub scheduled : Dict ScheduledOp

-- One constructor for each topic of bettapay_common/src/events.rs that the contract publishes, with
-- the remaining topics and then the data.
pub data Event : Type 0 where
  admin_transferred recovery_executed : List Address → List Address → Event
  paused : Address → Bool → ℕ → Event
  unpaused : Address → Bool → Event
  recovery_initiated : Address → Address → ℕ → Event
  recovery_cancelled : Address → Event
  contract_upgraded : Hash → Address → Event
  threshold_changed : Address → ℕ → ℕ → Event
  recovery_address_updated : Address → Address → Event
  migrated : Address → ℕ → Event
  governance_updated : Address → Address → Event
  merchant_consent : Address → Event
  merchant_registered merchant_unregistered : Address → Address → Event
  settlement_rule_updated settlement_rule_cleared :
      Address → Address → SettlementRule → SettlementRule → Event
  default_rule_updated : Address → SettlementRule → SettlementRule → Event
  bootstrap_fallback : SettlementRule → Event
  payment_stored : Address → Reference → PaymentRecord → Event
  payments_pruned : Address → Address → ℕ → Event
  payment_pruned : Address → Reference → Event
  op_scheduled : Hash → Address → ℕ → Event
  op_executed : Hash → Event
  op_cancelled : Hash → Address → Event
  ops_cancelled : Address → ℕ → Event
  fee_ceiling_rejected : ℕ → ℕ → Event

-- A field of a host map: a `u32`, or a value that does not convert to one.
pub data Field : Type 0 where
  u32_value : ℕ → Field
  other_value : Field

-- The raw value of a cross-contract call: a map from symbols, or anything else.
pub data Val : Type 0 where
  map_value : List (Symbol × Field) → Val
  other_kind : Val

-- The environment, the contract that a governance address stands for (its two entry points that are
-- called), and the host's XDR encoder and hash.
pub record Host : Type 0 where
  pub env : Env
  pub get_fee_config : Address → Invoked Val
  pub get_system_param : Address → Symbol → Invoked (Option ℤ)
  pub to_xdr : Operation → Bytes
  pub sha256 : Bytes → Hash

-- The same host at another moment, with other authorizations.
abbrev pub later : Host → Env → Host
later h env = record h { env = env }

abbrev pub State : Type 0
State = Ledger Store DataKey Event

abbrev pub Act : Type 0 → Type 0
Act A = Call State SettlementError A
