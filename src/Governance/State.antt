-- ===== src/Governance/State.antt =====
-- governance_contract/src/lib.rs: the fee configuration, the errors, the storage with one field for
-- each kind of key of `DataKey` and `CommonDataKey`, and the events.
use betta_pay_contract.Base.{ℕ, Bool, Option, List}
use betta_pay_contract.Base.Int.{ℤ}
use betta_pay_contract.Base.Ledger.{Ledger, Call}
use betta_pay_contract.Common.Env.{Address, Hash, Symbol}
use betta_pay_contract.Common.Recovery.{RecoveryEntry}

pub record FeeConfig : Type 0 where
  pub platform_fee_bps : ℕ  -- u32
  pub network_fee_bps : ℕ  -- u32

pub data GovernanceError : Type 0 where
  already_initialized not_initialized unauthorized invalid_fee_bps paused : GovernanceError
  invalid_admin invalid_recovery_address recovery_not_pending : GovernanceError
  recovery_delay_active invalid_wasm_interface invalid_threshold : GovernanceError
  recovery_already_pending anchor_missing invalid_param_value already_paused : GovernanceError
  already_unpaused same_admin : GovernanceError

pub data DataKey : Type 0 where
  admin fee_config schema_version deployer : DataKey
  system_param : Symbol → DataKey
  anchor : Address → DataKey

pub record Store : Type 0 where
  pub admins : Option (List Address)
  pub threshold : Option ℕ
  pub deployer : Option Address
  pub schema_version : Option ℕ
  pub recovery_address : Option Address
  pub pending_recovery : Option RecoveryEntry
  pub paused_flag : Option Bool
  pub fee_config : Option FeeConfig
  pub wasm : Hash
  pub system_params : Symbol → Option ℤ
  pub anchors : Address → Option Address

pub data Event : Type 0 where
  initialized : Address → Event
  admin_transferred recovery_executed : List Address → List Address → Event
  paused : Address → Bool → ℕ → Event
  unpaused : Address → Bool → Event
  recovery_initiated : Address → Address → ℕ → Event
  recovery_cancelled : Address → Event
  contract_upgraded : Hash → Address → Event
  threshold_changed : ℕ → ℕ → Event
  recovery_address_updated : Address → Address → Event
  migrated : Address → ℕ → Event
  sys_param_updated : Symbol → Address → Option ℤ → ℤ → Event
  fee_config_updated : Address → FeeConfig → Event
  anchor_upserted : Address → Option Address → Address → Event
  anchor_removed : Address → Event

abbrev pub State : Type 0
State = Ledger Store DataKey Event

abbrev pub Act : Type 0 → Type 0
Act A = Call State GovernanceError A
