-- ===== src/Governance/Contract/Invariant.antt =====
-- An invariant of the governance contract's storage under all its entry points, and what follows
-- for the configuration that the settlement contract reads.
use betta_pay_contract.Base.{ℕ, zero, suc, ◌≡◌, ◌≢◌, refl, Option, none, some, List, arith}
use betta_pay_contract.Base.Int.{ℤ}
use betta_pay_contract.Base.Ledger.{Ensures}
use betta_pay_contract.Common.Env.{Env, Address, Hash, Symbol, probe_supports_interface}
use betta_pay_contract.Common.Auth.Quorum.{IsAdminSet, verify_quorum_sound, require_auth_each-same}
use betta_pay_contract.Common.Recovery.{RecoveryEntry, pending, undecodable}
use betta_pay_contract.Governance.State.{
  FeeConfig, Store, State, Act, GovernanceError, unauthorized,
}
use betta_pay_contract.Governance.Storage.{
  read_admins, read_threshold, read_recovery_address, read_pending_recovery, read_schema_version,
  run_migrations, migrate_from, verify_admin_auth,
}
use betta_pay_contract.Governance.Contract.{
  init, update_recovery_address, upgrade, initiate_recovery, cancel_recovery, execute_recovery,
  transfer_admin, change_threshold, pause, unpause, migrate, update_system_param, set_fee_config,
  upsert_anchor, remove_anchor,
}
use betta_pay_contract.Governance.Contract.Effect.{
  IsBounded, validate_admins_sound, verify_admins_sound, set_fee_config_effect,
  update_system_param_effect, upsert_anchor_effect, remove_anchor_effect,
}

-- Before `init` there is no admin set; after it, a valid one with its threshold.
abbrev AdminsValid : Option (List Address) → Option ℕ → Type 0
AdminsValid none _ = Unit
AdminsValid (some admins) (some n) = IsAdminSet admins n
AdminsValid (some admins) none = ⊥

abbrev PendingValid : Option RecoveryEntry → Type 0
PendingValid none = Unit
PendingValid (some (pending p)) = p.new_admin ≢ 0
PendingValid (some undecodable) = Unit

abbrev pub ConfigValid : Option FeeConfig → Type 0
ConfigValid none = Unit
ConfigValid (some c) = IsBounded c

-- The admins are a valid set for their threshold, no pending recovery is for the zero address, and
-- the fee configuration is within its bounds.
pub record IsValid (s : Store) : Type 0 where
  pub admins : AdminsValid s.admins s.threshold
  pub recovery : PendingValid s.pending_recovery
  pub config : ConfigValid s.fee_config

-- A call of an entry point that writes to the storage.
pub data Request : Type 0 where
  init_request : Address → List Address → ℕ → Address → Request
  update_recovery_address_request : List Address → Address → Request
  upgrade_request : List Address → Hash → Request
  initiate_recovery_request : Address → Request
  cancel_recovery_request : List Address → Request
  execute_recovery_request : Request
  transfer_admin_request : List Address → List Address → ℕ → Request
  change_threshold_request : List Address → ℕ → Request
  pause_request unpause_request migrate_request : List Address → Request
  update_system_param_request : List Address → Symbol → ℤ → Request
  set_fee_config_request : List Address → FeeConfig → Request
  upsert_anchor_request : List Address → Address → Address → Request
  remove_anchor_request : List Address → Address → Request

unfoldable pub handle : Env → Request → Act (Unit {0})
handle env (Request.init_request d admins n r) = init env d admins n r
handle env (Request.update_recovery_address_request signers a) =
    update_recovery_address env signers a
handle env (Request.upgrade_request signers code) = upgrade env signers code
handle env (Request.initiate_recovery_request a) = initiate_recovery env a
handle env (Request.cancel_recovery_request signers) = cancel_recovery env signers
handle env Request.execute_recovery_request = execute_recovery env
handle env (Request.transfer_admin_request signers admins n) = transfer_admin env signers admins n
handle env (Request.change_threshold_request signers n) = change_threshold env signers n
handle env (Request.pause_request signers) = pause env signers
handle env (Request.unpause_request signers) = unpause env signers
handle env (Request.migrate_request signers) = migrate env signers
handle env (Request.update_system_param_request signers key v) =
    update_system_param env signers key v
handle env (Request.set_fee_config_request signers c) = set_fee_config env signers c
handle env (Request.upsert_anchor_request signers asset anchor) =
    upsert_anchor env signers asset anchor
handle env (Request.remove_anchor_request signers asset) = remove_anchor env signers asset

-- Migrations write the schema version at most.
pub migrate_from_frame :
    (left version : ℕ) (l : State)
    → Ensures
        (migrate_from left version l)
        (λ _ l'. l'.store ≡ record (l.store) { schema_version = l'.store.schema_version })
unfolding migrate_from
migrate_from_frame zero version l = refl
migrate_from_frame (suc left) version l = grind (arith, migrate_from_frame left)

module _ (env : Env) where
  init-IsValid :
      (d : Address) (admins : List Address) (n : ℕ) (r : Address) (l : State)
      → IsValid l.store
      → Ensures (init env d admins n r l) (λ _ l'. IsValid l'.store)
  unfolding init
  init-IsValid d admins n r l v = grind (
    arith,
    validate_admins_sound,
    require_auth_each-same State GovernanceError env,
    v.recovery,
    v.config,
  )

  transfer_admin-IsValid :
      (signers admins : List Address) (n : ℕ) (l : State)
      → IsValid l.store
      → Ensures (transfer_admin env signers admins n l) (λ _ l'. IsValid l'.store)
  unfolding transfer_admin verify_admin_auth read_admins read_threshold
  transfer_admin-IsValid signers admins n l v =
      grind
        (arith, validate_admins_sound, verify_quorum_sound env unauthorized, v.recovery, v.config)

  change_threshold-IsValid :
      (signers : List Address) (n : ℕ) (l : State)
      → IsValid l.store
      → Ensures (change_threshold env signers n l) (λ _ l'. IsValid l'.store)
  unfolding change_threshold verify_admin_auth read_admins read_threshold
  change_threshold-IsValid signers n l v =
      grind (arith, verify_quorum_sound env unauthorized, v.admins, v.recovery, v.config)

  execute_recovery-IsValid :
      (l : State) → IsValid l.store → Ensures (execute_recovery env l) (λ _ l'. IsValid l'.store)
  unfolding execute_recovery read_pending_recovery
  execute_recovery-IsValid l v = ground (arith, v.admins, v.recovery, v.config)

  initiate_recovery-IsValid :
      (a : Address) (l : State)
      → IsValid l.store
      → Ensures (initiate_recovery env a l) (λ _ l'. IsValid l'.store)
  unfolding initiate_recovery read_recovery_address
  initiate_recovery-IsValid a l v = ground (arith, v.admins, v.recovery, v.config)

  cancel_recovery-IsValid :
      (signers : List Address) (l : State)
      → IsValid l.store
      → Ensures (cancel_recovery env signers l) (λ _ l'. IsValid l'.store)
  unfolding cancel_recovery read_pending_recovery
  cancel_recovery-IsValid signers l v =
      ground (arith, verify_admins_sound env signers l, v.admins, v.recovery, v.config)

  migrate-IsValid :
      (signers : List Address) (l : State)
      → IsValid l.store
      → Ensures (migrate env signers l) (λ _ l'. IsValid l'.store)
  unfolding migrate run_migrations read_schema_version
  migrate-IsValid signers l v =
      grind
        (arith, verify_admins_sound env signers, migrate_from_frame, v.admins, v.recovery, v.config)

  -- Every entry point that writes keeps the governance storage valid: the admins are distinct, not
  -- zero and at least as many as their threshold, which is at least 1; a pending recovery is for a
  -- non-zero address; and the fee configuration has each fee from 5 to 5,000 basis points.
  pub governance_handle-IsValid :
      (request : Request) (l : State)
      → IsValid l.store
      → Ensures (handle env request l) (λ _ l'. IsValid l'.store)
  unfolding handle update_recovery_address upgrade pause unpause probe_supports_interface
  governance_handle-IsValid (Request.init_request d admins n r) l v = init-IsValid d admins n r l v
  governance_handle-IsValid (Request.update_recovery_address_request signers a) l v =
      ground (arith, verify_admins_sound env signers l, v.admins, v.recovery, v.config)
  governance_handle-IsValid (Request.upgrade_request signers code) l v =
      ground (arith, verify_admins_sound env signers l, v.admins, v.recovery, v.config)
  governance_handle-IsValid (Request.initiate_recovery_request a) l v =
      initiate_recovery-IsValid a l v
  governance_handle-IsValid (Request.cancel_recovery_request signers) l v =
      cancel_recovery-IsValid signers l v
  governance_handle-IsValid Request.execute_recovery_request l v = execute_recovery-IsValid l v
  governance_handle-IsValid (Request.transfer_admin_request signers admins n) l v =
      transfer_admin-IsValid signers admins n l v
  governance_handle-IsValid (Request.change_threshold_request signers n) l v =
      change_threshold-IsValid signers n l v
  governance_handle-IsValid (Request.pause_request signers) l v =
      ground (arith, verify_admins_sound env signers l, v.admins, v.recovery, v.config)
  governance_handle-IsValid (Request.unpause_request signers) l v =
      ground (arith, verify_admins_sound env signers l, v.admins, v.recovery, v.config)
  governance_handle-IsValid (Request.migrate_request signers) l v = migrate-IsValid signers l v
  governance_handle-IsValid (Request.update_system_param_request signers key value) l v =
      ground
        (arith, update_system_param_effect env signers key value l, v.admins, v.recovery, v.config)
  governance_handle-IsValid (Request.set_fee_config_request signers c) l v =
      ground (arith, set_fee_config_effect env signers c l, v.admins, v.recovery, v.config)
  governance_handle-IsValid (Request.upsert_anchor_request signers asset anchor) l v =
      ground
        (arith, upsert_anchor_effect env signers asset anchor l, v.admins, v.recovery, v.config)
  governance_handle-IsValid (Request.remove_anchor_request signers asset) l v =
      ground (arith, remove_anchor_effect env signers asset l, v.admins, v.recovery, v.config)
