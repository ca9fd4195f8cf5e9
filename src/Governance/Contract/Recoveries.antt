-- ===== src/Governance/Contract/Recoveries.antt =====
-- What the governance contract's entry points do to the pending recovery.
use betta_pay_contract.Base.{
  ◌+◌, ◌≤◌, ◌≡◌, refl, Bool, true, false, Option, none, some, List, [], ◌∷◌, arith,
}
use betta_pay_contract.Base.Ledger.{Ensures, weaken-Ensures}
use betta_pay_contract.Common.Env.{Env, Address, probe_supports_interface}
use betta_pay_contract.Common.Auth.Quorum.{verify_quorum_sound, require_auth_each-same}
use betta_pay_contract.Common.Recovery.{PendingRecovery, RecoveryEntry, pending, undecodable}
use betta_pay_contract.Governance.State.{Store, State, GovernanceError, unauthorized}
use betta_pay_contract.Governance.Storage.{
  read_admins, read_threshold, verify_admin_auth, read_recovery_address, read_pending_recovery,
  run_migrations, read_schema_version,
}
use betta_pay_contract.Governance.Contract.{
  init, update_recovery_address, upgrade, initiate_recovery, cancel_recovery, execute_recovery,
  transfer_admin, change_threshold, pause, unpause, migrate,
}
use betta_pay_contract.Governance.Contract.Effect.{
  validate_admins_sound, verify_admins_sound, set_fee_config_effect, update_system_param_effect,
  upsert_anchor_effect, remove_anchor_effect,
}
use betta_pay_contract.Governance.Contract.Invariant.{Request, handle, migrate_from_frame}

-- The pending recovery that `initiate_recovery` writes is due 7 days later.
abbrev pub entry_at : Env → Address → Address → PendingRecovery
entry_at env new_admin recovery = record {
  new_admin = new_admin;
  execute_after = env.timestamp + 604800;
  initiated_by = recovery;
}

-- What a call does to the pending recovery.
pub data RecoveryStep (env : Env) (request : Request) (s s' : Store) : Type 0 where
  kept : s'.pending_recovery ≡ s.pending_recovery → RecoveryStep env request s s'
  dropped : s'.pending_recovery ≡ none → RecoveryStep env request s s'
  announced :
      (new_admin recovery : Address)
      → request ≡ Request.initiate_recovery_request new_admin
      → s.recovery_address ≡ some recovery
      → env.authorized recovery ≡ true
      → s.pending_recovery ≡ none
      → s'.pending_recovery ≡ some (pending (entry_at env new_admin recovery))
      → RecoveryStep env request s s'

-- The entry points that write the pending recovery.
abbrev writes_recovery : Request → Bool
writes_recovery (Request.initiate_recovery_request _) = true
writes_recovery (Request.cancel_recovery_request _) = true
writes_recovery Request.execute_recovery_request = true
writes_recovery _ = false

abbrev OfAddress : (Address → Type 0) → Option Address → Type 0
OfAddress P (some r) = P r
OfAddress P none = ⊥

abbrev pub OfPending : (PendingRecovery → Type 0) → Option RecoveryEntry → Type 0
OfPending P (some (pending p)) = P p
OfPending P (some undecodable) = ⊥
OfPending P none = ⊥

module _ (env : Env) where
  keeps_recovery :
      (request : Request) (l : State)
      → writes_recovery request ≡ false
      → Ensures
          (handle env request l)
          (λ _ l'. l'.store.pending_recovery ≡ l.store.pending_recovery)
  unfolding handle init update_recovery_address upgrade pause unpause migrate transfer_admin
      change_threshold probe_supports_interface verify_admin_auth read_admins read_threshold
      run_migrations read_schema_version
  keeps_recovery (Request.init_request d admins n r) l other =
      grind (arith, validate_admins_sound, require_auth_each-same State GovernanceError env)
  keeps_recovery (Request.update_recovery_address_request signers a) l other =
      ground (arith, verify_admins_sound env signers l)
  keeps_recovery (Request.upgrade_request signers code) l other =
      ground (arith, verify_admins_sound env signers l)
  keeps_recovery (Request.initiate_recovery_request a) l other = ground arith
  keeps_recovery (Request.cancel_recovery_request signers) l other = ground arith
  keeps_recovery Request.execute_recovery_request l other = ground arith
  keeps_recovery (Request.transfer_admin_request signers admins n) l other =
      grind (arith, validate_admins_sound, verify_quorum_sound env unauthorized)
  keeps_recovery (Request.change_threshold_request signers n) l other =
      grind (arith, verify_quorum_sound env unauthorized)
  keeps_recovery (Request.pause_request signers) l other =
      ground (arith, verify_admins_sound env signers l)
  keeps_recovery (Request.unpause_request signers) l other =
      ground (arith, verify_admins_sound env signers l)
  keeps_recovery (Request.migrate_request signers) l other =
      grind (arith, verify_admins_sound env signers, migrate_from_frame)
  keeps_recovery (Request.update_system_param_request signers key value) l other =
      ground (arith, update_system_param_effect env signers key value l)
  keeps_recovery (Request.set_fee_config_request signers c) l other =
      ground (arith, set_fee_config_effect env signers c l)
  keeps_recovery (Request.upsert_anchor_request signers asset anchor) l other =
      ground (arith, upsert_anchor_effect env signers asset anchor l)
  keeps_recovery (Request.remove_anchor_request signers asset) l other =
      ground (arith, remove_anchor_effect env signers asset l)

  initiate_effect :
      (a : Address) (l : State)
      → Ensures (initiate_recovery env a l) (λ _ l'.
        (l.store.pending_recovery ≡ none)
        × OfAddress
            (λ r.
              (env.authorized r ≡ true)
              × (l'.store.pending_recovery ≡ some (pending (entry_at env a r))))
            l.store.recovery_address)
  unfolding initiate_recovery read_recovery_address
  initiate_effect a l = ground arith

  cancel_drops :
      (signers : List Address) (l : State)
      → Ensures (cancel_recovery env signers l) (λ _ l'. l'.store.pending_recovery ≡ none)
  unfolding cancel_recovery read_pending_recovery
  cancel_drops signers l = ground (arith, verify_admins_sound env signers l)

  -- An `execute_recovery` that returns had a pending recovery that was due.
  pub execute_effect :
      (l : State)
      → Ensures (execute_recovery env l) (λ _ l'.
        (l'.store.pending_recovery ≡ none)
        × (l'.store.threshold ≡ some 1)
        × OfPending
            (λ p. (p.execute_after ≤ env.timestamp) × (l'.store.admins ≡ some (p.new_admin ∷ [])))
            l.store.pending_recovery)
  unfolding execute_recovery read_pending_recovery
  execute_effect l = ground arith

announce_step :
    (env : Env) (a : Address) (s s' : Store) (o : Option Address)
    → s.recovery_address ≡ o
    → s.pending_recovery ≡ none
    → OfAddress
        (λ r. (env.authorized r ≡ true) × (s'.pending_recovery ≡ some (pending (entry_at env a r))))
        o
    → RecoveryStep env (Request.initiate_recovery_request a) s s'
announce_step env a s s' (some r) known free e = RecoveryStep.announced a r refl known e.0 free e.1
announce_step env a s s' none known free e = elim e [ ]

module _ (env : Env) where
  kept_step :
      (request : Request) (l : State)
      → writes_recovery request ≡ false
      → Ensures (handle env request l) (λ _ l'. RecoveryStep env request l.store l'.store)
  kept_step request l other =
      weaken-Ensures _ (handle env request l) (keeps_recovery env request l other)
        λ _ l' e. RecoveryStep.kept e

  -- What an entry point does to the pending recovery: it keeps it or removes it, or it is an
  -- `initiate_recovery` for an address, authorized by the stored recovery address while no recovery
  -- is pending, and the new one is due 7 days later.
  pub handle-RecoveryStep :
      (request : Request) (l : State)
      → Ensures (handle env request l) (λ _ l'. RecoveryStep env request l.store l'.store)
  unfolding handle
  handle-RecoveryStep (Request.initiate_recovery_request a) l =
      weaken-Ensures _ (initiate_recovery env a l) (initiate_effect env a l)
        λ _ l' e. announce_step env a l.store l'.store l.store.recovery_address refl e.0 e.1
  handle-RecoveryStep (Request.cancel_recovery_request signers) l =
      weaken-Ensures _ (cancel_recovery env signers l) (cancel_drops env signers l)
        λ _ l' e. RecoveryStep.dropped e
  handle-RecoveryStep Request.execute_recovery_request l =
      weaken-Ensures _ (execute_recovery env l) (execute_effect env l)
        λ _ l' e. RecoveryStep.dropped e.0
  handle-RecoveryStep (Request.init_request d admins n r) l =
      kept_step (Request.init_request d admins n r) l refl
  handle-RecoveryStep (Request.update_recovery_address_request signers a) l =
      kept_step (Request.update_recovery_address_request signers a) l refl
  handle-RecoveryStep (Request.upgrade_request signers code) l =
      kept_step (Request.upgrade_request signers code) l refl
  handle-RecoveryStep (Request.transfer_admin_request signers admins n) l =
      kept_step (Request.transfer_admin_request signers admins n) l refl
  handle-RecoveryStep (Request.change_threshold_request signers n) l =
      kept_step (Request.change_threshold_request signers n) l refl
  handle-RecoveryStep (Request.pause_request signers) l =
      kept_step (Request.pause_request signers) l refl
  handle-RecoveryStep (Request.unpause_request signers) l =
      kept_step (Request.unpause_request signers) l refl
  handle-RecoveryStep (Request.migrate_request signers) l =
      kept_step (Request.migrate_request signers) l refl
  handle-RecoveryStep (Request.update_system_param_request signers key value) l =
      kept_step (Request.update_system_param_request signers key value) l refl
  handle-RecoveryStep (Request.set_fee_config_request signers c) l =
      kept_step (Request.set_fee_config_request signers c) l refl
  handle-RecoveryStep (Request.upsert_anchor_request signers asset anchor) l =
      kept_step (Request.upsert_anchor_request signers asset anchor) l refl
  handle-RecoveryStep (Request.remove_anchor_request signers asset) l =
      kept_step (Request.remove_anchor_request signers asset) l refl
