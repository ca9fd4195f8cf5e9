-- ===== src/Settlement/Admin/Effect.antt =====
-- What the administrative entry points check and write.
use betta_pay_contract.Base.{
  ℕ, ◌+◌, ◌≤◌, ◌<◌, ◌≡◌, ◌≢◌, refl, true, false, ◌⊎◌, Option, none, some, List, [], ◌∷◌, arith,
}
use betta_pay_contract.Base.Lists.{length, All}
use betta_pay_contract.Base.Ledger.{instance_entry, Ensures, bind-Ensures}
use betta_pay_contract.Common.Env.{Address, Hash, answered_true, probe_supports_interface}
use betta_pay_contract.Common.Auth.Quorum.{Quorum, IsAdminSet, verify_quorum_sound}
use betta_pay_contract.Common.Recovery.{PendingRecovery, RecoveryEntry, pending, undecodable}
use betta_pay_contract.Settlement.Types.{unauthorized}
use betta_pay_contract.Settlement.State.{Store, State, Host}
use betta_pay_contract.Settlement.Storage.{
  read_admins, read_threshold, read_recovery_address, read_pending_recovery, verify_admins,
  verify_admin_auth, is_paused, validate_admins_and_threshold,
}
use betta_pay_contract.Settlement.Storage.Access.{
  IsApproved, verify_admins_sound, assert_admin_sound, validate_admins_sound, write_admins_effect,
}
use betta_pay_contract.Settlement.Admin.{
  refuse_merchants, replace_admins, update_governance, initiate_recovery, cancel_recovery,
  update_recovery_address, execute_recovery, transfer_admin, change_threshold, upgrade, pause,
  unpause,
}

pub refuse_merchants_sound :
    (admins : List Address) (l : State)
    → Ensures
        (refuse_merchants admins l)
        (λ _ l'. All (λ a. l.store.merchants a ≡ false) admins × (l' ≡ l))
unfolding refuse_merchants
refuse_merchants_sound [] l = (tt, refl)
refuse_merchants_sound (a ∷ rest) l = ground (arith, refuse_merchants_sound rest l)

-- What `execute_recovery` has checked of the pending recovery, and the storage that it leaves.
pub record Recovered (h : Host) (s s' : Store) (p : PendingRecovery) : Type 0 where
  pub elapsed : p.execute_after ≤ h.env.timestamp
  pub valid : IsAdminSet (p.new_admin ∷ []) 1
  pub written :
      s'
      ≡ record s { admins = some (p.new_admin ∷ []); threshold = some 1; pending_recovery = none }

-- What `initiate_recovery` has checked, and the recovery that it stores.
pub record Initiated (h : Host) (s s' : Store) (new_admin recovery : Address) : Type 0 where
  pub agreed : h.env.authorized recovery ≡ true
  pub nonzero : new_admin ≢ 0
  pub free : s.pending_recovery ≡ none
  pub written : s' ≡ record s {
    pending_recovery = some (
        pending (record {
          new_admin = new_admin;
          execute_after = h.env.timestamp + 604800;
          initiated_by = recovery;
        }));
  }

-- The initiator or a quorum has agreed to the cancellation, which removes the pending recovery.
pub record Cancelled (h : Host) (s s' : Store) (signers : List Address) (p : PendingRecovery)
    : Type 0 where
  pub agreed : (h.env.authorized p.initiated_by ≡ true) ⊎ IsApproved h s signers
  pub written : s' ≡ record s { pending_recovery = none }

-- A condition on the pending recovery; there is none if nothing is stored that decodes.
abbrev pub OfPending : (PendingRecovery → Type 0) → Option RecoveryEntry → Type 0
OfPending P (some (pending p)) = P p
OfPending P (some undecodable) = ⊥
OfPending P none = ⊥

abbrev pub OfAddress : (Address → Type 0) → Option Address → Type 0
OfAddress P (some a) = P a
OfAddress P none = ⊥

-- What `transfer_admin` and its timelocked form have checked, and the storage that they leave.
pub record Transferred (s s' : Store) (admins : List Address) (n : ℕ) : Type 0 where
  pub valid : IsAdminSet admins n
  pub no_merchants : All (λ a. s.merchants a ≡ false) admins
  pub written : s' ≡ record s { admins = some admins; threshold = some n }

-- One more signer than the stored threshold has agreed to the new one.
pub record ThresholdChanged (h : Host) (s s' : Store) (signers : List Address) (n : ℕ)
    (admins : List Address) (current : ℕ) : Type 0 where
  pub quorum : Quorum h.env admins signers (current + 1)
  pub positive : 0 < n
  pub reachable : n ≤ length admins
  pub different : n ≢ current
  pub written : s' ≡ record s { threshold = some n }

pub replace_admins_effect :
    (old admins : List Address) (n : ℕ) (l : State)
    → Ensures (replace_admins old admins n l) (λ _ l'. Transferred l.store l'.store admins n)
unfolding replace_admins
replace_admins_effect old admins n l =
    bind-Ensures _ (refuse_merchants admins) _ l (refuse_merchants_sound admins l)
      λ _ l1 free. ground (arith, write_admins_effect admins n l1)

abbrev pub OfAdmins : (List Address → ℕ → Type 0) → Option (List Address) → Option ℕ → Type 0
OfAdmins P (some admins) (some n) = P admins n
OfAdmins P (some admins) none = ⊥
OfAdmins P none _ = ⊥

module _ (h : Host) where
  pub execute_recovery_effect :
      (l : State)
      → Ensures
          (execute_recovery h l)
          (λ _ l'. OfPending (Recovered h l.store l'.store) l.store.pending_recovery)
  unfolding execute_recovery read_pending_recovery
  execute_recovery_effect l = grind (arith, write_admins_effect)

  pub initiate_recovery_effect :
      (new_admin : Address) (l : State)
      → Ensures
          (initiate_recovery h new_admin l)
          (λ _ l'. OfAddress (Initiated h l.store l'.store new_admin) l.store.recovery_address)
  unfolding initiate_recovery read_recovery_address
  initiate_recovery_effect new_admin l = ground arith

  pub cancel_recovery_effect :
      (signers : List Address) (l : State)
      → Ensures
          (cancel_recovery h signers l)
          (λ _ l'. OfPending (Cancelled h l.store l'.store signers) l.store.pending_recovery)
  unfolding cancel_recovery read_pending_recovery
  cancel_recovery_effect signers l = ground (
    arith,
    verify_admins_sound h signers
        (record l { extensions = instance_entry 50_000 100_000 ∷ l.extensions }),
  )

  -- A `transfer_admin` that returns was approved by a quorum of the stored admins, and the new
  -- admins are distinct, not zero, not registered as merchants, and at least as many as their
  -- threshold, which is at least 1. It stores them with their threshold, and nothing else in the
  -- storage changes.
  pub transfer_admin_effect :
      (signers new_admins : List Address) (n : ℕ) (l : State)
      → Ensures
          (transfer_admin h signers new_admins n l)
          (λ _ l'. IsApproved h l.store signers × Transferred l.store l'.store new_admins n)
  unfolding transfer_admin read_admins read_threshold
  transfer_admin_effect signers new_admins n l =
      bind-Ensures _ (verify_admins h signers) _ l (verify_admins_sound h signers l)
        λ _ l1 approved.
          bind-Ensures _ (validate_admins_and_threshold new_admins n) _ l1
            (validate_admins_sound new_admins n l1)
            λ _ l2 valid. grind (arith, replace_admins_effect)

  pub change_threshold_effect :
      (signers : List Address) (n : ℕ) (l : State)
      → Ensures (change_threshold h signers n l) (λ _ l'.
        OfAdmins (ThresholdChanged h l.store l'.store signers n) l.store.admins l.store.threshold)
  unfolding change_threshold verify_admin_auth read_admins read_threshold
  change_threshold_effect signers n l = grind (arith, verify_quorum_sound h.env unauthorized)

  pub pause_effect :
      (signers : List Address) (reason : ℕ) (l : State)
      → Ensures (pause h signers reason l) (λ _ l'.
        IsApproved h l.store signers
        × (is_paused l.store ≡ false)
        × (reason ≤ 99)
        × (l'.store ≡ record (l.store) { paused_flag = some true }))
  unfolding pause
  pause_effect signers reason l = ground (arith, verify_admins_sound h signers l)

  pub unpause_effect :
      (signers : List Address) (l : State)
      → Ensures (unpause h signers l) (λ _ l'.
        IsApproved h l.store signers
        × (is_paused l.store ≡ true)
        × (l'.store ≡ record (l.store) { paused_flag = some false }))
  unfolding unpause
  unpause_effect signers l = ground (arith, verify_admins_sound h signers l)

  pub update_governance_effect :
      (signers : List Address) (g : Address) (l : State)
      → Ensures (update_governance h signers g l) (λ _ l'.
        IsApproved h l.store signers
        × (is_paused l.store ≡ false)
        × (g ≢ 0)
        × (l'.store ≡ record (l.store) { governance = some g }))
  unfolding update_governance
  update_governance_effect signers g l = ground (arith, assert_admin_sound h signers l)

  pub update_recovery_address_effect :
      (signers : List Address) (a : Address) (l : State)
      → Ensures (update_recovery_address h signers a l) (λ _ l'.
        IsApproved h l.store signers
        × (a ≢ 0)
        × (l'.store ≡ record (l.store) { recovery_address = some a }))
  unfolding update_recovery_address
  update_recovery_address_effect signers a l = ground (arith, verify_admins_sound h signers l)

  pub upgrade_effect :
      (signers : List Address) (code : Hash) (l : State)
      → Ensures (upgrade h signers code l) (λ _ l'.
        IsApproved h l.store signers
        × (answered_true (h.env.probe code 1) ≡ true)
        × (l'.store ≡ record (l.store) { wasm = code }))
  unfolding upgrade probe_supports_interface
  upgrade_effect signers code l = ground (arith, verify_admins_sound h signers l)
