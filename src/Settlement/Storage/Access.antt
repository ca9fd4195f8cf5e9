-- ===== src/Settlement/Storage/Access.antt =====
-- What the access checks of Settlement/Storage.antt let through, and that they leave the storage
-- and the events as they are.
use betta_pay_contract.Base.{ℕ, ◌≡◌, false, Option, none, some, List, arith}
use betta_pay_contract.Base.Ledger.{Ensures, Returns}
use betta_pay_contract.Common.Env.{Env, Address}
use betta_pay_contract.Common.Auth.Quorum.{
  Quorum, IsAdminSet, verify_quorum_sound, verify_quorum_complete, validate_set_sound,
}
use betta_pay_contract.Settlement.Types.{
  unauthorized, invalid_threshold, zero_address, invalid_admin,
}
use betta_pay_contract.Settlement.State.{Store, State, Host}
use betta_pay_contract.Settlement.Storage.{
  read_admins, read_threshold, verify_admin_auth, verify_admins, assert_admin_and_not_paused,
  validate_admins_and_threshold, write_admins, is_paused,
}

-- The stored admins and threshold make the signers a quorum.
abbrev pub HasQuorum : Env → Option (List Address) → Option ℕ → List Address → Type 0
HasQuorum env (some admins) (some n) signers = Quorum env admins signers n
HasQuorum env (some admins) none signers = ⊥
HasQuorum env none _ signers = ⊥

unfoldable pub IsApproved : Host → Store → List Address → Type 0
IsApproved h store signers = HasQuorum h.env store.admins store.threshold signers

-- Nothing but requests to extend time-to-live has been made.
abbrev pub Unchanged : State → State → Type 0
Unchanged l l' = (l'.store ≡ l.store) × (l'.events ≡ l.events)

module _ (h : Host) (signers : List Address) where
  -- `verify_admin_auth` at the stored threshold passes only for a quorum of the stored admins.
  pub verify_admins_sound :
      (l : State)
      → Ensures (verify_admins h signers l) (λ _ l'. IsApproved h l.store signers × Unchanged l l')
  unfolding IsApproved verify_admins verify_admin_auth read_admins read_threshold
  verify_admins_sound l = grind (arith, verify_quorum_sound h.env unauthorized)

  pub assert_admin_sound :
      (l : State)
      → Ensures
          (assert_admin_and_not_paused h signers l)
          (λ _ l'. IsApproved h l.store signers × (is_paused l.store ≡ false) × Unchanged l l')
  unfolding assert_admin_and_not_paused
  assert_admin_sound l = ground (arith, verify_admins_sound l)

-- A quorum of the stored admins passes.
module _ (h : Host) (signers : List Address) where
  pub verify_admins_complete :
      (l : State) → IsApproved h l.store signers → Returns (verify_admins h signers l)
  unfolding IsApproved verify_admins verify_admin_auth read_admins read_threshold
  verify_admins_complete l q = grind (arith, verify_quorum_complete h.env unauthorized)

  pub assert_admin_complete :
      (l : State)
      → IsApproved h l.store signers
      → is_paused l.store ≡ false
      → Returns (assert_admin_and_not_paused h signers l)
  unfolding assert_admin_and_not_paused
  assert_admin_complete l q u = ground (arith, verify_admins_complete l q)

pub validate_admins_sound :
    (admins : List Address) (n : ℕ) (l : State)
    → Ensures (validate_admins_and_threshold admins n l) (λ _ l'. IsAdminSet admins n × (l' ≡ l))
unfolding validate_admins_and_threshold
validate_admins_sound = validate_set_sound invalid_threshold zero_address invalid_admin

pub write_admins_effect :
    (admins : List Address) (n : ℕ) (l : State)
    → Ensures (write_admins admins n l) (λ _ l'.
      IsAdminSet admins n
      × (l'.store ≡ record (l.store) { admins = some admins; threshold = some n }))
unfolding write_admins
write_admins_effect admins n l = ground (arith, validate_admins_sound admins n l)
