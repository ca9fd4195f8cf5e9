-- ===== src/Governance/Contract/Effect.antt =====
-- What the governance contract's entry points check and write.
use betta_pay_contract.Base.{
  ℕ, ◌≤◌, ◌≡◌, ◌≢◌, true, false, Option, none, some, List, update, arith, is_some,
}
use betta_pay_contract.Base.Int.{ℤ, pos, ◌≤ℤ◌}
use betta_pay_contract.Base.Ledger.{Ensures}
use betta_pay_contract.Common.Env.{Env, Address, Symbol}
use betta_pay_contract.Common.Auth.Quorum.{
  Quorum, IsAdminSet, verify_quorum_sound, validate_set_sound,
}
use betta_pay_contract.Governance.State.{
  FeeConfig, Store, State, unauthorized, invalid_threshold, invalid_admin,
}
use betta_pay_contract.Governance.Storage.{
  read_admins, read_threshold, validate_admins_and_threshold, verify_admin_auth, verify_admins,
  assert_admin_and_not_paused, is_paused,
}
use betta_pay_contract.Governance.Contract.{
  set_fee_config, update_system_param, upsert_anchor, remove_anchor, set_param,
}

abbrev HasQuorum : Env → Option (List Address) → Option ℕ → List Address → Type 0
HasQuorum env (some admins) (some n) signers = Quorum env admins signers n
HasQuorum env (some admins) none signers = ⊥
HasQuorum env none _ signers = ⊥

-- The stored admins and threshold make the signers a quorum.
unfoldable pub IsApproved : Env → Store → List Address → Type 0
IsApproved env s signers = HasQuorum env s.admins s.threshold signers

-- Nothing but requests to extend time-to-live has been made.
abbrev pub Unchanged : State → State → Type 0
Unchanged l l' = (l'.store ≡ l.store) × (l'.events ≡ l.events)

-- The bounds on a fee configuration: each fee from 5 to 5,000 basis points.
pub record IsBounded (c : FeeConfig) : Type 0 where
  pub platform_min : 5 ≤ c.platform_fee_bps
  pub platform_max : c.platform_fee_bps ≤ 5000
  pub network_min : 5 ≤ c.network_fee_bps
  pub network_max : c.network_fee_bps ≤ 5000

pub validate_admins_sound :
    (admins : List Address) (n : ℕ) (l : State)
    → Ensures (validate_admins_and_threshold admins n l) (λ _ l'. IsAdminSet admins n × (l' ≡ l))
unfolding validate_admins_and_threshold
validate_admins_sound admins n l =
    validate_set_sound invalid_threshold invalid_admin invalid_admin admins n l

module _ (env : Env) (signers : List Address) where
  pub verify_admins_sound :
      (l : State)
      → Ensures
          (verify_admins env signers l)
          (λ _ l'. IsApproved env l.store signers × Unchanged l l')
  unfolding IsApproved verify_admins verify_admin_auth read_admins read_threshold
  verify_admins_sound l = grind (arith, verify_quorum_sound env unauthorized)

  pub assert_admin_sound :
      (l : State)
      → Ensures
          (assert_admin_and_not_paused env signers l)
          (λ _ l'. IsApproved env l.store signers × (is_paused l.store ≡ false) × Unchanged l l')
  unfolding assert_admin_and_not_paused
  assert_admin_sound l = ground (arith, verify_admins_sound l)

  -- A `set_fee_config` that returns was approved by a quorum of the stored admins while the
  -- contract was not paused, and each fee is from 5 to 5,000 basis points. It stores the
  -- configuration, and nothing else in the storage changes.
  pub set_fee_config_effect :
      (c : FeeConfig) (l : State)
      → Ensures (set_fee_config env signers c l) (λ _ l'.
        IsApproved env l.store signers
        × (is_paused l.store ≡ false)
        × IsBounded c
        × (l'.store ≡ record (l.store) { fee_config = some c }))
  unfolding set_fee_config
  set_fee_config_effect c l = ground (arith, assert_admin_sound l)

  -- An `update_system_param` that returns was approved by a quorum of the stored admins while the
  -- contract was not paused, and the value is not negative. It sets the parameter, and nothing
  -- else in the storage changes.
  pub update_system_param_effect :
      (key : Symbol) (value : ℤ) (l : State)
      → Ensures (update_system_param env signers key value l) (λ _ l'.
        IsApproved env l.store signers
        × (is_paused l.store ≡ false)
        × (pos 0 ≤ℤ value)
        × (l'.store
            ≡ record (l.store) { system_params = set_param l.store.system_params key value }))
  unfolding update_system_param
  update_system_param_effect key value l = ground (arith, assert_admin_sound l)

  -- An `upsert_anchor` that returns was approved by a quorum of the stored admins while the
  -- contract was not paused, for two different addresses that are not zero. It stores the anchor
  -- under the asset, and nothing else in the storage changes.
  pub upsert_anchor_effect :
      (asset anchor : Address) (l : State)
      → Ensures (upsert_anchor env signers asset anchor l) (λ _ l'.
        IsApproved env l.store signers
        × (is_paused l.store ≡ false)
        × (asset ≢ 0)
        × (anchor ≢ 0)
        × (asset ≢ anchor)
        × (l'.store ≡ record (l.store) { anchors = update l.store.anchors asset (some anchor) }))
  unfolding upsert_anchor
  upsert_anchor_effect asset anchor l = ground (arith, assert_admin_sound l)

  pub remove_anchor_effect :
      (asset : Address) (l : State)
      → Ensures (remove_anchor env signers asset l) (λ _ l'.
        IsApproved env l.store signers
        × (is_paused l.store ≡ false)
        × (is_some (l.store.anchors asset) ≡ true)
        × (l'.store ≡ record (l.store) { anchors = update l.store.anchors asset none }))
  unfolding remove_anchor
  remove_anchor_effect asset l = ground (arith, assert_admin_sound l)
