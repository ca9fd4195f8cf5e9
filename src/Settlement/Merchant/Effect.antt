-- ===== src/Settlement/Merchant/Effect.antt =====
-- What the registry of merchants checks and writes.
use betta_pay_contract.Base.{◌≡◌, ◌≢◌, true, false, Option, none, some, List, ◌∷◌, arith}
use mathlib.Core.Path.{subst}
use betta_pay_contract.Base.Lists.{contains}
use betta_pay_contract.Base.Ledger.{Ensures, bind-Ensures, pass-Ensures, weaken-Ensures, first}
use betta_pay_contract.Common.Env.{Address, require_auth}
use betta_pay_contract.Settlement.Types.{zero_address}
use betta_pay_contract.Settlement.State.{Store, State, Event, Host}
use betta_pay_contract.Settlement.Storage.{
  assert_admin_and_not_paused, validate_nonzero_address, read_admins, is_paused,
}
use betta_pay_contract.Settlement.Storage.Access.{IsApproved, Unchanged, assert_admin_sound}
use betta_pay_contract.Settlement.Fees.Frame.{read_fallback_rule-OnlyCached}
use betta_pay_contract.Settlement.Merchant.{
  refuse_admin, with_merchant, unarchived, add_merchant, tombstoned, remove_merchant,
  register_merchant, unregister_merchant,
}

-- An address is none of the stored admins.
abbrev pub NoAdmin : Option (List Address) → Address → Type 0
NoAdmin none m = ⊥
NoAdmin (some admins) m = contains admins m ≡ false

-- What a registration has checked, and the storage that it leaves.
pub record Registered (s s' : Store) (m : Address) : Type 0 where
  pub unpaused : is_paused s ≡ false
  pub nonzero : m ≢ 0
  pub no_admin : NoAdmin s.admins m
  pub new : s.merchants m ≡ false
  pub written : s' ≡ unarchived m (with_merchant m s)

-- A removal deletes the entry and the rule, and leaves a tombstone; payments stay.
pub record Unregistered (s s' : Store) (m : Address) : Type 0 where
  pub unpaused : is_paused s ≡ false
  pub present : s.merchants m ≡ true
  pub written :
      s' ≡ record (tombstoned m s) { rules = s'.rules; cached_gov_rule = s'.cached_gov_rule }
  pub rule_gone : s'.rules m ≡ none
  pub other_rules : (k : Address) → k ≢ m → s'.rules k ≡ s.rules k

pub refuse_admin_sound :
    (m : Address) (l : State)
    → Ensures (refuse_admin m l) (λ _ l'. NoAdmin l.store.admins m × Unchanged l l')
unfolding refuse_admin read_admins
refuse_admin_sound m l = ground arith

pub add_merchant_effect :
    (m : Address) (l : State)
    → Ensures (add_merchant m l) (λ _ l'.
      (l.store.merchants m ≡ false) × (l'.store ≡ unarchived m (with_merchant m l.store)))
unfolding add_merchant
add_merchant_effect m l = ground arith

module _ (h : Host) where
  pub remove_merchant_effect :
      (m actor : Address) (l : State)
      → is_paused l.store ≡ false
      → Ensures (remove_merchant h m actor l) (λ _ l'. Unregistered l.store l'.store m)
  unfolding remove_merchant
  remove_merchant_effect m actor l u = grind (arith, read_fallback_rule-OnlyCached h)

module _ (h : Host) (signers : List Address) where
  -- A `register_merchant` that returns was approved by a quorum of the stored admins while the
  -- contract was not paused, and authorized by the merchant, whose address is not zero, is none of
  -- the stored admins' and was not registered. It registers the merchant and removes a tombstone,
  -- and nothing else in the storage changes.
  pub register_merchant_effect :
      (m : Address) (l : State)
      → Ensures (register_merchant h signers m l) (λ _ l'.
        IsApproved h l.store signers × (h.env.authorized m ≡ true) × Registered l.store l'.store m)
  unfolding register_merchant
  register_merchant_effect m l =
      bind-Ensures _ (assert_admin_and_not_paused h signers) _ l (assert_admin_sound h signers l)
        λ _ l1 approved. pass-Ensures _ (validate_nonzero_address m zero_address) _ l1 λ _ l2 e2.
          pass-Ensures _ (first signers) _ l2 λ admin l3 e3.
            bind-Ensures _ (refuse_admin m) _ l3 (refuse_admin_sound m l3) λ _ l4 free.
              pass-Ensures _ (require_auth h.env m) _ l4 λ _ l5 e5. ground (
                arith,
                add_merchant_effect m (record l5 { events = Event.merchant_consent m ∷ l5.events }),
              )

  pub unregister_merchant_effect :
      (m : Address) (l : State)
      → Ensures
          (unregister_merchant h signers m l)
          (λ _ l'. IsApproved h l.store signers × Unregistered l.store l'.store m)
  unfolding unregister_merchant
  unregister_merchant_effect m l =
      bind-Ensures _ (assert_admin_and_not_paused h signers) _ l (assert_admin_sound h signers l)
        λ _ l1 approved. pass-Ensures _ (first signers) _ l1 λ admin l2 e2.
          let same_store : l2.store ≡ l.store = ground arith in
          weaken-Ensures _ (remove_merchant h m admin l2)
            (remove_merchant_effect h m admin l2 (ground arith))
            λ _ l' e. (approved.0, subst (λ s. Unregistered s l'.store m) same_store e)
