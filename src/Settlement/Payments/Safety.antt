-- ===== src/Settlement/Payments/Safety.antt =====
-- What a merchant can rely on: a payment that is stored is the one that is read, and its reference
-- is not stored twice.
use betta_pay_contract.Base.{◌≡◌, true, false, Option, none, some, List, arith}
use betta_pay_contract.Base.Int.{ℤ}
use betta_pay_contract.Base.Ledger.{Ensures, bind-Ensures, weaken-Ensures}
use betta_pay_contract.Common.Env.{Env, Address, Reference}
use betta_pay_contract.Settlement.Types.{FeeSplit, PaymentRecord, EffectiveRule}
use betta_pay_contract.Settlement.State.{Store, State, Host, later}
use betta_pay_contract.Settlement.Storage.{assert_payments_readable}
use betta_pay_contract.Settlement.Storage.Access.{Unchanged, verify_admins_sound}
use betta_pay_contract.Settlement.Fees.Precedence.{rule_for, OfRule}
use betta_pay_contract.Settlement.Payments.{
  payment_of, store_payment_reference, get_payment_reference, assert_read_authorized,
}
use betta_pay_contract.Settlement.Payments.Effect.{
  Recorded, Written, store_payment_reference-Recorded,
}
use betta_pay_contract.Settlement.Merchant.{unregister_merchant}
use betta_pay_contract.Settlement.Merchant.Effect.{unregister_merchant_effect}

-- The payment of an amount with this split, as a record shows it.
abbrev pub Shows : Address → ℤ → FeeSplit → Option PaymentRecord → Type 0
Shows m amount split none = ⊥
Shows m amount split (some p) =
    (p.merchant ≡ m)
    × (p.amount ≡ amount)
    × (p.platform_fee_amount ≡ split.platform_fee_amount)
    × (p.network_fee_amount ≡ split.network_fee_amount)
    × (p.merchant_payout_amount ≡ split.merchant_payout_amount)

Recorded-Shows :
    (h : Host) (s s' : Store) (m : Address) (r : Reference) (amount : ℤ) (split : FeeSplit)
    → Recorded h s s' m r amount split
    → Shows m amount split (payment_of s' m r)
unfolding Recorded
Recorded-Shows h s s' m r amount split e = shown (rule_for h s m) e
  where
    shown :
        (o : Option EffectiveRule)
        → OfRule (Written h s s' m r amount split) o
        → Shows m amount split (payment_of s' m r)
    shown (some rule) w = ground (arith, w.recorded)
    shown none w = elim w [ ]

module _ (h : Host) where
  assert_read_authorized-Unchanged :
      (m : Address) (signers : List Address) (l : State)
      → Ensures (assert_read_authorized h m signers l) (λ _ l'. Unchanged l l')
  unfolding assert_read_authorized
  assert_read_authorized-Unchanged m signers l = ground (arith, verify_admins_sound h signers l)

  -- A `get_payment_reference` that returns found the merchant registered and not archived, returns
  -- what is stored under the reference, and changes nothing in the storage.
  pub get_payment_reference-stored :
      (m : Address) (r : Reference) (signers : List Address) (l : State)
      → Ensures (get_payment_reference h m r signers l) (λ p l'.
        (l.store.merchants m ≡ true)
        × (l.store.archived_merchants m ≡ false)
        × (p ≡ payment_of l.store m r)
        × Unchanged l l')
  unfolding get_payment_reference assert_payments_readable
  get_payment_reference-stored m r signers l =
      bind-Ensures _ (assert_read_authorized h m signers) _ l
        (assert_read_authorized-Unchanged m signers l) λ _ l1 e1. ground arith

module _ (h : Host) (env : Env) where
  -- After `store_payment_reference` returned a split, a `get_payment_reference` of the same
  -- merchant and reference that returns gives a record with the merchant, the amount and the parts
  -- of this split, at any time and for any reader.
  pub store-get_payment :
      (m : Address) (r : Reference) (amount : ℤ) (readers : List Address) (l : State)
      → Ensures (store_payment_reference h m r amount l) (λ split l'.
        Ensures
          (get_payment_reference (later h env) m r readers l')
          (λ p _. Shows m amount split p))
  store-get_payment m r amount readers l =
      weaken-Ensures _ (store_payment_reference h m r amount l)
        (store_payment_reference-Recorded h m r amount l)
        λ split l' e. ground (
          arith,
          get_payment_reference-stored (later h env) m r readers l',
          Recorded-Shows h l.store l'.store m r amount split e.1,
        )

  -- After `store_payment_reference` returned, another one for the same merchant and reference
  -- never returns in the storage that it leaves, whatever the amount, the time and the
  -- authorizations: the reference is not stored twice and the record is not replaced.
  pub store_payment_unique :
      (m : Address) (r : Reference) (amount other : ℤ) (l : State)
      → Ensures
          (store_payment_reference h m r amount l)
          (λ _ l'. Ensures (store_payment_reference (later h env) m r other l') (λ _ _. ⊥))
  store_payment_unique m r amount other l =
      weaken-Ensures _ (store_payment_reference h m r amount l)
        (store_payment_reference-Recorded h m r amount l)
        λ split l' e. ground (
          arith,
          store_payment_reference-Recorded (later h env) m r other l',
          Recorded-Shows h l.store l'.store m r amount split e.1,
        )

  -- After `unregister_merchant` returned, the merchant's payments are all still stored, but
  -- `get_payment_reference` for this merchant never returns in the storage that it leaves, whoever
  -- reads.
  pub unregister_orphaned :
      (signers readers : List Address) (m : Address) (r : Reference) (l : State)
      → Ensures (unregister_merchant h signers m l) (λ _ l'.
        (l'.store.payments ≡ l.store.payments)
        × Ensures (get_payment_reference (later h env) m r readers l') (λ _ _. ⊥))
  unregister_orphaned signers readers m r l =
      weaken-Ensures _ (unregister_merchant h signers m l)
        (unregister_merchant_effect h signers m l)
        λ _ l' e.
          ground (arith, e.1.written, get_payment_reference-stored (later h env) m r readers l')
