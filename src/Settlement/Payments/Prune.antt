-- ===== src/Settlement/Payments/Prune.antt =====
-- What `prune_payment` checks and writes.
use betta_pay_contract.Base.{
  ℕ, ◌-◌, ◌≡◌, ◌≢◌, false, ◌⊎◌, none, some, List, update, arith, if◌then◌else◌,
}
use betta_pay_contract.Base.Dict.{has, delete, get-delete}
use betta_pay_contract.Base.Ledger.{Ensures, weaken-Ensures}
use betta_pay_contract.Common.Env.{Address, Reference}
use betta_pay_contract.Settlement.State.{Store, State, Host}
use betta_pay_contract.Settlement.Storage.{is_paused, payment_count, decrement_payment_count}
use betta_pay_contract.Settlement.Storage.Access.{IsApproved, verify_admins_sound}
use betta_pay_contract.Settlement.Payments.{payment_of, prune_payment}

-- What `prune_payment` has checked, and the storage that it leaves.
pub record Pruned (h : Host) (s s' : Store) (signers : List Address) (m : Address) (r : Reference)
    : Type 0 where
  pub approved : IsApproved h s signers
  pub unpaused : is_paused s ≡ false
  pub gone : payment_of s' m r ≡ none
  pub others : (k j : ℕ) → k ≢ m ⊎ j ≢ r → payment_of s' k j ≡ payment_of s k j
  pub counted :
      payment_count s' m
      ≡ (if has (s.payments m) r then payment_count s m - 1 else payment_count s m)

module _ (h : Host) where
  pub pruned_writes :
      (signers : List Address) (m : Address) (r : Reference) (l : State)
      → Ensures (prune_payment h signers m r l) (λ _ l'.
        IsApproved h l.store signers
        × (is_paused l.store ≡ false)
        × (l'.store.payments ≡ (
            if has (l.store.payments m) r
            then update l.store.payments m (delete (l.store.payments m) r)
            else l.store.payments))
        × (l'.store.payment_counts ≡ (
            if has (l.store.payments m) r
            then update l.store.payment_counts m (some (payment_count l.store m - 1))
            else l.store.payment_counts)))
  unfolding prune_payment decrement_payment_count
  pruned_writes signers m r l = ground (arith, verify_admins_sound h signers l)

  -- A `prune_payment` that returns was approved by a quorum of the stored admins while the
  -- contract was not paused. Afterwards the reference is free, no other payment has changed, and
  -- the merchant's count is one less, down to zero, if there was a payment, and else as before.
  pub prune_payment-Pruned :
      (signers : List Address) (m : Address) (r : Reference) (l : State)
      → Ensures (prune_payment h signers m r l) (λ _ l'. Pruned h l.store l'.store signers m r)
  prune_payment-Pruned signers m r l =
      weaken-Ensures _ (prune_payment h signers m r l) (pruned_writes signers m r l) λ _ l' e.
        record {
          approved = e.0;
          unpaused = e.1;
          gone = ground (arith, get-delete (l.store.payments m) r r);
          others = λ k j ne. ground (arith, get-delete (l.store.payments m) r j);
          counted = ground arith;
        }
