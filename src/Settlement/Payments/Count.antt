-- ===== src/Settlement/Payments/Count.antt =====
-- The stored number of a merchant's payments is the number of payments that are stored.
use mathlib.Core.Path.{subst, sym, ap, ◌∙◌}
use betta_pay_contract.Base.{
  ◌+◌, ◌-◌, ◌==◌, ◌≡◌, Bool, true, false, Option, none, some, List, arith, update, Bool-cases,
  ==_iff, inl, inr, if◌then◌else◌,
}
use betta_pay_contract.Base.Int.{ℤ}
use betta_pay_contract.Base.Lists.{length}
use betta_pay_contract.Base.Dict.{
  Dict, get, has, set, delete, IsKeyed, get-set, set-IsKeyed, delete-IsKeyed, length-set,
  length-delete,
}
use betta_pay_contract.Base.Ledger.{Ensures, weaken-Ensures}
use betta_pay_contract.Common.Rule.{SettlementRule}
use betta_pay_contract.Common.Env.{Address, Reference}
use betta_pay_contract.Settlement.Types.{FeeSplit, PaymentRecord, EffectiveRule}
use betta_pay_contract.Settlement.State.{Store, State, Host}
use betta_pay_contract.Settlement.Storage.{payment_count}
use betta_pay_contract.Settlement.Fees.Precedence.{rule_for, OfRule}
use betta_pay_contract.Settlement.Payments.{
  payment_of, payment_record, dummy_record, store_payment_reference, prune_payment,
}
use betta_pay_contract.Settlement.Payments.Prune.{pruned_writes}
use betta_pay_contract.Settlement.Payments.Effect.{
  Written, Recorded, store_payment_reference-Recorded,
}

-- Each reference of the merchant is stored once, and the count is the number of them.
pub record IsCounted (s : Store) (m : Address) : Type 0 where
  pub keyed : IsKeyed (s.payments m)
  pub counted : payment_count s m ≡ length (s.payments m)

-- A reference that is new adds one payment to the merchant's.
module _ (d : Dict PaymentRecord) (r : Reference) (x y : PaymentRecord) where
  twice-IsKeyed : IsKeyed d → IsKeyed (set (set d r x) r y)
  twice-IsKeyed k = set-IsKeyed (set d r x) r y (set-IsKeyed d r x k)

  length-twice : get d r ≡ none → length (set (set d r x) r y) ≡ length d + 1
  length-twice e = ground (arith, length-set d r x, length-set (set d r x) r y, get-set d r r x)

Written-IsCounted :
    (h : Host) (s s' : Store) (m : Address) (r : Reference) (amount : ℤ) (split : FeeSplit)
    (rule : SettlementRule) (k : Address)
    → Written h s s' m r amount split rule
    → payment_of s m r ≡ none
    → IsCounted s k
    → IsCounted s' k
Written-IsCounted h s s' m r amount split rule k w new c = elim (Bool-cases (k == m)) [
  | inl e ↦
      let here : k ≡ m = (==_iff k m).0 e in
      record {
        keyed = subst IsKeyed (sym (ap s'.payments here ∙ w.listed)) (
            twice-IsKeyed (s.payments m) r (dummy_record m)
              (payment_record h.env m amount rule split)
              (subst (λ a. IsKeyed (s.payments a)) here c.keyed));
        counted = ground (
          arith,
          c.counted,
          w.counted,
          w.listed,
          length-twice (s.payments m) r (dummy_record m) (payment_record h.env m amount rule split)
              new,
        );
      }
  | inr e ↦
      let there : s'.payments k ≡ s.payments k = w.unlisted k (ground arith) in
      record {
        keyed = subst IsKeyed (sym there) c.keyed;
        counted = ground (arith, c.counted, w.counted);
      }
]

kept-IsKeyed :
    (d : Dict PaymentRecord) (r : Reference) (found : Bool)
    → IsKeyed d
    → IsKeyed (if found then delete d r else d)
kept-IsKeyed d r true k = delete-IsKeyed d r k
kept-IsKeyed d r false k = k

pub pruned-IsCounted :
    (s s' : Store) (m k : Address) (r : Reference)
    → s'.payments
      ≡ (if has (s.payments m) r then update s.payments m (delete (s.payments m) r) else s.payments)
    → s'.payment_counts ≡ (
        if has (s.payments m) r
        then update s.payment_counts m (some (payment_count s m - 1))
        else s.payment_counts)
    → IsCounted s k
    → IsCounted s' k
pruned-IsCounted s s' m k r p n c = elim (Bool-cases (k == m)) [
  | inl e ↦
      let here : k ≡ m = (==_iff k m).0 e in
      let keyed : IsKeyed (s.payments m) = subst (λ a. IsKeyed (s.payments a)) here c.keyed in
      let listed : s'.payments k
          ≡ (if has (s.payments m) r then delete (s.payments m) r else s.payments m) =
        ground arith in
      record {
        keyed =
            subst IsKeyed (sym listed) (kept-IsKeyed (s.payments m) r (has (s.payments m) r) keyed);
        counted = ground (arith, c.counted, length-delete (s.payments m) r keyed);
      }
  | inr e ↦
      let there : s'.payments k ≡ s.payments k = ground arith in
      record { keyed = subst IsKeyed (sym there) c.keyed; counted = ground (arith, c.counted) }
]

pub Recorded-IsCounted :
    (h : Host) (s s' : Store) (m : Address) (r : Reference) (amount : ℤ) (split : FeeSplit)
    (k : Address)
    → Recorded h s s' m r amount split
    → payment_of s m r ≡ none
    → IsCounted s k
    → IsCounted s' k
unfolding Recorded
Recorded-IsCounted h s s' m r amount split k e new c = counted (rule_for h s m) e
  where
    counted :
        (o : Option EffectiveRule) → OfRule (Written h s s' m r amount split) o → IsCounted s' k
    counted (some x) w = Written-IsCounted h s s' m r amount split x.rule k w new c
    counted none w = elim w [ ]

module _ (h : Host) (m k : Address) (r : Reference) where
  -- If a merchant's count is the number of the stored payments, with distinct references, it is so
  -- after a `store_payment_reference` of this or of another merchant that returns.
  pub store_payment-IsCounted :
      (amount : ℤ) (l : State)
      → IsCounted l.store k
      → Ensures (store_payment_reference h m r amount l) (λ _ l'. IsCounted l'.store k)
  store_payment-IsCounted amount l c =
      weaken-Ensures _ (store_payment_reference h m r amount l)
        (store_payment_reference-Recorded h m r amount l)
        λ split l' e. Recorded-IsCounted h l.store l'.store m r amount split k e.1 e.0.new c

  -- If a merchant's count is the number of the stored payments, with distinct references, it is so
  -- after a `prune_payment` of this or of another merchant that returns.
  pub prune_payment-IsCounted :
      (signers : List Address) (l : State)
      → IsCounted l.store k
      → Ensures (prune_payment h signers m r l) (λ _ l'. IsCounted l'.store k)
  prune_payment-IsCounted signers l c =
      weaken-Ensures _ (prune_payment h signers m r l) (pruned_writes h signers m r l)
        λ _ l' e. pruned-IsCounted l.store l'.store m k r e.2 e.3 c
