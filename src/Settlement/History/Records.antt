-- ===== src/Settlement/History/Records.antt =====
-- Where a stored payment comes from, and that its record does not change.
use mathlib.Core.Path.{subst, sym}
use betta_pay_contract.Base.{
  ℕ, ◌==◌, ◌≡◌, refl, ◌⊎◌, inl, inr, Option, Option-cases, none, some, List, arith, ◌∙◌, ap,
  Bool-cases, ==_iff,
}
use betta_pay_contract.Base.Int.{ℤ}
use betta_pay_contract.Base.Dict.{get, IsKeyed, get-delete}
use betta_pay_contract.Base.Ledger.{Ensures, weaken-Ensures}
use betta_pay_contract.Common.Env.{Address, Reference}
use betta_pay_contract.Settlement.Types.{FeeSplit, PaymentRecord, EffectiveRule}
use betta_pay_contract.Settlement.State.{Store, State, Host}
use betta_pay_contract.Settlement.Fees.Precedence.{rule_for, OfRule}
use betta_pay_contract.Settlement.Payments.{payment_of, payment_record}
use betta_pay_contract.Settlement.Payments.Effect.{IsSplit, Written, Payable, Recorded}
use betta_pay_contract.Settlement.Payments.Batch.{BatchPruned, delete_all, delete_all-IsKeyed}
use betta_pay_contract.Settlement.Payments.Count.{IsCounted, Recorded-IsCounted, pruned-IsCounted}
use betta_pay_contract.Settlement.Invariant.Requests.{Request, handle}
use betta_pay_contract.Settlement.History.Steps.{Step, handle-Step}

-- The call stores the record in this storage: it asked for it, everything that is checked of a new
-- payment holds, and the record has the split of the amount by the rule that applies.
pub record Stores (h : Host) (request : Request) (s : Store) (m : Address) (r : Reference)
    (p : PaymentRecord) : Type 0 where
  pub amount : ℤ
  pub effective : EffectiveRule
  pub split : FeeSplit
  pub asked : request ≡ Request.store_payment_reference_request m r amount
  pub ready : Payable h s m r amount
  pub applies : rule_for h s m ≡ some effective
  pub shared : IsSplit amount effective.rule split
  pub written : p ≡ payment_record h.env m amount effective.rule split

-- A record that is stored after a call was stored before it, or the call has stored it.
pub data Origin (h : Host) (request : Request) (s : Store) (m : Address) (r : Reference)
    (p : PaymentRecord) : Type 0 where
  before : payment_of s m r ≡ some p → Origin h request s m r p
  now : Stores h request s m r p → Origin h request s m r p

BatchPruned-IsCounted :
    (h : Host) (s s' : Store) (signers : List Address) (m : Address) (refs : List Reference) (n : ℕ)
    (k : Address)
    → BatchPruned h s s' signers m refs n
    → IsCounted s k
    → IsCounted s' k
BatchPruned-IsCounted h s s' signers m refs n k b c = elim (Bool-cases (k == m)) [
  | inl e ↦
      let here : k ≡ m = (==_iff k m).0 e in
      let keyed : IsKeyed (s.payments m) = subst (λ a. IsKeyed (s.payments a)) here c.keyed in
      let listed : s'.payments k ≡ delete_all (s.payments m) refs =
        ap s'.payments here ∙ b.listed in
      record {
        keyed = subst IsKeyed (sym listed) (delete_all-IsKeyed (s.payments m) refs keyed);
        counted = ground (arith, c.counted, b.counted, b.number keyed);
      }
  | inr e ↦
      let there : s'.payments k ≡ s.payments k = b.unlisted k (ground arith) in
      record {
        keyed = subst IsKeyed (sym there) c.keyed;
        counted = ground (arith, c.counted, b.counted);
      }
]

module _ (h : Host) (request : Request) (s s' : Store) where
  Written-Origin :
      (m : Address) (r : Reference) (amount : ℤ) (split : FeeSplit) (effective : EffectiveRule)
      (k : Address) (j : Reference) (p : PaymentRecord)
      → request ≡ Request.store_payment_reference_request m r amount
      → Payable h s m r amount
      → rule_for h s m ≡ some effective
      → Written h s s' m r amount split effective.rule
      → payment_of s' k j ≡ some p
      → Origin h request s k j p
  Written-Origin m r amount split effective k j p asked ready applies w e =
      elim (Bool-cases (k == m)) [
        | inr other ↦ Origin.before (sym (w.others k j (inl (ground arith))) ∙ e)
        | inl same_m ↦ elim (Bool-cases (j == r)) [
          | inr other ↦ Origin.before (sym (w.others k j (inr (ground arith))) ∙ e)
          | inl same_r ↦
              let mk : m ≡ k = sym ((==_iff k m).0 same_m) in
              let rj : r ≡ j = sym ((==_iff j r).0 same_r) in
              subst (λ a. Origin h request s a j p) mk
                (subst (λ b. Origin h request s m b p) rj
                  (Origin.now (record {
                    amount = amount;
                    effective = effective;
                    split = split;
                    asked = asked;
                    ready = ready;
                    applies = applies;
                    shared = w.shared;
                    written = ground (arith, w.recorded);
                  })))
        ]
      ]

  pub Step-Origin :
      (k : Address) (j : Reference) (p : PaymentRecord)
      → Step h request s s'
      → payment_of s' k j ≡ some p
      → Origin h request s k j p
  unfolding Recorded
  Step-Origin k j p (Step.kept same) e = Origin.before (ground (arith, same.payments))
  Step-Origin k j p (Step.stored m r amount split asked ready written) e =
      at (rule_for h s m) refl written
    where
      at :
          (o : Option EffectiveRule)
          → rule_for h s m ≡ o
          → OfRule (Written h s s' m r amount split) o
          → Origin h request s k j p
      at (some effective) applies w =
          Written-Origin m r amount split effective k j p asked ready applies w e
      at none applies w = elim w [ ]
  Step-Origin k j p (Step.pruned signers m r one) e =
      Origin.before (ground (arith, one.payments, get-delete (s.payments m) r j))
  Step-Origin k j p (Step.batch_pruned signers m refs n batch) e =
      Origin.before (elim (Bool-cases (k == m)) [
        | inr other ↦ sym (ap (λ d. get d j) (batch.unlisted k (ground arith))) ∙ e
        | inl same_m ↦ let km : k ≡ m = (==_iff k m).0 same_m in ground (arith, batch.left j)
      ])

  Step-IsCounted : (k : Address) → Step h request s s' → IsCounted s k → IsCounted s' k
  Step-IsCounted k (Step.kept same) c = record {
    keyed = subst (λ f. IsKeyed (f k)) (sym same.payments) c.keyed;
    counted = ground (arith, c.counted, same.payments, same.counts);
  }
  Step-IsCounted k (Step.stored m r amount split asked ready written) c =
      Recorded-IsCounted h s s' m r amount split k written ready.new c
  Step-IsCounted k (Step.pruned signers m r one) c =
      pruned-IsCounted s s' m k r one.payments one.counts c
  Step-IsCounted k (Step.batch_pruned signers m refs n batch) c =
      BatchPruned-IsCounted h s s' signers m refs n k batch c

  -- A record that was there before and is there after is the same record.
  Origin-same :
      (k : Address) (j : Reference) (p q : PaymentRecord)
      → payment_of s k j ≡ some p
      → Origin h request s k j q
      → q ≡ p
  Origin-same k j p q e (Origin.before f) = ground arith
  Origin-same k j p q e (Origin.now stores) = ground (arith, stores.ready.new)

module _ (h : Host) (request : Request) (l : State) where
  -- A stored payment is never overwritten: after any entry point that writes, its record is as
  -- before or gone.
  pub handle_immutable :
      (m : Address) (r : Reference) (p : PaymentRecord)
      → payment_of l.store m r ≡ some p
      → Ensures
          (handle h request l)
          (λ _ l'. (payment_of l'.store m r ≡ none) ⊎ (payment_of l'.store m r ≡ some p))
  handle_immutable m r p e =
      weaken-Ensures _ (handle h request l) (handle-Step h request l) λ _ l' step.
        elim (Option-cases (payment_of l'.store m r)) [
          | inl gone ↦ inl gone
          | inr (q, found) ↦
              let origin = Step-Origin h request l.store l'.store m r q step found in
              inr (found ∙ ap some (Origin-same h request l.store l'.store m r p q e origin))
        ]

  -- If a merchant's count is the number of the stored payments, with distinct references, it is so
  -- after every entry point that writes.
  pub handle-IsCounted :
      (k : Address)
      → IsCounted l.store k
      → Ensures (handle h request l) (λ _ l'. IsCounted l'.store k)
  handle-IsCounted k c =
      weaken-Ensures _ (handle h request l) (handle-Step h request l)
        λ _ l' step. Step-IsCounted h request l.store l'.store k step c
