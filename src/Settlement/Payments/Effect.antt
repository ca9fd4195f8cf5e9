-- ===== src/Settlement/Payments/Effect.antt =====
-- What the entry points on payments check and write; Prune.antt has the removal of one.
use betta_pay_contract.Base.{
  ℕ, ◌+◌, ◌≡◌, ◌≢◌, refl, true, false, ◌⊎◌, Option, none, some, update, arith,
}
use mathlib.Core.Path.{subst, sym}
use betta_pay_contract.Base.Int.{ℤ, ltb_ℤ}
use betta_pay_contract.Base.Dict.{set, get-set}
use betta_pay_contract.Base.Ledger.{
  ok, Ensures, bind-Ensures, pass-Ensures, weaken-Ensures, when, publish, ◌>>=◌,
}
use betta_pay_contract.Common.Rule.{SettlementRule}
use betta_pay_contract.Common.Env.{Address, Reference}
use betta_pay_contract.Settlement.Types.{
  FeeSplit, PaymentRecord, EffectiveRule, bootstrap_default_rule,
}
use betta_pay_contract.Settlement.State.{Store, State, Event, Host}
use betta_pay_contract.Settlement.Storage.{is_paused, payment_count, increment_payment_count}
use betta_pay_contract.Settlement.Fees.{
  min_amount_from, read_min_payment_amount, read_rule_or_default, read_rule_or_default_no_bump,
}
use betta_pay_contract.Settlement.Fees.Frame.{OnlyCached}
use betta_pay_contract.Settlement.Fees.Precedence.{
  rule_for, OfRule, read_rule_for, read_rule_no_bump_for,
}
use betta_pay_contract.Settlement.Split.{calculate_split, is_bootstrap_rule}
use betta_pay_contract.Settlement.Rules.Effect.{registered_sound}
use betta_pay_contract.Settlement.Payments.{
  payment_of, with_payments, dummy_record, payment_record, record_payment, store_payment_reference,
  calculate_fee_split,
}

-- The split of the rule for the amount, as `calculate_split` returns it.
abbrev pub IsSplit : ℤ → SettlementRule → FeeSplit → Type 0
IsSplit amount rule split = (l : State) → calculate_split amount rule l ≡ ok (split, l)

-- The storage that a new payment leaves.
pub record Written (h : Host) (s s' : Store) (m : Address) (r : Reference) (amount : ℤ)
    (split : FeeSplit) (rule : SettlementRule) : Type 0 where
  pub shared : IsSplit amount rule split
  pub recorded : payment_of s' m r ≡ some (payment_record h.env m amount rule split)
  pub others : (k j : ℕ) → k ≢ m ⊎ j ≢ r → payment_of s' k j ≡ payment_of s k j
  pub listed :
      s'.payments m
      ≡ set (set (s.payments m) r (dummy_record m)) r (payment_record h.env m amount rule split)
  pub unlisted : (k : Address) → k ≢ m → s'.payments k ≡ s.payments k
  pub counted : s'.payment_counts ≡ update s.payment_counts m (some (payment_count s m + 1))
  pub frame : s' ≡ record s {
    payments = s'.payments;
    payment_counts = s'.payment_counts;
    cached_gov_rule = s'.cached_gov_rule;
  }

-- What `store_payment_reference` has checked.
pub record Payable (h : Host) (s : Store) (m : Address) (r : Reference) (amount : ℤ) : Type 0 where
  pub nonzero : r ≢ 0
  pub unpaused : is_paused s ≡ false
  pub agreed : h.env.authorized m ≡ true
  pub registered : s.merchants m ≡ true
  pub large_enough : ltb_ℤ amount (min_amount_from h s.governance) ≡ false
  pub new : payment_of s m r ≡ none

-- The condition on the new storage, with the rule that applies.
unfoldable pub Recorded : Host → Store → Store → Address → Reference → ℤ → FeeSplit → Type 0
Recorded h s s' m r amount split = OfRule (Written h s s' m r amount split) (rule_for h s m)

pub calculate_split_uniform :
    (amount : ℤ) (rule : SettlementRule) (l : State)
    → Ensures (calculate_split amount rule l) (λ s l'. IsSplit amount rule s × (l' ≡ l))
unfolding calculate_split
calculate_split_uniform amount rule l = ground arith

min_amount_sound :
    (h : Host) (l : State)
    → read_min_payment_amount h l ≡ ok (min_amount_from h l.store.governance, l)
unfolding read_min_payment_amount
min_amount_sound h l = refl

-- The storage after the two writes of a new payment and the count, with the cached rule given.
abbrev pub written_store :
    Address → Reference → PaymentRecord → Option (Option SettlementRule) → Store → Store
written_store m r payment cached s =
    record (with_payments m (λ d. set d r payment)
      (with_payments m (λ d. set d r (dummy_record m)) s)) {
        payment_counts = update s.payment_counts m (some (payment_count s m + 1));
        cached_gov_rule = cached;
      }

module _ (m : Address) (r : Reference) (payment : PaymentRecord)
    (cached : Option (Option SettlementRule)) (s : Store) where
  written_store-recorded : payment_of (written_store m r payment cached s) m r ≡ some payment
  written_store-recorded =
      ground (arith, get-set (set (s.payments m) r (dummy_record m)) r r payment)

  written_store-others :
      (k j : ℕ)
      → k ≢ m ⊎ j ≢ r
      → payment_of (written_store m r payment cached s) k j ≡ payment_of s k j
  written_store-others k j ne = ground (
    arith,
    get-set (set (s.payments m) r (dummy_record m)) r j payment,
    get-set (s.payments m) r j (dummy_record m),
  )

module _ (h : Host) where
  written_store-Written :
      (m : Address) (r : Reference) (amount : ℤ) (split : FeeSplit) (rule : SettlementRule)
      (cached : Option (Option SettlementRule)) (s : Store)
      → IsSplit amount rule split
      → Written h s
          (written_store m r (payment_record h.env m amount rule split) cached s)
          m
          r
          amount
          split
          rule
  written_store-Written m r amount split rule cached s e = record {
    shared = e;
    recorded = written_store-recorded m r (payment_record h.env m amount rule split) cached s;
    others = written_store-others m r (payment_record h.env m amount rule split) cached s;
    listed = ground arith;
    unlisted = λ k ne. ground arith;
    counted = refl;
    frame = refl;
  }

  pub finish_payment :
      (m : Address) (r : Reference) (amount : ℤ) (l : State)
      → Ensures (record_payment h m r amount l) (λ split l'.
        OfRule
          (λ rule.
            IsSplit amount rule split
            × (l'.store
                ≡ written_store m r
                    (payment_record h.env m amount rule split)
                    l'.store.cached_gov_rule
                    l.store))
          (rule_for h l.store m))
  unfolding record_payment increment_payment_count
  finish_payment m r amount l =
      let l1 : State = record l {
        store = with_payments m (λ d. set d r (dummy_record m)) l.store;
      } in
      bind-Ensures _ (read_rule_or_default h m) _ l1 (read_rule_for h m l1) λ rule l2 e2.
        pass-Ensures _
          (when (is_bootstrap_rule rule)
            (publish (Event.bootstrap_fallback bootstrap_default_rule)))
          _ l2
          λ _ l3 e3.
            bind-Ensures _ (calculate_split amount rule) _ l3
              (calculate_split_uniform amount rule l3) λ split l4 e4. ground arith

  pub OfRule-map :
      (P Q : SettlementRule → Type 0) (e : Option EffectiveRule)
      → ((rule : SettlementRule) → P rule → Q rule)
      → OfRule P e
      → OfRule Q e
  OfRule-map P Q (some e) f p = f e.rule p
  OfRule-map P Q none f p = p

  record_payment-Recorded :
      (m : Address) (r : Reference) (amount : ℤ) (l : State)
      → Ensures
          (record_payment h m r amount l)
          (λ split l'. Recorded h l.store l'.store m r amount split)
  unfolding Recorded
  record_payment-Recorded m r amount l =
      weaken-Ensures _ (record_payment h m r amount l) (finish_payment m r amount l) λ split l' e.
        OfRule-map _ _ (rule_for h l.store m)
          (λ rule p.
            subst (λ s. Written h l.store s m r amount split rule) (sym p.1)
              (written_store-Written m r amount split rule l'.store.cached_gov_rule l.store p.0))
          e

  -- A payment that `store_payment_reference` returns for was new and has a non-zero reference, the
  -- contract was not paused, the merchant is registered and has authorized the call, and the
  -- amount is at least governance's minimum. What is stored under the reference is the record of
  -- the split by the rule that applies to the merchant by precedence; the merchant's count goes up
  -- by one, no other payment changes, and nothing else but the cached governance rule does. The
  -- split is returned.
  pub store_payment_reference-Recorded :
      (m : Address) (r : Reference) (amount : ℤ) (l : State)
      → Ensures
          (store_payment_reference h m r amount l)
          (λ split l'. Payable h l.store m r amount × Recorded h l.store l'.store m r amount split)
  unfolding store_payment_reference read_min_payment_amount
  store_payment_reference-Recorded m r amount l =
      grind (arith, registered_sound m, record_payment-Recorded m r amount)

  quote_tail :
      (m : Address) (amount : ℤ) (l : State)
      → Ensures ((read_rule_or_default_no_bump h m >>= calculate_split amount) l) (λ split l'.
        OfRule (λ rule. IsSplit amount rule split) (rule_for h l.store m) × OnlyCached l l')
  quote_tail m amount l =
      bind-Ensures _ (read_rule_or_default_no_bump h m) _ l (read_rule_no_bump_for h m l)
        λ rule l1 e1. ground (arith, calculate_split_uniform amount rule l1)

  -- A `calculate_fee_split` that returns was asked for a registered merchant and an amount of at
  -- least governance's minimum, and returns the split by the rule that applies to the merchant by
  -- precedence. It writes at most the cached governance rule.
  pub calculate_fee_split_quote :
      (m : Address) (amount : ℤ) (l : State)
      → Ensures (calculate_fee_split h m amount l) (λ split l'.
        (l.store.merchants m ≡ true)
        × (ltb_ℤ amount (min_amount_from h l.store.governance) ≡ false)
        × OfRule (λ rule. IsSplit amount rule split) (rule_for h l.store m)
        × OnlyCached l l')
  unfolding calculate_fee_split read_min_payment_amount
  calculate_fee_split_quote m amount l = ground (arith, quote_tail m amount l)
