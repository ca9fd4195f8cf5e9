-- ===== src/Settlement/Payments/Batch.antt =====
-- What `prune_payments` removes.
use mathlib.Core.Path.{subst, sym}
use betta_pay_contract.Base.{
  ℕ, ◌+◌, ◌-◌, ◌≤◌, ◌<◌, ltb, Option-cases, ◌==◌, ap, ◌∙◌, ◌≡◌, ◌≢◌, refl, Bool, true, none, some,
  List, [], ◌∷◌, arith, update, inl, inr, if◌then◌else◌,
}
use betta_pay_contract.Base.Lists.{length, contains}
use betta_pay_contract.Base.Dict.{
  Dict, get, has, delete, IsKeyed, get-delete, delete-IsKeyed, length-delete, delete_absent,
  nonempty,
}
use betta_pay_contract.Base.Ledger.{
  Ensures, bind-Ensures, pass-Ensures, weaken-Ensures, refuse, first, publish, pure, ◌>>=◌, ◌>>◌,
}
use betta_pay_contract.Common.Env.{Address, Reference}
use betta_pay_contract.Settlement.Types.{PaymentRecord, batch_too_large}
use betta_pay_contract.Settlement.State.{Store, State, Host, Act, Event}
use betta_pay_contract.Settlement.Storage.{verify_admins, payment_count, decrement_payment_count}
use betta_pay_contract.Settlement.Storage.Access.{IsApproved, verify_admins_sound}
use betta_pay_contract.Settlement.Payments.{with_payments, payment_of, prune_each, prune_payments}

-- The merchant's payments without the references.
pub delete_all : Dict PaymentRecord → List Reference → Dict PaymentRecord
delete_all d [] = d
delete_all d (r ∷ refs) = delete_all (delete d r) refs

-- The storage and the number that the loop leaves, from a number on.
pub record PrunedEach (s s' : Store) (m : Address) (refs : List Reference) (from to : ℕ)
    : Type 0 where
  pub listed : s'.payments m ≡ delete_all (s.payments m) refs
  pub unlisted : (k : Address) → k ≢ m → s'.payments k ≡ s.payments k
  pub frame : s' ≡ record s { payments = s'.payments }
  pub number : IsKeyed (s.payments m) → to + length (s'.payments m) ≡ from + length (s.payments m)

get-delete_all :
    (d : Dict PaymentRecord) (refs : List Reference) (j : Reference)
    → get (delete_all d refs) j ≡ (if contains refs j then none else get d j)
unfolding delete_all
get-delete_all d [] j = refl
get-delete_all d (r ∷ refs) j = ground (arith, get-delete_all (delete d r) refs j, get-delete d r j)

-- A key that is found makes the length positive.
nonempty_of : (d : Dict PaymentRecord) (r : Reference) → has d r ≡ true → 0 < length d
nonempty_of d r e = elim (Option-cases (get d r)) [
  | inl absent ↦ ground arith
  | inr (x, found) ↦ nonempty d r x found
]

pub delete_all-IsKeyed :
    (d : Dict PaymentRecord) (refs : List Reference) → IsKeyed d → IsKeyed (delete_all d refs)
unfolding delete_all
delete_all-IsKeyed d [] k = k
delete_all-IsKeyed d (r ∷ refs) k = delete_all-IsKeyed (delete d r) refs (delete-IsKeyed d r k)

-- The storage after one round, and the number after it.
abbrev pub rounded : Address → Reference → Store → Store
rounded m r s = if has (s.payments m) r then with_payments m (λ d. delete d r) s else s

abbrev pub added : Bool → ℕ → ℕ
added found n = if found then n + 1 else n

rounded-listed :
    (m : Address) (r : Reference) (s : Store) → (rounded m r s).payments m ≡ delete (s.payments m) r
rounded-listed m r s = ground (arith, delete_absent (s.payments m) r)

rounded-PrunedEach :
    (s s' : Store) (m : Address) (r : Reference) (refs : List Reference) (from to : ℕ)
    → PrunedEach (rounded m r s) s' m refs (added (has (s.payments m) r) from) to
    → PrunedEach s s' m (r ∷ refs) from to
unfolding delete_all
rounded-PrunedEach s s' m r refs from to e = record {
  listed = e.listed ∙ ap (λ d. delete_all d refs) (rounded-listed m r s);
  unlisted = λ k ne. e.unlisted k ne ∙ ground arith;
  frame = ground (arith, e.frame);
  number = λ keyed. number keyed;
}
  where
    number : IsKeyed (s.payments m) → to + length (s'.payments m) ≡ from + length (s.payments m)
    number keyed = ground (
      arith,
      e.number (subst IsKeyed (sym (rounded-listed m r s)) (delete-IsKeyed (s.payments m) r keyed)),
      rounded-listed m r s,
      length-delete (s.payments m) r keyed,
      nonempty_of (s.payments m) r,
    )

module _ (m : Address) (r : Reference) (refs : List Reference) (from : ℕ) (l : State) where
  rounded_state : State
  rounded_state = record l { store = rounded m r l.store }

  -- The first round, and the rest after it.
  prune_each-step :
      Ensures
        (prune_each m refs (added (has (l.store.payments m) r) from) rounded_state)
        (λ to l'. PrunedEach l.store l'.store m (r ∷ refs) from to)
      → Ensures
          (prune_each m (r ∷ refs) from l)
          (λ to l'. PrunedEach l.store l'.store m (r ∷ refs) from to)
  unfolding rounded_state prune_each
  prune_each-step e = ground arith

pub prune_each_effect :
    (m : Address) (refs : List Reference) (from : ℕ) (l : State)
    → Ensures (prune_each m refs from l) (λ to l'. PrunedEach l.store l'.store m refs from to)
unfolding rounded_state
prune_each_effect m [] from l =
    unfold prune_each delete_all in
    record { listed = refl; unlisted = λ k ne. refl; frame = refl; number = λ keyed. refl }
prune_each_effect m (r ∷ refs) from l =
    let l1 : State = record l { store = rounded m r l.store } in
    let n1 = added (has (l.store.payments m) r) from in
    prune_each-step m r refs from l (
      weaken-Ensures _ (prune_each m refs n1 l1) (prune_each_effect m refs n1 l1)
        λ to l' e. rounded-PrunedEach l.store l'.store m r refs from to e)

-- What `prune_payments` has checked, and the storage and the number that it leaves.
pub record BatchPruned (h : Host) (s s' : Store) (signers : List Address) (m : Address)
    (refs : List Reference) (n : ℕ) : Type 0 where
  pub approved : IsApproved h s signers
  pub small : length refs ≤ 100
  pub listed : s'.payments m ≡ delete_all (s.payments m) refs
  pub left :
      (j : Reference) → payment_of s' m j ≡ (if contains refs j then none else payment_of s m j)
  pub unlisted : (k : Address) → k ≢ m → s'.payments k ≡ s.payments k
  pub number : IsKeyed (s.payments m) → n + length (s'.payments m) ≡ length (s.payments m)
  pub counted : s'.payment_counts ≡ (
      if n == 0 then s.payment_counts else update s.payment_counts m (some (payment_count s m - n)))
  pub frame : s' ≡ record s { payments = s'.payments; payment_counts = s'.payment_counts }

-- The storage after the write of the count.
counted_down : Address → ℕ → Store → Store
counted_down m n s =
    if n == 0
    then s
    else record s { payment_counts = update s.payment_counts m (some (payment_count s m - n)) }

-- The rest of `prune_payments` after the loop.
finish_batch : List Address → Address → ℕ → Act ℕ
finish_batch signers m n = do
  decrement_payment_count m n
  admin ← first signers
  publish (Event.payments_pruned m admin n)
  pure n

finish_batch_effect :
    (signers : List Address) (m : Address) (n : ℕ) (l : State)
    → Ensures (finish_batch signers m n l) (λ a l'. (a ≡ n) × (l'.store ≡ counted_down m n l.store))
unfolding finish_batch decrement_payment_count counted_down
finish_batch_effect signers m n l = ground arith

counted-BatchPruned :
    (h : Host) (s s1 s' : Store) (signers : List Address) (m : Address) (refs : List Reference)
    (n : ℕ)
    → IsApproved h s signers
    → length refs ≤ 100
    → PrunedEach s s1 m refs 0 n
    → s' ≡ counted_down m n s1
    → BatchPruned h s s' signers m refs n
unfolding counted_down
counted-BatchPruned h s s1 s' signers m refs n approved small e w =
    let same_payments : s'.payments ≡ s1.payments = ground arith in
    record {
      approved = approved;
      small = small;
      listed = ground (arith, e.listed);
      left = λ j. ground (arith, e.listed, get-delete_all (s.payments m) refs j);
      unlisted = λ k ne. ap (λ f. f k) same_payments ∙ e.unlisted k ne;
      number = λ keyed. ground (arith, e.number keyed);
      counted = ground (arith, e.frame);
      frame = ground (arith, e.frame);
    }

-- A `prune_payments` that returns a number was approved by a quorum of the stored admins for at
-- most 100 references. Afterwards none of the references of the merchant is stored, every other
-- payment is as before, and nothing else in the storage changes but the merchant's count, which is
-- lower by the number, down to zero. Where each reference is stored once, the number is how many
-- payments the merchant has lost.
pub prune_payments-BatchPruned :
    (h : Host) (signers : List Address) (m : Address) (refs : List Reference) (l : State)
    → Ensures
        (prune_payments h signers m refs l)
        (λ n l'. BatchPruned h l.store l'.store signers m refs n)
unfolding prune_payments finish_batch
prune_payments-BatchPruned h signers m refs l =
    bind-Ensures _ (verify_admins h signers) _ l (verify_admins_sound h signers l) λ _ l1 approved.
      pass-Ensures _ (refuse (ltb 100 (length refs)) batch_too_large) _ l1 λ _ l2 e2.
        bind-Ensures _ (prune_each m refs 0) _ l2 (prune_each_effect m refs 0 l2) λ n l3 e3.
          let before : l2.store ≡ l.store = ground arith in
          let small : length refs ≤ 100 = ground arith in
          weaken-Ensures _ (finish_batch signers m n l3) (finish_batch_effect signers m n l3)
            λ a l' e.
              subst (λ k. BatchPruned h l.store l'.store signers m refs k) (sym e.0)
                (counted-BatchPruned h l.store l3.store l'.store signers m refs n approved.0 small
                  (subst (λ s. PrunedEach s l3.store m refs 0 n) before e3) e.1)
