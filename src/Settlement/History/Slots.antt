-- ===== src/Settlement/History/Slots.antt =====
-- The number of scheduled operations over sequences of calls.
use mathlib.Core.Path.{subst, sym}
use betta_pay_contract.Base.{
  ℕ, ◌+◌, ◌≤◌, ◌<◌, ◌≡◌, refl, true, Option, none, some, List, [], ◌∷◌, arith, Bool-cases, inl, inr,
  is_some, u32_max,
}
use betta_pay_contract.Base.Int.{ℤ}
use betta_pay_contract.Base.Lists.{length}
use betta_pay_contract.Base.Dict.{get, length-set, length-delete}
use betta_pay_contract.Base.Ledger.{Result, ok, panic, trap, Ensures, weaken-Ensures}
use betta_pay_contract.Common.Env.{Address, Reference, Hash}
use betta_pay_contract.Settlement.Types.{
  SettlementError, FeeSplit, Operation, ScheduledOp, EffectiveRule,
}
use betta_pay_contract.Settlement.State.{Store, State, Host}
use betta_pay_contract.Settlement.Storage.{decrement_payment_count}
use betta_pay_contract.Settlement.Storage.Access.{verify_admins_sound}
use betta_pay_contract.Settlement.Fees.Precedence.{rule_for, OfRule}
use betta_pay_contract.Settlement.Payments.{store_payment_reference, prune_payment, prune_payments}
use betta_pay_contract.Settlement.Payments.Effect.{
  Written, Recorded, store_payment_reference-Recorded,
}
use betta_pay_contract.Settlement.Payments.Batch.{prune_payments-BatchPruned}
use betta_pay_contract.Settlement.Timelock.{cancels, hash_of, schedule, execute, cancel, cancel_all}
use betta_pay_contract.Settlement.Timelock.Effect.{
  Scheduled, consumed, schedule-Scheduled, cancel-consumed,
}
use betta_pay_contract.Settlement.Timelock.Safety.{SameSchedule, execute-consumed}
use betta_pay_contract.Settlement.Timelock.Batch.{cancelled_store, cancel_all_kept}
use betta_pay_contract.Settlement.Timelock.Count.{
  IsCounted, consumed-IsCounted, added-IsCounted, same-IsCounted, entry_present,
}
use betta_pay_contract.Settlement.Invariant.Requests.{Request, handle, dropped}
use betta_pay_contract.Settlement.History.Quiet.{is_quiet, handle-Quiet}
use betta_pay_contract.Settlement.History.Runs.{run, start, after}

-- The count is the number of slots that are taken, which is at most a number.
pub record IsWithin (k : ℕ) (s : Store) : Type 0 where
  pub counted : IsCounted s
  pub few : length s.scheduled ≤ k

same-IsWithin : (k : ℕ) (s s' : Store) → SameSchedule s s' → IsWithin k s → IsWithin (k + 1) s'
same-IsWithin k s s' e w = record {
  counted = same-IsCounted s s' e w.counted;
  few = ground (arith, w.few);
}

consumed-IsWithin :
    (k : ℕ) (key : Hash) (s : Store)
    → is_some (get s.scheduled key) ≡ true
    → IsWithin k s
    → IsWithin k (consumed key s)
consumed-IsWithin k key s there w = record {
  counted = consumed-IsCounted key s w.counted there;
  few = ground (arith, w.few, length-delete s.scheduled key w.counted.keyed);
}

added-IsWithin :
    (k : ℕ) (h : Host) (signers : List Address) (op : Operation) (delay : ℕ) (s s' : Store)
    → k < u32_max
    → Scheduled h s s' signers op delay
    → IsWithin k s
    → IsWithin (k + 1) s'
added-IsWithin k h signers op delay s s' room e w =
    let entry : ScheduledOp = record {
      operation_xdr = h.to_xdr op;
      execute_at = h.env.timestamp + delay;
    } in
    record {
      counted =
          subst IsCounted (sym e.written)
            (added-IsCounted _ _ s w.counted (ground (arith, w.few)) e.free);
      few = ground (arith, w.few, e.written, e.free, length-set s.scheduled (hash_of h op) entry);
    }

cancels_present :
    (bytes : List ℕ) (o : Option ScheduledOp) → cancels bytes o ≡ true → is_some o ≡ true
cancels_present bytes none e = cc
cancels_present bytes (some _) e = refl

Recorded-SameSchedule :
    (h : Host) (s s' : Store) (m : Address) (r : Reference) (amount : ℤ) (split : FeeSplit)
    → Recorded h s s' m r amount split
    → SameSchedule s s'
unfolding Recorded
Recorded-SameSchedule h s s' m r amount split e = at (rule_for h s m) e
  where
    at : (o : Option EffectiveRule) → OfRule (Written h s s' m r amount split) o → SameSchedule s s'
    at (some x) w = ground (arith, w.frame)
    at none w = elim w [ ]

module _ (h : Host) where
  prune_payment-SameSchedule :
      (signers : List Address) (m : Address) (r : Reference) (l : State)
      → Ensures (prune_payment h signers m r l) (λ _ l'. SameSchedule l.store l'.store)
  unfolding prune_payment decrement_payment_count
  prune_payment-SameSchedule signers m r l = ground (arith, verify_admins_sound h signers l)

  cancelled_store-IsWithin :
      (k : ℕ) (op : Operation) (s : Store) → IsWithin k s → IsWithin k (cancelled_store h op s)
  unfolding cancelled_store
  cancelled_store-IsWithin k op s w =
      elim (Bool-cases (cancels (h.to_xdr op) (get s.scheduled (hash_of h op)))) [
        | inl e ↦ rw e (
            consumed-IsWithin k (hash_of h op) s
              (cancels_present (h.to_xdr op) (get s.scheduled (hash_of h op)) e) w)
        | inr e ↦ rw e w
      ]

  widen : (k : ℕ) (s : Store) → IsWithin k s → IsWithin (k + 1) s
  widen k s w = record { counted = w.counted; few = ground (arith, w.few) }

  quiet :
      (request : Request) (k : ℕ) (l : State)
      → is_quiet request ≡ true
      → IsWithin k l.store
      → Ensures (handle h request l) (λ _ l'. IsWithin (k + 1) l'.store)
  quiet request k l q w =
      weaken-Ensures _ (handle h request l) (handle-Quiet h request l q)
        λ _ l' e. same-IsWithin k l.store l'.store (e.scheduled, e.slots) w

  handle-IsWithin :
      (request : Request) (k : ℕ) (l : State)
      → k < u32_max
      → IsWithin k l.store
      → Ensures (handle h request l) (λ _ l'. IsWithin (k + 1) l'.store)
  unfolding handle
  handle-IsWithin (Request.init_request d admins n g r) k l room w =
      quiet (Request.init_request d admins n g r) k l refl w
  handle-IsWithin (Request.update_governance_request signers g) k l room w =
      quiet (Request.update_governance_request signers g) k l refl w
  handle-IsWithin (Request.update_recovery_address_request signers a) k l room w =
      quiet (Request.update_recovery_address_request signers a) k l refl w
  handle-IsWithin (Request.initiate_recovery_request a) k l room w =
      quiet (Request.initiate_recovery_request a) k l refl w
  handle-IsWithin (Request.cancel_recovery_request signers) k l room w =
      quiet (Request.cancel_recovery_request signers) k l refl w
  handle-IsWithin (Request.unpause_request signers) k l room w =
      quiet (Request.unpause_request signers) k l refl w
  handle-IsWithin (Request.migrate_request signers) k l room w =
      quiet (Request.migrate_request signers) k l refl w
  handle-IsWithin Request.execute_recovery_request k l room w =
      quiet Request.execute_recovery_request k l refl w
  handle-IsWithin (Request.transfer_admin_request signers admins n) k l room w =
      quiet (Request.transfer_admin_request signers admins n) k l refl w
  handle-IsWithin (Request.change_threshold_request signers n) k l room w =
      quiet (Request.change_threshold_request signers n) k l refl w
  handle-IsWithin (Request.pause_request signers reason) k l room w =
      quiet (Request.pause_request signers reason) k l refl w
  handle-IsWithin (Request.upgrade_request signers code) k l room w =
      quiet (Request.upgrade_request signers code) k l refl w
  handle-IsWithin (Request.register_merchant_request signers m) k l room w =
      quiet (Request.register_merchant_request signers m) k l refl w
  handle-IsWithin (Request.unregister_merchant_request signers m) k l room w =
      quiet (Request.unregister_merchant_request signers m) k l refl w
  handle-IsWithin (Request.clear_settlement_rule_request signers m) k l room w =
      quiet (Request.clear_settlement_rule_request signers m) k l refl w
  handle-IsWithin (Request.set_settlement_rule_request signers m r) k l room w =
      quiet (Request.set_settlement_rule_request signers m r) k l refl w
  handle-IsWithin (Request.set_default_rule_request signers r) k l room w =
      quiet (Request.set_default_rule_request signers r) k l refl w
  handle-IsWithin (Request.calculate_fee_split_request m amount) k l room w =
      quiet (Request.calculate_fee_split_request m amount) k l refl w
  handle-IsWithin (Request.get_effective_rule_request m) k l room w =
      quiet (Request.get_effective_rule_request m) k l refl w
  handle-IsWithin (Request.get_rule_provenance_request m) k l room w =
      quiet (Request.get_rule_provenance_request m) k l refl w
  handle-IsWithin (Request.dry_run_request op) k l room w =
      quiet (Request.dry_run_request op) k l refl w
  handle-IsWithin (Request.store_payment_reference_request m r amount) k l room w =
      dropped _ (store_payment_reference h m r amount) l (
        weaken-Ensures _ (store_payment_reference h m r amount l)
          (store_payment_reference-Recorded h m r amount l)
          λ split l' e.
            same-IsWithin k l.store l'.store
              (Recorded-SameSchedule h l.store l'.store m r amount split e.1) w)
  handle-IsWithin (Request.prune_payment_request signers m r) k l room w =
      weaken-Ensures _ (prune_payment h signers m r l) (prune_payment-SameSchedule signers m r l)
        λ _ l' e. same-IsWithin k l.store l'.store e w
  handle-IsWithin (Request.prune_payments_request signers m refs) k l room w =
      dropped _ (prune_payments h signers m refs) l (
        weaken-Ensures _ (prune_payments h signers m refs l)
          (prune_payments-BatchPruned h signers m refs l)
          λ n l' e. same-IsWithin k l.store l'.store (ground (arith, e.frame)) w)
  handle-IsWithin (Request.schedule_request signers op delay) k l room w =
      weaken-Ensures _ (schedule h signers op delay l) (schedule-Scheduled h signers op delay l)
        λ _ l' e. added-IsWithin k h signers op delay l.store l'.store room e w
  handle-IsWithin (Request.execute_request executor op) k l room w =
      weaken-Ensures _ (execute h executor op l) (execute-consumed h executor op l) λ _ l' e.
        same-IsWithin k (consumed (hash_of h op) l.store) l'.store e.1 (
          consumed-IsWithin k (hash_of h op) l.store
            (entry_present _ (get l.store.scheduled (hash_of h op)) e.0.held) w)
  handle-IsWithin (Request.cancel_request signers op) k l room w =
      weaken-Ensures _ (cancel h signers op l) (cancel-consumed h signers op l) λ _ l' e.
        subst (IsWithin (k + 1)) (sym e.3) (
          widen k (consumed (hash_of h op) l.store) (
            consumed-IsWithin k (hash_of h op) l.store
              (entry_present _ (get l.store.scheduled (hash_of h op)) e.2) w))
  handle-IsWithin (Request.cancel_all_request signers ops) k l room w =
      dropped _ (cancel_all h signers ops) l (
        weaken-Ensures _ (cancel_all h signers ops l)
          (cancel_all_kept h (IsWithin k) signers ops l (cancelled_store-IsWithin k) w)
          λ n l' e. widen k l'.store e)

after-IsWithin :
    (k : ℕ) (l : State) (r : Result SettlementError (Unit {0} × State))
    → IsWithin k l.store
    → Ensures r (λ _ l'. IsWithin (k + 1) l'.store)
    → IsWithin (k + 1) ((after l r).store)
after-IsWithin k l (ok (_, l')) w e = e
after-IsWithin k l (panic _) w e = record { counted = w.counted; few = ground (arith, w.few) }
after-IsWithin k l trap w e = record { counted = w.counted; few = ground (arith, w.few) }

run-IsWithin :
    (calls : List (Host × Request)) (k : ℕ) (l : State)
    → k + length calls ≤ u32_max
    → IsWithin k l.store
    → IsWithin (k + length calls) ((run calls l).store)
unfolding run
run-IsWithin [] k l room w = record { counted = w.counted; few = ground (arith, w.few) }
run-IsWithin ((h, request) ∷ calls) k l room w =
    let next =
      after-IsWithin k l (handle h request l) w (handle-IsWithin h request k l (ground arith) w) in
    subst (λ n. IsWithin n ((run calls (after l (handle h request l))).store)) (omega arith)
      (run-IsWithin calls (k + 1) (after l (handle h request l)) (ground arith) next)

-- After every sequence of at most 2^32 - 1 calls of the entry points that write, from the deployment
-- on, the stored number of scheduled operations is the number of slots that are taken, whose hashes
-- are distinct, and it is at most the number of calls.
pub run_slots-IsWithin :
    (code : Hash) (calls : List (Host × Request))
    → length calls ≤ u32_max
    → IsWithin (length calls) ((run calls (start code)).store)
run_slots-IsWithin code calls room =
    subst (λ n. IsWithin n ((run calls (start code)).store)) (omega arith)
      (run-IsWithin calls 0 (start code) (omega arith)
        (record { counted = record { keyed = tt; counted = refl }; few = omega arith }))
