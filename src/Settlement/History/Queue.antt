-- ===== src/Settlement/History/Queue.antt =====
-- Where a scheduled operation comes from: the steps that a call may take on the timelock's slots.
use mathlib.Core.Path.{sym}
use betta_pay_contract.Base.{
  ℕ, ◌≡◌, refl, true, Option, none, some, List, arith, ◌∙◌, ap, Bool-cases, inl, inr,
}
use betta_pay_contract.Base.Int.{ℤ}
use betta_pay_contract.Base.Dict.{get, delete, get-delete}
use betta_pay_contract.Base.Ledger.{Ensures, weaken-Ensures}
use betta_pay_contract.Common.Env.{Address, Reference, Hash}
use betta_pay_contract.Settlement.Types.{FeeSplit, Operation, ScheduledOp, EffectiveRule}
use betta_pay_contract.Settlement.State.{Store, State, Host}
use betta_pay_contract.Settlement.Storage.{decrement_payment_count}
use betta_pay_contract.Settlement.Storage.Access.{verify_admins_sound}
use betta_pay_contract.Settlement.Fees.Precedence.{rule_for, OfRule}
use betta_pay_contract.Settlement.Payments.{store_payment_reference, prune_payment, prune_payments}
use betta_pay_contract.Settlement.Payments.Effect.{
  Written, Recorded, store_payment_reference-Recorded,
}
use betta_pay_contract.Settlement.Payments.Batch.{prune_payments-BatchPruned}
use betta_pay_contract.Settlement.Timelock.{cancels, hash_of, schedule, execute, cancel, cancel_all}
use betta_pay_contract.Settlement.Timelock.Effect.{Scheduled, schedule-Scheduled, cancel-consumed}
use betta_pay_contract.Settlement.Timelock.Batch.{cancelled_store, cancel_all_kept}
use betta_pay_contract.Settlement.Timelock.Safety.{execute-consumed}
use betta_pay_contract.Settlement.Invariant.Requests.{Request, handle, dropped}
use betta_pay_contract.Settlement.History.Quiet.{is_quiet, handle-Quiet}

-- Every slot that is taken was taken by the same operation before.
pub record Shrunk (s s' : Store) : Type 0 where
  pub kept :
      (key : Hash) (e : ScheduledOp) → get s'.scheduled key ≡ some e → get s.scheduled key ≡ some e

same-Shrunk : (s s' : Store) → s'.scheduled ≡ s.scheduled → Shrunk s s'
same-Shrunk s s' e = record { kept = λ key o f. ap (λ d. get d key) (sym e) ∙ f }

deleted-Shrunk : (s s' : Store) (k : Hash) → s'.scheduled ≡ delete s.scheduled k → Shrunk s s'
deleted-Shrunk s s' k e = record { kept = λ key o f. ground (arith, get-delete s.scheduled k key) }

Shrunk-trans : (s t u : Store) → Shrunk s t → Shrunk t u → Shrunk s u
Shrunk-trans s t u a b = record { kept = λ key e f. a.kept key e (b.kept key e f) }

-- What a call may do to the slots of the timelock.
pub data QueueStep (h : Host) (request : Request) (s s' : Store) : Type 0 where
  shrunk : Shrunk s s' → QueueStep h request s s'
  filled :
      (signers : List Address) (op : Operation) (delay : ℕ)
      → request ≡ Request.schedule_request signers op delay
      → Scheduled h s s' signers op delay
      → QueueStep h request s s'

Recorded-Shrunk :
    (h : Host) (s s' : Store) (m : Address) (r : Reference) (amount : ℤ) (split : FeeSplit)
    → Recorded h s s' m r amount split
    → Shrunk s s'
unfolding Recorded
Recorded-Shrunk h s s' m r amount split e = at (rule_for h s m) e
  where
    at : (o : Option EffectiveRule) → OfRule (Written h s s' m r amount split) o → Shrunk s s'
    at (some x) w = same-Shrunk s s' (ground (arith, w.frame))
    at none w = elim w [ ]

module _ (h : Host) where
  quiet :
      (request : Request) (l : State)
      → is_quiet request ≡ true
      → Ensures (handle h request l) (λ _ l'. QueueStep h request l.store l'.store)
  quiet request l q =
      weaken-Ensures _ (handle h request l) (handle-Quiet h request l q)
        λ _ l' e. QueueStep.shrunk (same-Shrunk l.store l'.store e.scheduled)

  prune_payment_slots :
      (signers : List Address) (m : Address) (r : Reference) (l : State)
      → Ensures (prune_payment h signers m r l) (λ _ l'. l'.store.scheduled ≡ l.store.scheduled)
  unfolding prune_payment decrement_payment_count
  prune_payment_slots signers m r l = ground (arith, verify_admins_sound h signers l)

  cancelled_store-Shrunk : (op : Operation) (s : Store) → Shrunk s (cancelled_store h op s)
  unfolding cancelled_store
  cancelled_store-Shrunk op s =
      elim (Bool-cases (cancels (h.to_xdr op) (get s.scheduled (hash_of h op)))) [
        | inl e ↦ deleted-Shrunk s (cancelled_store h op s) (hash_of h op) (ground arith)
        | inr e ↦ same-Shrunk s (cancelled_store h op s) (ground arith)
      ]

  cancel_all-Shrunk :
      (signers : List Address) (ops : List Operation) (l : State)
      → Ensures (cancel_all h signers ops l) (λ _ l'. Shrunk l.store l'.store)
  cancel_all-Shrunk signers ops l =
      cancel_all_kept h (Shrunk l.store) signers ops l
        (λ op s shrunk.
          Shrunk-trans l.store s (cancelled_store h op s) shrunk (cancelled_store-Shrunk op s))
        (same-Shrunk l.store l.store refl)

  pub handle-QueueStep :
      (request : Request) (l : State)
      → Ensures (handle h request l) (λ _ l'. QueueStep h request l.store l'.store)
  unfolding handle
  handle-QueueStep (Request.init_request d admins n g r) l =
      quiet (Request.init_request d admins n g r) l refl
  handle-QueueStep (Request.update_governance_request signers g) l =
      quiet (Request.update_governance_request signers g) l refl
  handle-QueueStep (Request.update_recovery_address_request signers a) l =
      quiet (Request.update_recovery_address_request signers a) l refl
  handle-QueueStep (Request.initiate_recovery_request a) l =
      quiet (Request.initiate_recovery_request a) l refl
  handle-QueueStep (Request.cancel_recovery_request signers) l =
      quiet (Request.cancel_recovery_request signers) l refl
  handle-QueueStep (Request.unpause_request signers) l =
      quiet (Request.unpause_request signers) l refl
  handle-QueueStep (Request.migrate_request signers) l =
      quiet (Request.migrate_request signers) l refl
  handle-QueueStep Request.execute_recovery_request l =
      quiet Request.execute_recovery_request l refl
  handle-QueueStep (Request.transfer_admin_request signers admins n) l =
      quiet (Request.transfer_admin_request signers admins n) l refl
  handle-QueueStep (Request.change_threshold_request signers n) l =
      quiet (Request.change_threshold_request signers n) l refl
  handle-QueueStep (Request.pause_request signers reason) l =
      quiet (Request.pause_request signers reason) l refl
  handle-QueueStep (Request.upgrade_request signers code) l =
      quiet (Request.upgrade_request signers code) l refl
  handle-QueueStep (Request.register_merchant_request signers m) l =
      quiet (Request.register_merchant_request signers m) l refl
  handle-QueueStep (Request.unregister_merchant_request signers m) l =
      quiet (Request.unregister_merchant_request signers m) l refl
  handle-QueueStep (Request.clear_settlement_rule_request signers m) l =
      quiet (Request.clear_settlement_rule_request signers m) l refl
  handle-QueueStep (Request.set_settlement_rule_request signers m r) l =
      quiet (Request.set_settlement_rule_request signers m r) l refl
  handle-QueueStep (Request.set_default_rule_request signers r) l =
      quiet (Request.set_default_rule_request signers r) l refl
  handle-QueueStep (Request.calculate_fee_split_request m amount) l =
      quiet (Request.calculate_fee_split_request m amount) l refl
  handle-QueueStep (Request.get_effective_rule_request m) l =
      quiet (Request.get_effective_rule_request m) l refl
  handle-QueueStep (Request.get_rule_provenance_request m) l =
      quiet (Request.get_rule_provenance_request m) l refl
  handle-QueueStep (Request.dry_run_request op) l = quiet (Request.dry_run_request op) l refl
  handle-QueueStep (Request.store_payment_reference_request m r amount) l =
      dropped _ (store_payment_reference h m r amount) l (
        weaken-Ensures _ (store_payment_reference h m r amount l)
          (store_payment_reference-Recorded h m r amount l)
          λ split l' e. QueueStep.shrunk (Recorded-Shrunk h l.store l'.store m r amount split e.1))
  handle-QueueStep (Request.prune_payment_request signers m r) l =
      weaken-Ensures _ (prune_payment h signers m r l) (prune_payment_slots signers m r l)
        λ _ l' e. QueueStep.shrunk (same-Shrunk l.store l'.store e)
  handle-QueueStep (Request.prune_payments_request signers m refs) l =
      dropped _ (prune_payments h signers m refs) l (
        weaken-Ensures _ (prune_payments h signers m refs l)
          (prune_payments-BatchPruned h signers m refs l)
          λ n l' e. QueueStep.shrunk (same-Shrunk l.store l'.store (ground (arith, e.frame))))
  handle-QueueStep (Request.schedule_request signers op delay) l =
      weaken-Ensures _ (schedule h signers op delay l) (schedule-Scheduled h signers op delay l)
        λ _ l' e. QueueStep.filled signers op delay refl e
  handle-QueueStep (Request.execute_request executor op) l =
      weaken-Ensures _ (execute h executor op l) (execute-consumed h executor op l)
        λ _ l' e. QueueStep.shrunk (deleted-Shrunk l.store l'.store (hash_of h op) e.1.0)
  handle-QueueStep (Request.cancel_request signers op) l =
      weaken-Ensures _ (cancel h signers op l) (cancel-consumed h signers op l) λ _ l' e.
        QueueStep.shrunk (deleted-Shrunk l.store l'.store (hash_of h op) (ground (arith, e.3)))
  handle-QueueStep (Request.cancel_all_request signers ops) l =
      dropped _ (cancel_all h signers ops) l (
        weaken-Ensures _ (cancel_all h signers ops l) (cancel_all-Shrunk signers ops l)
          λ n l' e. QueueStep.shrunk e)
