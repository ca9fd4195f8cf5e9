-- ===== src/Settlement/History/Steps.antt =====
-- The steps that a call may take on the payments, and that every entry point takes one of them.
use betta_pay_contract.Base.{ℕ, true, ◌-◌, update, if◌then◌else◌, ◌≡◌, refl, some, List, arith}
use betta_pay_contract.Base.Int.{ℤ}
use betta_pay_contract.Base.Ledger.{Result, Ensures, weaken-Ensures}
use betta_pay_contract.Common.Env.{Address, Reference}
use betta_pay_contract.Settlement.Storage.{payment_count}
use betta_pay_contract.Settlement.Storage.Access.{IsApproved}
use betta_pay_contract.Base.Dict.{has, delete}
use betta_pay_contract.Settlement.Types.{SettlementError, FeeSplit}
use betta_pay_contract.Settlement.State.{Store, State, Host}
use betta_pay_contract.Settlement.Payments.{store_payment_reference, prune_payment, prune_payments}
use betta_pay_contract.Settlement.Payments.Prune.{pruned_writes}
use betta_pay_contract.Settlement.Payments.Effect.{
  Payable, Recorded, store_payment_reference-Recorded,
}
use betta_pay_contract.Settlement.Payments.Batch.{BatchPruned, prune_payments-BatchPruned}
use betta_pay_contract.Settlement.Timelock.{cancel_all}
use betta_pay_contract.Settlement.Timelock.Effect.{schedule-Scheduled, cancel-consumed}
use betta_pay_contract.Settlement.Invariant.Requests.{Request, handle, dropped}
use betta_pay_contract.Settlement.History.Frame.{
  SamePayments, execute-SamePayments, cancel_all-SamePayments,
}
use betta_pay_contract.Settlement.History.Quiet.{is_quiet, handle-Quiet}

-- The removal of one payment, which may be absent, with the approval of the admins.
pub record RemovedOne (h : Host) (s s' : Store) (signers : List Address) (m : Address)
    (r : Reference) : Type 0 where
  pub approved : IsApproved h s signers
  pub payments :
      s'.payments
      ≡ (if has (s.payments m) r then update s.payments m (delete (s.payments m) r) else s.payments)
  pub counts : s'.payment_counts ≡ (
      if has (s.payments m) r
      then update s.payment_counts m (some (payment_count s m - 1))
      else s.payment_counts)

-- What a call may do to the payments.
pub data Step (h : Host) (request : Request) (s s' : Store) : Type 0 where
  kept : SamePayments s s' → Step h request s s'
  stored :
      (m : Address) (r : Reference) (amount : ℤ) (split : FeeSplit)
      → request ≡ Request.store_payment_reference_request m r amount
      → Payable h s m r amount
      → Recorded h s s' m r amount split
      → Step h request s s'
  pruned :
      (signers : List Address) (m : Address) (r : Reference)
      → RemovedOne h s s' signers m r
      → Step h request s s'
  batch_pruned :
      (signers : List Address) (m : Address) (refs : List Reference) (n : ℕ)
      → BatchPruned h s s' signers m refs n
      → Step h request s s'

module _ (h : Host) where
  quiet :
      (request : Request) (l : State)
      → is_quiet request ≡ true
      → Ensures (handle h request l) (λ _ l'. Step h request l.store l'.store)
  quiet request l q =
      weaken-Ensures _ (handle h request l) (handle-Quiet h request l q)
        λ _ l' e. Step.kept (record { payments = e.payments; counts = e.counts })

-- A call whose effect keeps the payments takes such a step.
keeps :
    (h : Host) (request : Request) (P : State → Type 0) (l : State)
    (r : Result SettlementError (Unit {0} × State))
    → Ensures r (λ _ l'. P l')
    → ((l' : State) → P l' → SamePayments l.store l'.store)
    → Ensures r (λ _ l'. Step h request l.store l'.store)
keeps h request P l r e k = weaken-Ensures _ r e λ _ l' p. Step.kept (k l' p)

module _ (h : Host) where
  -- Every entry point that writes, the lookups of a rule that cache governance's answer included,
  -- keeps the payments, stores one that was new for a merchant who has authorized it, or removes one
  -- or a batch with the approval of a quorum of the admins, if it returns.
  pub handle-Step :
      (request : Request) (l : State)
      → Ensures (handle h request l) (λ _ l'. Step h request l.store l'.store)
  unfolding handle
  handle-Step (Request.init_request d admins n g r) l =
      quiet h (Request.init_request d admins n g r) l refl
  handle-Step (Request.update_governance_request signers g) l =
      quiet h (Request.update_governance_request signers g) l refl
  handle-Step (Request.update_recovery_address_request signers a) l =
      quiet h (Request.update_recovery_address_request signers a) l refl
  handle-Step (Request.initiate_recovery_request a) l =
      quiet h (Request.initiate_recovery_request a) l refl
  handle-Step (Request.cancel_recovery_request signers) l =
      quiet h (Request.cancel_recovery_request signers) l refl
  handle-Step (Request.unpause_request signers) l = quiet h (Request.unpause_request signers) l refl
  handle-Step (Request.migrate_request signers) l = quiet h (Request.migrate_request signers) l refl
  handle-Step Request.execute_recovery_request l = quiet h Request.execute_recovery_request l refl
  handle-Step (Request.transfer_admin_request signers admins n) l =
      quiet h (Request.transfer_admin_request signers admins n) l refl
  handle-Step (Request.change_threshold_request signers n) l =
      quiet h (Request.change_threshold_request signers n) l refl
  handle-Step (Request.pause_request signers reason) l =
      quiet h (Request.pause_request signers reason) l refl
  handle-Step (Request.upgrade_request signers code) l =
      quiet h (Request.upgrade_request signers code) l refl
  handle-Step (Request.register_merchant_request signers m) l =
      quiet h (Request.register_merchant_request signers m) l refl
  handle-Step (Request.unregister_merchant_request signers m) l =
      quiet h (Request.unregister_merchant_request signers m) l refl
  handle-Step (Request.clear_settlement_rule_request signers m) l =
      quiet h (Request.clear_settlement_rule_request signers m) l refl
  handle-Step (Request.set_settlement_rule_request signers m r) l =
      quiet h (Request.set_settlement_rule_request signers m r) l refl
  handle-Step (Request.set_default_rule_request signers r) l =
      quiet h (Request.set_default_rule_request signers r) l refl
  handle-Step (Request.calculate_fee_split_request m amount) l =
      quiet h (Request.calculate_fee_split_request m amount) l refl
  handle-Step (Request.get_effective_rule_request m) l =
      quiet h (Request.get_effective_rule_request m) l refl
  handle-Step (Request.get_rule_provenance_request m) l =
      quiet h (Request.get_rule_provenance_request m) l refl
  handle-Step (Request.dry_run_request op) l = quiet h (Request.dry_run_request op) l refl
  handle-Step (Request.store_payment_reference_request m r amount) l =
      dropped _ (store_payment_reference h m r amount) l (
        weaken-Ensures _ (store_payment_reference h m r amount l)
          (store_payment_reference-Recorded h m r amount l)
          λ split l' e. Step.stored m r amount split refl e.0 e.1)
  handle-Step (Request.prune_payment_request signers m r) l =
      weaken-Ensures _ (prune_payment h signers m r l) (pruned_writes h signers m r l)
        λ _ l' e. Step.pruned signers m r (record { approved = e.0; payments = e.2; counts = e.3 })
  handle-Step (Request.prune_payments_request signers m refs) l =
      dropped _ (prune_payments h signers m refs) l (
        weaken-Ensures _ (prune_payments h signers m refs l)
          (prune_payments-BatchPruned h signers m refs l)
          λ n l' e. Step.batch_pruned signers m refs n e)
  handle-Step (Request.schedule_request signers op delay) l =
      keeps h _ _ l _ (schedule-Scheduled h signers op delay l) λ l' e. ground (arith, e.written)
  handle-Step (Request.execute_request executor op) l =
      keeps h _ _ l _ (execute-SamePayments h executor op l) λ l' e. e
  handle-Step (Request.cancel_request signers op) l =
      keeps h _ _ l _ (cancel-consumed h signers op l) λ l' e. ground (arith, e.3)
  handle-Step (Request.cancel_all_request signers ops) l = dropped _ (cancel_all h signers ops) l (
      weaken-Ensures _ (cancel_all h signers ops l) (cancel_all-SamePayments h signers ops l)
        λ n l' e. Step.kept e)
