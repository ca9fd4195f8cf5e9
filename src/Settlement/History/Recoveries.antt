-- ===== src/Settlement/History/Recoveries.antt =====
-- What the settlement contract's entry points do to the pending recovery.
use betta_pay_contract.Base.{ℕ, ◌≡◌, refl, inl, inr, Option, none, some, List, arith}
use betta_pay_contract.Base.Ledger.{Result, Ensures, bind-Ensures, pass-Ensures, weaken-Ensures}
use betta_pay_contract.Common.Env.{Address}
use betta_pay_contract.Common.Recovery.{RecoveryEntry, pending, undecodable}
use betta_pay_contract.Settlement.Types.{Operation, SettlementError}
use betta_pay_contract.Settlement.State.{Store, State, Host}
use betta_pay_contract.Settlement.Rules.Effect.{
  set_settlement_rule_effect, clear_settlement_rule_effect, set_default_rule_effect,
}
use betta_pay_contract.Settlement.Merchant.Effect.{
  register_merchant_effect, unregister_merchant_effect,
}
use betta_pay_contract.Settlement.Rules.{get_effective_rule, get_rule_provenance}
use betta_pay_contract.Settlement.Invariant.Reads.{
  calculate_fee_split-OnlyCached, get_effective_rule-OnlyCached, get_rule_provenance-OnlyCached,
  dry_run-same,
}
use betta_pay_contract.Settlement.Payments.{
  calculate_fee_split, store_payment_reference, prune_payments,
}
use betta_pay_contract.Settlement.Payments.Effect.{store_payment_reference-Recorded}
use betta_pay_contract.Settlement.Admin.Init.{init-Initialized}
use betta_pay_contract.Settlement.Admin.Effect.{
  Recovered, Initiated, Cancelled, OfPending, OfAddress, OfAdmins, ThresholdChanged,
  execute_recovery_effect, initiate_recovery_effect, cancel_recovery_effect, transfer_admin_effect,
  change_threshold_effect, pause_effect, unpause_effect, update_governance_effect,
  update_recovery_address_effect, upgrade_effect,
}
use betta_pay_contract.Settlement.Operations.{run_operation}
use betta_pay_contract.Settlement.Timelock.{
  validate_scheduled_execution, consume_scheduled_operation, execute, cancel_all,
}
use betta_pay_contract.Settlement.Timelock.Effect.{
  consume-eq, validate-Ready, schedule-Scheduled, cancel-consumed,
}
use betta_pay_contract.Settlement.Invariant.{
  Recorded-SameParts, prune_payment-SameParts, prune_payments-SameParts, cancel_all-SameParts,
  migrate-SameParts,
}
use betta_pay_contract.Settlement.Invariant.Requests.{Request, handle, dropped, looked_up}
use betta_pay_contract.Settlement.History.Stays.{Stays, run_operation-Stays}

-- What a call does to the pending recovery: it keeps it, removes it or, for an `initiate_recovery`,
-- announces a new one.
pub data RecoveryStep (h : Host) (request : Request) (s s' : Store) : Type 0 where
  kept : s'.pending_recovery ≡ s.pending_recovery → RecoveryStep h request s s'
  removed : s'.pending_recovery ≡ none → RecoveryStep h request s s'
  announced :
      (new_admin recovery : Address)
      → request ≡ Request.initiate_recovery_request new_admin
      → s.recovery_address ≡ some recovery
      → Initiated h s s' new_admin recovery
      → RecoveryStep h request s s'

initiate_step :
    (h : Host) (a : Address) (s s' : Store) (o : Option Address)
    → s.recovery_address ≡ o
    → OfAddress (Initiated h s s' a) o
    → RecoveryStep h (Request.initiate_recovery_request a) s s'
initiate_step h a s s' (some r) known i = RecoveryStep.announced a r refl known i
initiate_step h a s s' none known i = elim i [ ]

cancel_step :
    (h : Host) (request : Request) (signers : List Address) (s s' : Store)
    (o : Option RecoveryEntry)
    → OfPending (Cancelled h s s' signers) o
    → RecoveryStep h request s s'
cancel_step h request signers s s' (some (pending p)) i =
    RecoveryStep.removed (ground (arith, i.written))
cancel_step h request signers s s' (some undecodable) i = elim i [ ]
cancel_step h request signers s s' none i = elim i [ ]

recover_step :
    (h : Host) (request : Request) (s s' : Store) (o : Option RecoveryEntry)
    → OfPending (Recovered h s s') o
    → RecoveryStep h request s s'
recover_step h request s s' (some (pending p)) i = RecoveryStep.removed (ground (arith, i.written))
recover_step h request s s' (some undecodable) i = elim i [ ]
recover_step h request s s' none i = elim i [ ]

threshold_step :
    (h : Host) (request : Request) (signers : List Address) (n : ℕ) (s s' : Store)
    (o : Option (List Address)) (t : Option ℕ)
    → OfAdmins (ThresholdChanged h s s' signers n) o t
    → RecoveryStep h request s s'
threshold_step h request signers n s s' (some admins) (some t) i =
    RecoveryStep.kept (ground (arith, i.written))
threshold_step h request signers n s s' (some admins) none i = elim i [ ]
threshold_step h request signers n s s' none t i = elim i [ ]

-- A call whose effect is a step makes the step.
by_effect :
    {A : Type 0} (h : Host) (request : Request) (P : A → State → Type 0) (l : State)
    (r : Result SettlementError (A × State))
    → Ensures r P
    → ((a : A) (l' : State) → P a l' → RecoveryStep h request l.store l'.store)
    → Ensures r (λ _ l'. RecoveryStep h request l.store l'.store)
by_effect h request P l r e k = weaken-Ensures _ r e k

Stays-step :
    (h : Host) (request : Request) (s s1 s' : Store)
    → s1.pending_recovery ≡ s.pending_recovery
    → Stays s1 s'
    → RecoveryStep h request s s'
Stays-step h request s s1 s' before (inl e) = RecoveryStep.kept (ground arith)
Stays-step h request s s1 s' before (inr e) = RecoveryStep.removed e

execute-step :
    (h : Host) (request : Request) (executor : Address) (op : Operation) (l : State)
    → Ensures (execute h executor op l) (λ _ l'. RecoveryStep h request l.store l'.store)
unfolding execute consume_scheduled_operation
execute-step h request executor op l =
    bind-Ensures _ (validate_scheduled_execution h op) _ l (validate-Ready h op l) λ key l1 ready.
      pass-Ensures _ (consume_scheduled_operation key) _ l1 λ _ l2 e2.
        bind-Ensures _ (run_operation h executor op) _ l2 (run_operation-Stays h executor op l2)
          λ _ l3 e3.
            Stays-step h request l.store l2.store l3.store (ground (arith, consume-eq h key l1)) e3

module _ (h : Host) where
  pub handle-RecoveryStep :
      (request : Request) (l : State)
      → Ensures (handle h request l) (λ _ l'. RecoveryStep h request l.store l'.store)
  unfolding handle
  handle-RecoveryStep (Request.init_request d admins n g r) l =
      by_effect h (Request.init_request d admins n g r) _ l _ (init-Initialized h d admins n g r l)
        λ _ l' e. RecoveryStep.kept (ground (arith, e.written))
  handle-RecoveryStep (Request.update_governance_request signers g) l =
      by_effect h (Request.update_governance_request signers g) _ l _
        (update_governance_effect h signers g l) λ _ l' e. RecoveryStep.kept (ground arith)
  handle-RecoveryStep (Request.update_recovery_address_request signers a) l =
      by_effect h (Request.update_recovery_address_request signers a) _ l _
        (update_recovery_address_effect h signers a l) λ _ l' e. RecoveryStep.kept (ground arith)
  handle-RecoveryStep (Request.initiate_recovery_request a) l =
      by_effect h (Request.initiate_recovery_request a) _ l _ (initiate_recovery_effect h a l)
        λ _ l' e. initiate_step h a l.store l'.store l.store.recovery_address refl e
  handle-RecoveryStep (Request.cancel_recovery_request signers) l =
      by_effect h (Request.cancel_recovery_request signers) _ l _
        (cancel_recovery_effect h signers l)
        λ _ l' e. cancel_step h _ signers l.store l'.store l.store.pending_recovery e
  handle-RecoveryStep (Request.unpause_request signers) l =
      by_effect h (Request.unpause_request signers) _ l _ (unpause_effect h signers l)
        λ _ l' e. RecoveryStep.kept (ground arith)
  handle-RecoveryStep (Request.migrate_request signers) l =
      by_effect h (Request.migrate_request signers) _ l _ (migrate-SameParts h signers l)
        λ _ l' e. RecoveryStep.kept e.recovery
  handle-RecoveryStep Request.execute_recovery_request l =
      by_effect h Request.execute_recovery_request _ l _ (execute_recovery_effect h l)
        λ _ l' e. recover_step h _ l.store l'.store l.store.pending_recovery e
  handle-RecoveryStep (Request.transfer_admin_request signers admins n) l =
      by_effect h (Request.transfer_admin_request signers admins n) _ l _
        (transfer_admin_effect h signers admins n l)
        λ _ l' e. RecoveryStep.kept (ground (arith, e.1.written))
  handle-RecoveryStep (Request.change_threshold_request signers n) l =
      by_effect h (Request.change_threshold_request signers n) _ l _
        (change_threshold_effect h signers n l)
        λ _ l' e. threshold_step h _ signers n l.store l'.store l.store.admins l.store.threshold e
  handle-RecoveryStep (Request.pause_request signers reason) l =
      by_effect h (Request.pause_request signers reason) _ l _ (pause_effect h signers reason l)
        λ _ l' e. RecoveryStep.kept (ground arith)
  handle-RecoveryStep (Request.upgrade_request signers code) l =
      by_effect h (Request.upgrade_request signers code) _ l _ (upgrade_effect h signers code l)
        λ _ l' e. RecoveryStep.kept (ground arith)
  handle-RecoveryStep (Request.register_merchant_request signers m) l =
      by_effect h (Request.register_merchant_request signers m) _ l _
        (register_merchant_effect h signers m l)
        λ _ l' e. RecoveryStep.kept (ground (arith, e.2.written))
  handle-RecoveryStep (Request.unregister_merchant_request signers m) l =
      by_effect h (Request.unregister_merchant_request signers m) _ l _
        (unregister_merchant_effect h signers m l)
        λ _ l' e. RecoveryStep.kept (ground (arith, e.1.written))
  handle-RecoveryStep (Request.clear_settlement_rule_request signers m) l =
      by_effect h (Request.clear_settlement_rule_request signers m) _ l _
        (clear_settlement_rule_effect h signers m l)
        λ _ l' e. RecoveryStep.kept (ground (arith, e.1.written))
  handle-RecoveryStep (Request.set_settlement_rule_request signers m r) l =
      by_effect h (Request.set_settlement_rule_request signers m r) _ l _
        (set_settlement_rule_effect h signers m r l)
        λ _ l' e. RecoveryStep.kept (ground (arith, e.1.written))
  handle-RecoveryStep (Request.set_default_rule_request signers r) l =
      by_effect h (Request.set_default_rule_request signers r) _ l _
        (set_default_rule_effect h signers r l)
        λ _ l' e. RecoveryStep.kept (ground (arith, e.1.written))
  handle-RecoveryStep (Request.prune_payment_request signers m r) l =
      by_effect h (Request.prune_payment_request signers m r) _ l _
        (prune_payment-SameParts h signers m r l) λ _ l' e. RecoveryStep.kept e.recovery
  handle-RecoveryStep (Request.schedule_request signers op delay) l =
      by_effect h (Request.schedule_request signers op delay) _ l _
        (schedule-Scheduled h signers op delay l)
        λ _ l' e. RecoveryStep.kept (ground (arith, e.written))
  handle-RecoveryStep (Request.cancel_request signers op) l =
      by_effect h (Request.cancel_request signers op) _ l _ (cancel-consumed h signers op l)
        λ _ l' e. RecoveryStep.kept (ground (arith, e.3))
  handle-RecoveryStep (Request.calculate_fee_split_request m amount) l =
      looked_up
        (λ l'. RecoveryStep h (Request.calculate_fee_split_request m amount) l.store l'.store)
        (calculate_fee_split h m amount) l (calculate_fee_split-OnlyCached h m amount l)
        λ l' e. RecoveryStep.kept (ground arith)
  handle-RecoveryStep (Request.get_effective_rule_request m) l =
      looked_up (λ l'. RecoveryStep h (Request.get_effective_rule_request m) l.store l'.store)
        (get_effective_rule h m) l (get_effective_rule-OnlyCached h m l)
        λ l' e. RecoveryStep.kept (ground arith)
  handle-RecoveryStep (Request.get_rule_provenance_request m) l =
      looked_up (λ l'. RecoveryStep h (Request.get_rule_provenance_request m) l.store l'.store)
        (get_rule_provenance h m) l (get_rule_provenance-OnlyCached h m l)
        λ l' e. RecoveryStep.kept (ground arith)
  handle-RecoveryStep (Request.dry_run_request op) l =
      by_effect h (Request.dry_run_request op) _ l _ (dry_run-same h op l)
        λ _ l' e. RecoveryStep.kept (ground arith)
  handle-RecoveryStep (Request.execute_request executor op) l =
      execute-step h (Request.execute_request executor op) executor op l
  handle-RecoveryStep (Request.store_payment_reference_request m r amount) l =
      dropped
        (λ l'. RecoveryStep h (Request.store_payment_reference_request m r amount) l.store l'.store)
        (store_payment_reference h m r amount) l
        (by_effect h (Request.store_payment_reference_request m r amount) _ l
          (store_payment_reference h m r amount l) (store_payment_reference-Recorded h m r amount l)
          λ split l' e.
            RecoveryStep.kept
              ((Recorded-SameParts h l.store l'.store m r amount split e.1).recovery))
  handle-RecoveryStep (Request.prune_payments_request signers m refs) l =
      dropped
        (λ l'. RecoveryStep h (Request.prune_payments_request signers m refs) l.store l'.store)
        (prune_payments h signers m refs) l
        (by_effect h (Request.prune_payments_request signers m refs) _ l
          (prune_payments h signers m refs l) (prune_payments-SameParts h signers m refs l)
          λ split l' e. RecoveryStep.kept e.recovery)
  handle-RecoveryStep (Request.cancel_all_request signers ops) l =
      dropped (λ l'. RecoveryStep h (Request.cancel_all_request signers ops) l.store l'.store)
        (cancel_all h signers ops) l
        (by_effect h (Request.cancel_all_request signers ops) _ l (cancel_all h signers ops l)
          (cancel_all-SameParts h signers ops l) λ split l' e. RecoveryStep.kept e.recovery)
