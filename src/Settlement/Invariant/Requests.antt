-- ===== src/Settlement/Invariant/Requests.antt =====
-- The settlement contract's entry points as requests, and that each of them keeps the invariant.
use betta_pay_contract.Base.{ℕ, List, arith}
use betta_pay_contract.Settlement.Invariant.{
  IsValid, SameParts-IsValid, RuleSet-IsValid, RuleCleared-IsValid, Unregistered-IsValid,
  Recorded-SameParts, init-IsValid, prune_payment-SameParts, prune_payments-SameParts,
  cancel_all-SameParts, migrate-SameParts,
}
use betta_pay_contract.Settlement.Invariant.Reads.{
  OnlyCached-SameParts, calculate_fee_split-OnlyCached, get_effective_rule-OnlyCached,
  get_rule_provenance-OnlyCached, dry_run-same,
}
use betta_pay_contract.Settlement.Fees.Frame.{OnlyCached}
use betta_pay_contract.Base.Int.{ℤ}
use betta_pay_contract.Base.Ledger.{Ensures, bind-Ensures, weaken-Ensures, ◌>>=◌, pure}
use betta_pay_contract.Common.Rule.{SettlementRule}
use betta_pay_contract.Common.Env.{Address, Reference, Hash}
use betta_pay_contract.Settlement.Types.{Operation}
use betta_pay_contract.Settlement.State.{State, Act, Host}
use betta_pay_contract.Settlement.Rules.{
  set_settlement_rule, clear_settlement_rule, set_default_rule, get_effective_rule,
  get_rule_provenance,
}
use betta_pay_contract.Settlement.Rules.Effect.{
  set_settlement_rule_effect, clear_settlement_rule_effect, set_default_rule_effect,
}
use betta_pay_contract.Settlement.Merchant.{register_merchant, unregister_merchant}
use betta_pay_contract.Settlement.Merchant.Effect.{
  register_merchant_effect, unregister_merchant_effect,
}
use betta_pay_contract.Settlement.Payments.{
  store_payment_reference, calculate_fee_split, prune_payment, prune_payments,
}
use betta_pay_contract.Settlement.Payments.Effect.{store_payment_reference-Recorded}
use betta_pay_contract.Settlement.Timelock.{schedule, execute, dry_run, cancel, cancel_all}
use betta_pay_contract.Settlement.Timelock.Effect.{schedule-Scheduled, cancel-consumed}
use betta_pay_contract.Settlement.Admin.{
  init, update_governance, initiate_recovery, cancel_recovery, update_recovery_address,
  execute_recovery, transfer_admin, change_threshold, upgrade, pause, unpause, migrate,
}
use betta_pay_contract.Settlement.Admin.Effect.{
  execute_recovery_effect, initiate_recovery_effect, cancel_recovery_effect, transfer_admin_effect,
  change_threshold_effect, pause_effect, unpause_effect, update_governance_effect,
  update_recovery_address_effect, upgrade_effect,
}
use betta_pay_contract.Settlement.Invariant.Arms.{
  Transferred-IsValid, DefaultSet-IsValid, Registered-IsValid, by_parts, by_effect, execute-IsValid,
}
use betta_pay_contract.Settlement.Invariant.Transitions.{
  Initiated-IsValid, Recovered-IsValid, Cancelled-IsValid, lowered-IsValid,
}

-- A call of an entry point that writes to the storage, or of `dry_run`. `calculate_fee_split`,
-- `get_effective_rule` and `get_rule_provenance` write the cached governance rule. The other entry
-- points read: they ask at most for more time to live.
pub data Request : Type 0 where
  init_request : Address → List Address → ℕ → Address → Address → Request
  update_governance_request update_recovery_address_request : List Address → Address → Request
  initiate_recovery_request : Address → Request
  cancel_recovery_request unpause_request migrate_request : List Address → Request
  execute_recovery_request : Request
  transfer_admin_request : List Address → List Address → ℕ → Request
  change_threshold_request pause_request : List Address → ℕ → Request
  upgrade_request : List Address → Hash → Request
  register_merchant_request unregister_merchant_request : List Address → Address → Request
  clear_settlement_rule_request : List Address → Address → Request
  set_settlement_rule_request : List Address → Address → SettlementRule → Request
  set_default_rule_request : List Address → SettlementRule → Request
  store_payment_reference_request : Address → Reference → ℤ → Request
  prune_payment_request : List Address → Address → Reference → Request
  prune_payments_request : List Address → Address → List Reference → Request
  schedule_request : List Address → Operation → ℕ → Request
  execute_request : Address → Operation → Request
  cancel_request : List Address → Operation → Request
  cancel_all_request : List Address → List Operation → Request
  calculate_fee_split_request : Address → ℤ → Request
  get_effective_rule_request get_rule_provenance_request : Address → Request
  dry_run_request : Operation → Request

-- A result that the invariant does not depend on is dropped.
abbrev pub quietly : {A : Type 0} → Act A → Act (Unit {0})
quietly m = m >>= λ _. pure tt

unfoldable pub handle : Host → Request → Act (Unit {0})
handle h (Request.init_request d admins n g r) = init h d admins n g r
handle h (Request.update_governance_request signers g) = update_governance h signers g
handle h (Request.update_recovery_address_request signers a) = update_recovery_address h signers a
handle h (Request.initiate_recovery_request a) = initiate_recovery h a
handle h (Request.cancel_recovery_request signers) = cancel_recovery h signers
handle h (Request.unpause_request signers) = unpause h signers
handle h (Request.migrate_request signers) = migrate h signers
handle h Request.execute_recovery_request = execute_recovery h
handle h (Request.transfer_admin_request signers admins n) = transfer_admin h signers admins n
handle h (Request.change_threshold_request signers n) = change_threshold h signers n
handle h (Request.pause_request signers reason) = pause h signers reason
handle h (Request.upgrade_request signers code) = upgrade h signers code
handle h (Request.register_merchant_request signers m) = register_merchant h signers m
handle h (Request.unregister_merchant_request signers m) = unregister_merchant h signers m
handle h (Request.clear_settlement_rule_request signers m) = clear_settlement_rule h signers m
handle h (Request.set_settlement_rule_request signers m r) = set_settlement_rule h signers m r
handle h (Request.set_default_rule_request signers r) = set_default_rule h signers r
handle h (Request.store_payment_reference_request m r amount) =
    quietly (store_payment_reference h m r amount)
handle h (Request.prune_payment_request signers m r) = prune_payment h signers m r
handle h (Request.prune_payments_request signers m refs) = quietly (prune_payments h signers m refs)
handle h (Request.schedule_request signers op delay) = schedule h signers op delay
handle h (Request.execute_request executor op) = execute h executor op
handle h (Request.cancel_request signers op) = cancel h signers op
handle h (Request.cancel_all_request signers ops) = quietly (cancel_all h signers ops)
handle h (Request.calculate_fee_split_request m amount) = quietly (calculate_fee_split h m amount)
handle h (Request.get_effective_rule_request m) = quietly (get_effective_rule h m)
handle h (Request.get_rule_provenance_request m) = quietly (get_rule_provenance h m)
handle h (Request.dry_run_request op) = dry_run h op

-- What holds of the state holds when the result is dropped.
pub dropped :
    {A : Type 0} (P : State → Type 0) (m : Act A) (l : State)
    → Ensures (m l) (λ _ l'. P l')
    → Ensures (quietly m l) (λ _ l'. P l')
dropped P m l e = bind-Ensures _ m _ l e λ _ l' v. v

-- What holds of every state with another cached governance rule holds after a lookup of a rule.
pub looked_up :
    {A : Type 0} (P : State → Type 0) (m : Act A) (l : State)
    → Ensures (m l) (λ _ l'. OnlyCached l l')
    → ((l' : State) → OnlyCached l l' → P l')
    → Ensures (quietly m l) (λ _ l'. P l')
looked_up P m l e k = dropped P m l (weaken-Ensures _ (m l) e λ _ l'. k l')

module _ (h : Host) where
  -- Every entry point that writes, the lookups of a rule included, keeps the settlement storage valid: the admins are distinct, not
  -- zero and at least as many as their threshold, which is at least 1; a pending recovery is for a
  -- non-zero address; and the default rule and every merchant's rule are within the bounds, each
  -- fee from 5 to 5,000 basis points, both at most 10,000, and the delay at most 100,000 ledgers.
  pub handle-IsValid :
      (request : Request) (l : State)
      → IsValid l.store
      → Ensures (handle h request l) (λ _ l'. IsValid l'.store)
  unfolding handle
  handle-IsValid (Request.init_request d admins n g r) l v = init-IsValid h d admins n g r l v
  handle-IsValid (Request.update_governance_request signers g) l v =
      by_effect _ l _ (update_governance_effect h signers g l)
        λ l' e. SameParts-IsValid l.store l'.store (ground arith) v
  handle-IsValid (Request.update_recovery_address_request signers a) l v =
      by_effect _ l _ (update_recovery_address_effect h signers a l)
        λ l' e. SameParts-IsValid l.store l'.store (ground arith) v
  handle-IsValid (Request.initiate_recovery_request a) l v =
      by_effect _ l _ (initiate_recovery_effect h a l) λ l' e. Initiated-IsValid h a l l' e v
  handle-IsValid (Request.cancel_recovery_request signers) l v =
      by_effect _ l _ (cancel_recovery_effect h signers l)
        λ l' e. Cancelled-IsValid h signers l l' e v
  handle-IsValid (Request.unpause_request signers) l v =
      by_effect _ l _ (unpause_effect h signers l)
        λ l' e. SameParts-IsValid l.store l'.store (ground arith) v
  handle-IsValid (Request.migrate_request signers) l v =
      by_parts l _ (migrate-SameParts h signers l) v
  handle-IsValid Request.execute_recovery_request l v =
      by_effect _ l _ (execute_recovery_effect h l) λ l' e. Recovered-IsValid h l l' e v
  handle-IsValid (Request.transfer_admin_request signers admins n) l v =
      by_effect _ l _ (transfer_admin_effect h signers admins n l)
        λ l' e. Transferred-IsValid l.store l'.store admins n e.1 v
  handle-IsValid (Request.change_threshold_request signers n) l v =
      by_effect _ l _ (change_threshold_effect h signers n l)
        λ l' e. lowered-IsValid h signers n l l' e v
  handle-IsValid (Request.pause_request signers reason) l v =
      by_effect _ l _ (pause_effect h signers reason l)
        λ l' e. SameParts-IsValid l.store l'.store (ground arith) v
  handle-IsValid (Request.upgrade_request signers code) l v =
      by_effect _ l _ (upgrade_effect h signers code l)
        λ l' e. SameParts-IsValid l.store l'.store (ground arith) v
  handle-IsValid (Request.register_merchant_request signers m) l v =
      by_effect _ l _ (register_merchant_effect h signers m l)
        λ l' e. Registered-IsValid l.store l'.store m e.2 v
  handle-IsValid (Request.unregister_merchant_request signers m) l v =
      by_effect _ l _ (unregister_merchant_effect h signers m l)
        λ l' e. Unregistered-IsValid l.store l'.store m e.1 v
  handle-IsValid (Request.clear_settlement_rule_request signers m) l v =
      by_effect _ l _ (clear_settlement_rule_effect h signers m l)
        λ l' e. RuleCleared-IsValid l.store l'.store m e.1 v
  handle-IsValid (Request.set_settlement_rule_request signers m r) l v =
      by_effect _ l _ (set_settlement_rule_effect h signers m r l)
        λ l' e. RuleSet-IsValid h l.store l'.store m r e.1 v
  handle-IsValid (Request.set_default_rule_request signers r) l v =
      by_effect _ l _ (set_default_rule_effect h signers r l)
        λ l' e. DefaultSet-IsValid h l.store l'.store r e.1 v
  handle-IsValid (Request.store_payment_reference_request m r amount) l v =
      dropped (λ l'. IsValid l'.store) (store_payment_reference h m r amount) l
        (weaken-Ensures _ (store_payment_reference h m r amount l)
          (store_payment_reference-Recorded h m r amount l)
          λ split l' e.
            SameParts-IsValid l.store l'.store
              (Recorded-SameParts h l.store l'.store m r amount split e.1) v)
  handle-IsValid (Request.prune_payment_request signers m r) l v =
      by_parts l _ (prune_payment-SameParts h signers m r l) v
  handle-IsValid (Request.prune_payments_request signers m refs) l v =
      dropped (λ l'. IsValid l'.store) (prune_payments h signers m refs) l
        (by_parts l _ (prune_payments-SameParts h signers m refs l) v)
  handle-IsValid (Request.schedule_request signers op delay) l v =
      by_effect _ l _ (schedule-Scheduled h signers op delay l)
        λ l' e. SameParts-IsValid l.store l'.store (ground (arith, e.written)) v
  handle-IsValid (Request.execute_request executor op) l v = execute-IsValid h executor op l v
  handle-IsValid (Request.cancel_request signers op) l v =
      by_effect _ l _ (cancel-consumed h signers op l)
        λ l' e. SameParts-IsValid l.store l'.store (ground (arith, e.3)) v
  handle-IsValid (Request.cancel_all_request signers ops) l v =
      dropped (λ l'. IsValid l'.store) (cancel_all h signers ops) l
        (by_parts l _ (cancel_all-SameParts h signers ops l) v)
  handle-IsValid (Request.calculate_fee_split_request m amount) l v =
      looked_up (λ l'. IsValid l'.store) (calculate_fee_split h m amount) l
        (calculate_fee_split-OnlyCached h m amount l)
        λ l' e. SameParts-IsValid l.store l'.store (OnlyCached-SameParts l l' e) v
  handle-IsValid (Request.get_effective_rule_request m) l v =
      looked_up (λ l'. IsValid l'.store) (get_effective_rule h m) l
        (get_effective_rule-OnlyCached h m l)
        λ l' e. SameParts-IsValid l.store l'.store (OnlyCached-SameParts l l' e) v
  handle-IsValid (Request.get_rule_provenance_request m) l v =
      looked_up (λ l'. IsValid l'.store) (get_rule_provenance h m) l
        (get_rule_provenance-OnlyCached h m l)
        λ l' e. SameParts-IsValid l.store l'.store (OnlyCached-SameParts l l' e) v
  handle-IsValid (Request.dry_run_request op) l v =
      by_effect _ l _ (dry_run-same h op l)
        λ l' e. SameParts-IsValid l.store l'.store (ground arith) v
