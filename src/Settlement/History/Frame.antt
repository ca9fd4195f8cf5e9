-- ===== src/Settlement/History/Frame.antt =====
-- The entry points that leave the payments alone.
use betta_pay_contract.Base.{ℕ, ◌≡◌, refl, List, [], ◌∷◌, arith}
use betta_pay_contract.Base.Ledger.{Result, Ensures, bind-Ensures, weaken-Ensures}
use betta_pay_contract.Common.Env.{Address, Hash, probe_supports_interface}
use betta_pay_contract.Settlement.Types.{Operation, SettlementError}
use betta_pay_contract.Settlement.State.{Store, State, Host}
use betta_pay_contract.Settlement.Storage.Access.{verify_admins_sound}
use betta_pay_contract.Settlement.Operations.{
  run_operation, run_update_governance, run_cancel_recovery, run_transfer_admin, run_upgrade,
}
use betta_pay_contract.Settlement.Operations.Effect.{
  run_set_settlement_rule_effect, run_set_default_rule_effect, run_clear_settlement_rule_effect,
  run_register_merchant_effect, run_unregister_merchant_effect,
}
use betta_pay_contract.Settlement.Timelock.{
  validate_scheduled_execution, consume_scheduled_operation, execute, cancel_each, cancel_all,
}
use betta_pay_contract.Settlement.Timelock.Effect.{consume-eq, validate-Ready}
use betta_pay_contract.Settlement.Invariant.Arms.{run_transfer_admin-Transferred}

-- The payments and their numbers are as before.
pub record SamePayments (s s' : Store) : Type 0 where
  pub payments : s'.payments ≡ s.payments
  pub counts : s'.payment_counts ≡ s.payment_counts

-- A call whose effect keeps the payments keeps them.
pub by_effect :
    (P : State → Type 0) (l : State) (r : Result SettlementError (Unit {0} × State))
    → Ensures r (λ _ l'. P l')
    → ((l' : State) → P l' → SamePayments l.store l'.store)
    → Ensures r (λ _ l'. SamePayments l.store l'.store)
by_effect P l r e k = weaken-Ensures _ r e λ _ l'. k l'

module _ (h : Host) (executor : Address) where
  run_update_governance-SamePayments :
      (g : Address) (l : State)
      → Ensures (run_update_governance h executor g l) (λ _ l'. SamePayments l.store l'.store)
  unfolding run_update_governance
  run_update_governance-SamePayments g l = ground arith

  run_upgrade-SamePayments :
      (code : Hash) (l : State)
      → Ensures (run_upgrade h executor code l) (λ _ l'. SamePayments l.store l'.store)
  unfolding run_upgrade probe_supports_interface
  run_upgrade-SamePayments code l = ground arith

  run_cancel_recovery-SamePayments :
      (l : State)
      → Ensures (run_cancel_recovery h executor l) (λ _ l'. SamePayments l.store l'.store)
  unfolding run_cancel_recovery
  run_cancel_recovery-SamePayments l = ground arith

  -- No arm of `execute` changes a payment.
  run_operation-SamePayments :
      (op : Operation) (l : State)
      → Ensures (run_operation h executor op l) (λ _ l'. SamePayments l.store l'.store)
  unfolding run_operation
  run_operation-SamePayments (Operation.update_governance g) l =
      run_update_governance-SamePayments g l
  run_operation-SamePayments Operation.cancel_recovery l = run_cancel_recovery-SamePayments l
  run_operation-SamePayments (Operation.transfer_admin admins n) l =
      weaken-Ensures _ (run_transfer_admin h admins n l)
        (run_transfer_admin-Transferred h admins n l) λ _ l' e. ground (arith, e.written)
  run_operation-SamePayments (Operation.upgrade code) l = run_upgrade-SamePayments code l
  run_operation-SamePayments (Operation.register_merchant m) l =
      by_effect _ l _ (run_register_merchant_effect h executor m l)
        λ l' e. ground (arith, e.written)
  run_operation-SamePayments (Operation.unregister_merchant m) l =
      by_effect _ l _ (run_unregister_merchant_effect h executor m l)
        λ l' e. ground (arith, e.written)
  run_operation-SamePayments (Operation.set_settlement_rule m r) l =
      by_effect _ l _ (run_set_settlement_rule_effect h executor m r l)
        λ l' e. ground (arith, e.written)
  run_operation-SamePayments (Operation.clear_settlement_rule m) l =
      by_effect _ l _ (run_clear_settlement_rule_effect h executor m l)
        λ l' e. ground (arith, e.written)
  run_operation-SamePayments (Operation.set_default_rule r) l =
      by_effect _ l _ (run_set_default_rule_effect h executor r l) λ l' e. ground (arith, e.written)

module _ (h : Host) where
  consume-SamePayments :
      (key : Hash) (l : State)
      → Ensures (consume_scheduled_operation key l) (λ _ l'. SamePayments l.store l'.store)
  unfolding consume_scheduled_operation
  consume-SamePayments key l = ground (arith, consume-eq h key l)

  pub execute-SamePayments :
      (executor : Address) (op : Operation) (l : State)
      → Ensures (execute h executor op l) (λ _ l'. SamePayments l.store l'.store)
  unfolding execute
  execute-SamePayments executor op l =
      bind-Ensures _ (validate_scheduled_execution h op) _ l (validate-Ready h op l) λ key l1 ready.
        bind-Ensures _ (consume_scheduled_operation key) _ l1 (consume-SamePayments key l1)
          λ _ l2 e2.
            bind-Ensures _ (run_operation h executor op) _ l2
              (run_operation-SamePayments h executor op l2) λ _ l3 e3. ground arith

  cancel_each-SamePayments :
      (ops : List Operation) (n : ℕ) (l : State)
      → Ensures (cancel_each h ops n l) (λ _ l'. SamePayments l.store l'.store)
  unfolding cancel_each
  cancel_each-SamePayments [] n l = record { payments = refl; counts = refl }
  cancel_each-SamePayments (op ∷ ops) n l =
      grind (arith, cancel_each-SamePayments ops, consume-eq h)

  pub cancel_all-SamePayments :
      (signers : List Address) (ops : List Operation) (l : State)
      → Ensures (cancel_all h signers ops l) (λ _ l'. SamePayments l.store l'.store)
  unfolding cancel_all
  cancel_all-SamePayments signers ops l =
      grind (arith, verify_admins_sound h signers, cancel_each-SamePayments ops)
