-- ===== src/Settlement/History/Stays.antt =====
-- What the arms of `execute` do to the pending recovery.
use betta_pay_contract.Base.{◌≡◌, ◌⊎◌, inl, inr, none, arith}
use betta_pay_contract.Base.Ledger.{Result, Ensures, weaken-Ensures}
use betta_pay_contract.Common.Env.{Address}
use betta_pay_contract.Settlement.Types.{Operation, SettlementError}
use betta_pay_contract.Settlement.State.{Store, State, Host}
use betta_pay_contract.Settlement.Operations.{run_operation}
use betta_pay_contract.Settlement.Operations.Effect.{
  run_set_settlement_rule_effect, run_set_default_rule_effect, run_clear_settlement_rule_effect,
  run_register_merchant_effect, run_unregister_merchant_effect,
}
use betta_pay_contract.Settlement.Invariant.Arms.{
  run_update_governance-SameParts, run_upgrade-SameParts, run_cancel_recovery_cleared,
  run_transfer_admin-Transferred,
}

-- The pending recovery is as before or removed.
abbrev pub Stays : Store → Store → Type 0
Stays s s' = (s'.pending_recovery ≡ s.pending_recovery) ⊎ (s'.pending_recovery ≡ none)

by-Stays :
    (P : State → Type 0) (l : State) (r : Result SettlementError (Unit {0} × State))
    → Ensures r (λ _ l'. P l')
    → ((l' : State) → P l' → Stays l.store l'.store)
    → Ensures r (λ _ l'. Stays l.store l'.store)
by-Stays P l r e k = weaken-Ensures _ r e λ _ l'. k l'

module _ (h : Host) (executor : Address) where
  pub run_operation-Stays :
      (op : Operation) (l : State)
      → Ensures (run_operation h executor op l) (λ _ l'. Stays l.store l'.store)
  unfolding run_operation
  run_operation-Stays (Operation.update_governance g) l =
      by-Stays _ l _ (run_update_governance-SameParts h executor g l) λ l' e. inl e.recovery
  run_operation-Stays Operation.cancel_recovery l =
      by-Stays _ l _ (run_cancel_recovery_cleared h executor l) λ l' e. inr (ground arith)
  run_operation-Stays (Operation.transfer_admin admins n) l =
      by-Stays _ l _ (run_transfer_admin-Transferred h admins n l)
        λ l' e. inl (ground (arith, e.written))
  run_operation-Stays (Operation.upgrade code) l =
      by-Stays _ l _ (run_upgrade-SameParts h executor code l) λ l' e. inl e.recovery
  run_operation-Stays (Operation.register_merchant m) l =
      by-Stays _ l _ (run_register_merchant_effect h executor m l)
        λ l' e. inl (ground (arith, e.written))
  run_operation-Stays (Operation.unregister_merchant m) l =
      by-Stays _ l _ (run_unregister_merchant_effect h executor m l)
        λ l' e. inl (ground (arith, e.written))
  run_operation-Stays (Operation.set_settlement_rule m r) l =
      by-Stays _ l _ (run_set_settlement_rule_effect h executor m r l)
        λ l' e. inl (ground (arith, e.written))
  run_operation-Stays (Operation.clear_settlement_rule m) l =
      by-Stays _ l _ (run_clear_settlement_rule_effect h executor m l)
        λ l' e. inl (ground (arith, e.written))
  run_operation-Stays (Operation.set_default_rule r) l =
      by-Stays _ l _ (run_set_default_rule_effect h executor r l)
        λ l' e. inl (ground (arith, e.written))
