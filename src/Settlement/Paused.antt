-- ===== src/Settlement/Paused.antt =====
-- lib.rs, the pause model: which entry points a pause stops, and with which error.
use betta_pay_contract.Common.Env.{Address}
use betta_pay_contract.Base.{◌==◌, ◌≡◌, List, Bool, true, false, not, arith}
use betta_pay_contract.Base.Ledger.{Result, ok, panic, trap, Ensures}
use betta_pay_contract.Settlement.Types.{SettlementError, Operation, paused}
use betta_pay_contract.Settlement.State.{State, Host}
use betta_pay_contract.Settlement.Storage.{is_paused, assert_admin_and_not_paused}
use betta_pay_contract.Settlement.Storage.Access.{verify_admins_sound}
use betta_pay_contract.Settlement.Rules.{
  set_settlement_rule, clear_settlement_rule, set_default_rule,
}
use betta_pay_contract.Settlement.Merchant.{register_merchant, unregister_merchant}
use betta_pay_contract.Settlement.Payments.{store_payment_reference, prune_payment}
use betta_pay_contract.Settlement.Timelock.{
  schedule, validate_scheduled_execution, execute, dry_run, cancel, cancel_all,
}
use betta_pay_contract.Settlement.Admin.{update_governance, migrate}
use betta_pay_contract.Settlement.Invariant.Requests.{Request, handle}

-- The entry points that look at the pause before anything else. `store_payment_reference` looks at
-- the reference first.
abbrev pub checks_pause_first : Request → Bool
checks_pause_first (Request.update_governance_request _ _) = true
checks_pause_first (Request.register_merchant_request _ _) = true
checks_pause_first (Request.unregister_merchant_request _ _) = true
checks_pause_first (Request.clear_settlement_rule_request _ _) = true
checks_pause_first (Request.set_settlement_rule_request _ _ _) = true
checks_pause_first (Request.set_default_rule_request _ _) = true
checks_pause_first (Request.store_payment_reference_request _ r _) = not (r == 0)
checks_pause_first (Request.prune_payment_request _ _ _) = true
checks_pause_first (Request.schedule_request _ _ _) = true
checks_pause_first (Request.execute_request _ _) = true
checks_pause_first (Request.dry_run_request _) = true
checks_pause_first _ = false

by_paused :
    (r : Result SettlementError (Unit {0} × State)) → r ≡ panic paused → Ensures r (λ _ _. ⊥)
by_paused (ok _) e = cc
by_paused (panic _) e = tt
by_paused trap e = tt

module _ (h : Host) where
  -- While the contract is paused, every entry point that looks at the pause first panics with
  -- `Paused`, whatever the other arguments, signers and storage are: `schedule`, `execute` and
  -- `dry_run` too, and `store_payment_reference` for a reference that is not zero.
  pub handle-paused :
      (request : Request) (l : State)
      → is_paused l.store ≡ true
      → checks_pause_first request ≡ true
      → handle h request l ≡ panic paused
  unfolding handle update_governance register_merchant unregister_merchant clear_settlement_rule
      set_settlement_rule set_default_rule store_payment_reference prune_payment schedule execute
      dry_run validate_scheduled_execution assert_admin_and_not_paused
  handle-paused (Request.init_request d admins n g r) l stopped first = ground arith
  handle-paused (Request.update_governance_request signers g) l stopped first = ground arith
  handle-paused (Request.update_recovery_address_request signers a) l stopped first = ground arith
  handle-paused (Request.initiate_recovery_request a) l stopped first = ground arith
  handle-paused (Request.cancel_recovery_request signers) l stopped first = ground arith
  handle-paused (Request.unpause_request signers) l stopped first = ground arith
  handle-paused (Request.migrate_request signers) l stopped first = ground arith
  handle-paused Request.execute_recovery_request l stopped first = ground arith
  handle-paused (Request.transfer_admin_request signers admins n) l stopped first = ground arith
  handle-paused (Request.change_threshold_request signers n) l stopped first = ground arith
  handle-paused (Request.pause_request signers reason) l stopped first = ground arith
  handle-paused (Request.upgrade_request signers code) l stopped first = ground arith
  handle-paused (Request.register_merchant_request signers m) l stopped first = ground arith
  handle-paused (Request.unregister_merchant_request signers m) l stopped first = ground arith
  handle-paused (Request.clear_settlement_rule_request signers m) l stopped first = ground arith
  handle-paused (Request.set_settlement_rule_request signers m r) l stopped first = ground arith
  handle-paused (Request.set_default_rule_request signers r) l stopped first = ground arith
  handle-paused (Request.store_payment_reference_request m r amount) l stopped first = ground arith
  handle-paused (Request.prune_payment_request signers m r) l stopped first = ground arith
  handle-paused (Request.prune_payments_request signers m refs) l stopped first = ground arith
  handle-paused (Request.schedule_request signers op delay) l stopped first = ground arith
  handle-paused (Request.execute_request executor op) l stopped first = ground arith
  handle-paused (Request.cancel_request signers op) l stopped first = ground arith
  handle-paused (Request.cancel_all_request signers ops) l stopped first = ground arith
  handle-paused (Request.calculate_fee_split_request m amount) l stopped first = ground arith
  handle-paused (Request.get_effective_rule_request m) l stopped first = ground arith
  handle-paused (Request.get_rule_provenance_request m) l stopped first = ground arith
  handle-paused (Request.dry_run_request op) l stopped first = ground arith

  -- While the contract is paused, none of these entry points returns.
  handle_stopped :
      (request : Request) (l : State)
      → is_paused l.store ≡ true
      → checks_pause_first request ≡ true
      → Ensures (handle h request l) (λ _ _. ⊥)
  handle_stopped request l stopped first =
      by_paused (handle h request l) (handle-paused request l stopped first)

  -- While the contract is paused, the entry points that check the signers before it do not return
  -- either, whoever signs.
  late_stopped :
      (signers : List Address) (op : Operation) (ops : List Operation) (l : State)
      → is_paused l.store ≡ true
      → Ensures (migrate h signers l) (λ _ _. ⊥)
        × Ensures (cancel h signers op l) (λ _ _. ⊥)
        × Ensures (cancel_all h signers ops l) (λ _ _. ⊥)
  unfolding migrate cancel cancel_all
  late_stopped signers op ops l stopped = (
    ground (arith, verify_admins_sound h signers l),
    ground (arith, verify_admins_sound h signers l),
    ground (arith, verify_admins_sound h signers l),
  )
