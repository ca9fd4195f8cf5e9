-- ===== src/Settlement/Timelock/Safety.antt =====
-- What the timelock promises: no operation runs before its delay, none runs twice, and the number
-- of scheduled operations is the one that is stored.
use betta_pay_contract.Base.{ℕ, ◌+◌, ◌<◌, ◌≡◌, none, List, arith}
use betta_pay_contract.Base.Lists.{same_refl}
use betta_pay_contract.Base.Dict.{get, get-set, get-delete}
use betta_pay_contract.Base.Ledger.{ok, Ensures, bind-Ensures, pass-Ensures, weaken-Ensures}
use betta_pay_contract.Common.Env.{Env, Address, probe_supports_interface}
use betta_pay_contract.Settlement.Types.{Operation}
use betta_pay_contract.Settlement.State.{Store, State, Host, later}
use betta_pay_contract.Settlement.Storage.{read_admins}
use betta_pay_contract.Settlement.Storage.Access.{validate_admins_sound}
use betta_pay_contract.Settlement.Operations.{
  run_operation, run_update_governance, run_cancel_recovery, run_transfer_admin, run_upgrade,
}
use betta_pay_contract.Settlement.Operations.Effect.{
  run_set_settlement_rule_effect, run_set_default_rule_effect, run_clear_settlement_rule_effect,
  run_register_merchant_effect, run_unregister_merchant_effect,
}
use betta_pay_contract.Settlement.Admin.Effect.{replace_admins_effect}
use betta_pay_contract.Settlement.Timelock.{
  schedule, validate_scheduled_execution, consume_scheduled_operation, execute, dry_run,
}
use betta_pay_contract.Settlement.Timelock.Effect.{
  Ready, consumed, schedule-Scheduled, validate-Ready, consume-eq,
}

-- Neither the scheduled operations nor their count are changed.
abbrev pub SameSchedule : Store → Store → Type 0
SameSchedule s s' =
    (s'.scheduled ≡ s.scheduled) × (s'.pending_operation_count ≡ s.pending_operation_count)

module _ (h : Host) (executor : Address) where
  run_transfer_admin-SameSchedule :
      (admins : List Address) (n : ℕ) (l : State)
      → Ensures (run_transfer_admin h admins n l) (λ _ l'. SameSchedule l.store l'.store)
  unfolding run_transfer_admin read_admins
  run_transfer_admin-SameSchedule admins n l =
      grind (arith, validate_admins_sound, replace_admins_effect)

  pub run_operation-SameSchedule :
      (op : Operation) (l : State)
      → Ensures (run_operation h executor op l) (λ _ l'. SameSchedule l.store l'.store)
  unfolding run_operation run_update_governance run_cancel_recovery run_upgrade
      probe_supports_interface
  run_operation-SameSchedule (Operation.update_governance g) l = ground arith
  run_operation-SameSchedule Operation.cancel_recovery l = ground arith
  run_operation-SameSchedule (Operation.transfer_admin admins n) l =
      run_transfer_admin-SameSchedule admins n l
  run_operation-SameSchedule (Operation.upgrade code) l = ground arith
  run_operation-SameSchedule (Operation.register_merchant m) l =
      ground (arith, run_register_merchant_effect h executor m l)
  run_operation-SameSchedule (Operation.unregister_merchant m) l =
      ground (arith, run_unregister_merchant_effect h executor m l)
  run_operation-SameSchedule (Operation.set_settlement_rule m r) l =
      ground (arith, run_set_settlement_rule_effect h executor m r l)
  run_operation-SameSchedule (Operation.clear_settlement_rule m) l =
      ground (arith, run_clear_settlement_rule_effect h executor m l)
  run_operation-SameSchedule (Operation.set_default_rule r) l =
      ground (arith, run_set_default_rule_effect h executor r l)

  -- An `execute` that returns found the contract not paused and the operation itself in its slot
  -- with its time reached, and no recovery pending unless the operation cancels one. Whatever the
  -- operation is, afterwards its slot is empty, the other slots are as before, and the count is
  -- one less, down to zero.
  pub execute-consumed :
      (op : Operation) (l : State)
      → Ensures (execute h executor op l) (λ _ l'.
        Ready h l.store op × SameSchedule (consumed (h.sha256 (h.to_xdr op)) l.store) l'.store)
  unfolding execute consume_scheduled_operation
  execute-consumed op l =
      bind-Ensures _ (validate_scheduled_execution h op) _ l (validate-Ready h op l) λ key l1 ready.
        pass-Ensures _ (consume_scheduled_operation key) _ l1
          λ _ l2 e2. grind (arith, run_operation-SameSchedule op l2, consume-eq h key l1)

module _ (h : Host) (env : Env) (executor : Address) where
  -- Under the same encoder and hash, whatever the environments are: an operation whose slot is
  -- empty is not executed; the call panics or traps.
  pub execute_absent :
      (op : Operation) (l : State)
      → get l.store.scheduled (h.sha256 (h.to_xdr op)) ≡ none
      → Ensures (execute (later h env) executor op l) (λ _ _. ⊥)
  execute_absent op l e = ground (arith, execute-consumed (later h env) executor op l)

  -- Once an operation has been executed it cannot be executed again in the storage that this
  -- leaves, at any time and with any authorizations: it must be scheduled anew.
  pub execute_no_replay :
      (again : Address) (op : Operation) (l : State)
      → Ensures
          (execute h again op l)
          (λ _ l'. Ensures (execute (later h env) executor op l') (λ _ _. ⊥))
  execute_no_replay again op l =
      weaken-Ensures _ (execute h again op l) (execute-consumed h again op l) λ _ l' done.
        execute_absent op l' (
          ground
            (arith, get-delete l.store.scheduled (h.sha256 (h.to_xdr op)) (h.sha256 (h.to_xdr op))))

  -- From the storage that `schedule` leaves, the operation is not executed less than 7 days
  -- (604,800 seconds) after it was scheduled, whoever calls and whatever is authorized.
  pub schedule_delay :
      (signers : List Address) (op : Operation) (delay : ℕ) (l : State)
      → env.timestamp < h.env.timestamp + 604800
      → Ensures
          (schedule h signers op delay l)
          (λ _ l'. Ensures (execute (later h env) executor op l') (λ _ _. ⊥))
  schedule_delay signers op delay l early =
      weaken-Ensures _ (schedule h signers op delay l) (schedule-Scheduled h signers op delay l)
        λ _ l' s. ground (
          arith,
          execute-consumed (later h env) executor op l',
          get-set l.store.scheduled (h.sha256 (h.to_xdr op)) (h.sha256 (h.to_xdr op))
              (record { operation_xdr = h.to_xdr op; execute_at = h.env.timestamp + delay }),
        )

module _ (h : Host) where
  -- Whenever `execute` returns, `dry_run` of the same operation in the same state returns too, and
  -- leaves the state as it is.
  pub execute-dry_run :
      (executor : Address) (op : Operation) (l : State)
      → Ensures (execute h executor op l) (λ _ _. dry_run h op l ≡ ok (tt, l))
  unfolding execute dry_run
  execute-dry_run executor op l = grind (arith, validate-Ready h op)

  -- A `dry_run` that returns found what an execution checks before it runs the operation, and
  -- leaves the state as it is.
  pub dry_run-Ready :
      (op : Operation) (l : State)
      → Ensures (dry_run h op l) (λ _ l'. Ready h l.store op × (l' ≡ l))
  unfolding dry_run
  dry_run-Ready op l = ground (arith, validate-Ready h op l)

module _ (h : Host) where
  pub validate_returns :
      (op : Operation) (l : State)
      → Ready h l.store op
      → validate_scheduled_execution h op l ≡ ok (h.sha256 (h.to_xdr op), l)
  unfolding validate_scheduled_execution
  validate_returns op l r =
      ground (arith, same_refl (h.to_xdr op), r.unpaused, r.held, r.elapsed, r.no_recovery)

  -- Whenever what an execution checks before it runs the operation holds, `dry_run` returns and
  -- leaves the state as it is.
  pub dry_run_returns :
      (op : Operation) (l : State) → Ready h l.store op → dry_run h op l ≡ ok (tt, l)
  unfolding dry_run
  dry_run_returns op l r = ground (arith, validate_returns op l r)
