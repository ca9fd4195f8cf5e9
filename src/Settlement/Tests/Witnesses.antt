-- ===== src/Settlement/Tests/Witnesses.antt =====
-- The theorems on the settlement contract, applied at the hosts and storages of Hosts.antt.
use betta_pay_contract.Settlement.Payments.Effect.{store_payment_reference-Recorded}
use betta_pay_contract.Settlement.Split.Conservation.{calculate_split-Fair}
use betta_pay_contract.Settlement.Split.Spec.{calculate_split-eq}
use betta_pay_contract.Settlement.Timelock.Safety.{execute_no_replay, execute-consumed}
use betta_pay_contract.Settlement.Timelock.Effect.{schedule-Scheduled}
use betta_pay_contract.Settlement.Timelock.Success.{schedule-Returns, returns-execute}
use betta_pay_contract.Settlement.Payments.Safety.{store-get_payment, unregister_orphaned}
use betta_pay_contract.Settlement.Admin.Delay.{
  initiate_delay, execute_recovery_returns, initiate_blocks,
}
use betta_pay_contract.Settlement.Admin.Lockout.{change_threshold_locked}
use betta_pay_contract.Settlement.Rules.Effect.{set_settlement_rule_effect}
use betta_pay_contract.Settlement.Governed.{validate_fee-Capped}
use betta_pay_contract.Settlement.Operations.Effect.{check_rule_bounds-eq}
use betta_pay_contract.Base.{◌+◌, ◌*◌, ◌≡◌, refl, ltb, none, some, [], ◌∷◌, arith, if◌then◌else◌}
use betta_pay_contract.Base.Int.{pos, i128_bound}
use betta_pay_contract.Base.Ledger.{ok, panic, Ensures, Returns, instance_entry}
use betta_pay_contract.Settlement.Types.{amount_overflow}
use betta_pay_contract.Settlement.Fees.{validate_fee_against_governance}
use betta_pay_contract.Settlement.Operations.{run_operation}
use betta_pay_contract.Settlement.State.{Event, later}
use betta_pay_contract.Settlement.Storage.Access.{IsApproved}
use betta_pay_contract.Settlement.Split.{calculate_split}
use betta_pay_contract.Settlement.Split.Spec.{split_spec}
use betta_pay_contract.Settlement.Split.Conservation.{Fair}
use betta_pay_contract.Settlement.Payments.{store_payment_reference, get_payment_reference}
use betta_pay_contract.Settlement.Payments.Effect.{Payable, Recorded}
use betta_pay_contract.Settlement.Payments.Safety.{Shows}
use betta_pay_contract.Settlement.Merchant.{unregister_merchant}
use betta_pay_contract.Settlement.Rules.{set_settlement_rule, validate_rule_bounds}
use betta_pay_contract.Settlement.Rules.Effect.{RuleSet}
use betta_pay_contract.Settlement.Operations.{check_rule_bounds}
use betta_pay_contract.Settlement.Admin.{initiate_recovery, execute_recovery, change_threshold}
use betta_pay_contract.Settlement.Timelock.{schedule, execute}
use betta_pay_contract.Settlement.Timelock.Effect.{Scheduled, Ready, consumed}
use betta_pay_contract.Settlement.Timelock.Safety.{SameSchedule}
use betta_pay_contract.Settlement.Governed.{Capped}
use betta_pay_contract.Settlement.Tests.Hosts.{
  env_at, fee_rule, now, host, ready_store, state_of, ready, op, scheduled, recovering,
}
use betta_pay_contract.Settlement.Tests.Premises.{
  ready-IsApproved, ready_slot, governance_store, ready-Linked,
}
use betta_pay_contract.Base.{◌&&◌}
use betta_pay_contract.Base.Ledger.{returns}
use betta_pay_contract.Settlement.Operations.{run_operation}
use betta_pay_contract.Settlement.Timelock.{hash_of}
use betta_pay_contract.Settlement.Timelock.Success.{lets_through}

store_payment_reference-Recorded_example :
    Ensures (store_payment_reference host 5 42 (pos 10_000) ready) (λ split l'.
      Payable host ready_store 5 42 (pos 10_000)
      × Recorded host ready_store l'.store 5 42 (pos 10_000) split)
store_payment_reference-Recorded_example =
    store_payment_reference-Recorded host 5 42 (pos 10_000) ready

calculate_split-Fair_example :
    Ensures
      (calculate_split (pos 10_001) (fee_rule 250 50) ready)
      (λ s l'. Fair 10_001 250 50 s × (l' ≡ ready))
calculate_split-Fair_example =
    calculate_split-Fair 10_001 (fee_rule 250 50) ready (ground arith) (ground arith)

calculate_split-eq_example : calculate_split (pos 10_001) (fee_rule 250 50) ready ≡ (
    if ltb (10_001 * (250 + 50) + 9999) i128_bound
    then ok (split_spec 10_001 250 50, ready)
    else panic amount_overflow)
calculate_split-eq_example =
    calculate_split-eq 10_001 (fee_rule 250 50) ready (ground arith) (ground arith) (ground arith)

execute_no_replay_example :
    Ensures
      (execute host 98 op scheduled)
      (λ _ l'. Ensures (execute (later host (env_at (now + 1))) 99 op l') (λ _ _. ⊥))
execute_no_replay_example = execute_no_replay host (env_at (now + 1)) 99 98 op scheduled

execute-consumed_example : Ensures (execute host 99 op scheduled) (λ _ l'.
    Ready host scheduled.store op
    × SameSchedule (consumed (host.sha256 (host.to_xdr op)) scheduled.store) l'.store)
execute-consumed_example = execute-consumed host 99 op scheduled

schedule-Scheduled_example :
    Ensures
      (schedule host (1 ∷ []) op 700_000 ready)
      (λ _ l'. Scheduled host ready_store l'.store (1 ∷ []) op 700_000)
schedule-Scheduled_example = schedule-Scheduled host (1 ∷ []) op 700_000 ready

schedule-Returns_example : Returns (schedule host (1 ∷ []) op 700_000 ready)
schedule-Returns_example =
    schedule-Returns host 1 [] op 700_000 ready ready-IsApproved refl (ground arith) (ground arith)
      (ground arith) (ground arith) (ground arith) ready_slot tt

returns-execute_example : returns (execute host 99 op scheduled) ≡ (
    lets_through host scheduled.store op
    && returns (
        run_operation host 99 op
          (record scheduled { store = consumed (hash_of host op) scheduled.store })))
returns-execute_example = returns-execute host 99 op scheduled

store-get_payment_example :
    Ensures (store_payment_reference host 5 42 (pos 10_000) ready) (λ split l'.
      Ensures
        (get_payment_reference (later host (env_at (now + 5))) 5 42 [] l')
        (λ p _. Shows 5 (pos 10_000) split p))
store-get_payment_example = store-get_payment host (env_at (now + 5)) 5 42 (pos 10_000) [] ready

initiate_delay_example :
    Ensures
      (initiate_recovery host 6 ready)
      (λ _ l'. Ensures (execute_recovery (later host (env_at (now + 604_799))) l') (λ _ _. ⊥))
initiate_delay_example = initiate_delay host (env_at (now + 604_799)) 6 ready (ground arith)

execute_recovery_returns_example :
    execute_recovery host recovering
    ≡ ok (
      tt,
      record recovering {
        store = record (recovering.store) {
          admins = some (5 ∷ []);
          threshold = some 1;
          pending_recovery = none;
        };
        events = Event.recovery_executed (1 ∷ 2 ∷ []) (5 ∷ []) ∷ [];
        extensions = instance_entry 50_000 100_000 ∷ [];
      },
    )
execute_recovery_returns_example =
    execute_recovery_returns host (record { new_admin = 5; execute_after = now; initiated_by = 8 })
      recovering refl (ground arith) (ground arith)

initiate_blocks_example :
    Ensures
      (initiate_recovery host 6 scheduled)
      (λ _ l'. Ensures (execute (later host (env_at (now + 1))) 99 op l') (λ _ _. ⊥))
initiate_blocks_example = initiate_blocks host (env_at (now + 1)) 6 scheduled 99 op refl

change_threshold_locked_example :
    Ensures
      (change_threshold host (1 ∷ 2 ∷ []) 1 (state_of (record ready_store { threshold = some 2 })))
      (λ _ _. ⊥)
change_threshold_locked_example =
    change_threshold_locked host (1 ∷ 2 ∷ []) (1 ∷ 2 ∷ []) 1
      (state_of (record ready_store { threshold = some 2 })) refl refl

unregister_orphaned_example : Ensures (unregister_merchant host (1 ∷ []) 5 ready) (λ _ l'.
    (l'.store.payments ≡ ready_store.payments)
    × Ensures (get_payment_reference (later host (env_at now)) 5 42 [] l') (λ _ _. ⊥))
unregister_orphaned_example = unregister_orphaned host (env_at now) (1 ∷ []) [] 5 42 ready

set_settlement_rule_effect_example :
    Ensures (set_settlement_rule host (1 ∷ []) 5 (fee_rule 250 50) ready) (λ _ l'.
      IsApproved host ready_store (1 ∷ []) × RuleSet host ready_store l'.store 5 (fee_rule 250 50))
set_settlement_rule_effect_example =
    set_settlement_rule_effect host (1 ∷ []) 5 (fee_rule 250 50) ready

validate_fee-Capped_example :
    Ensures
      (validate_fee_against_governance host (fee_rule 250 50) ready)
      (λ _ _. Capped governance_store.fee_config (fee_rule 250 50))
validate_fee-Capped_example =
    validate_fee-Capped host governance_store (fee_rule 250 50) ready ready-Linked

check_rule_bounds-eq_example :
    check_rule_bounds (fee_rule 5_000 5_001) ready
    ≡ validate_rule_bounds (fee_rule 5_000 5_001) ready
check_rule_bounds-eq_example = check_rule_bounds-eq (fee_rule 5_000 5_001) ready
