-- ===== src/Settlement/Tests/Runs.antt =====
-- The theorems on sequences of calls of the settlement contract, applied to runs from its
-- deployment on.
use betta_pay_contract.Settlement.History.Plans.{execute-Planned}
use betta_pay_contract.Settlement.History.Runs.{run_provenance, run-IsValid}
use betta_pay_contract.Settlement.History.Steps.{handle-Step}
use betta_pay_contract.Settlement.History.Records.{handle_immutable}
use betta_pay_contract.Settlement.System.{run_store_payment-Fair}
use betta_pay_contract.Settlement.History.Audit.{run-IsAudited}
use betta_pay_contract.Settlement.History.Appointments.{settlement_recovery-Appointed}
use betta_pay_contract.Settlement.History.Slots.{run_slots-IsWithin}
use betta_pay_contract.Settlement.Timelock.Liveness.{schedule-execute-Returns}
use betta_pay_contract.Settlement.Admin.Liveness.{initiate-Recovers}
use betta_pay_contract.Settlement.Payments.Batch.{prune_payments-BatchPruned}
use betta_pay_contract.Settlement.Paused.{handle-paused}
use betta_pay_contract.Settlement.Split.Bounds.{calculate_split-Inflated}
use betta_pay_contract.Settlement.Admin.Migration.{migrate_total}
use betta_pay_contract.Base.{◌+◌, ◌≤◌, ◌≡◌, refl, ◌⊎◌, true, none, some, [], ◌∷◌, arith, unwrap_or}
use betta_pay_contract.Base.Int.{pos}
use betta_pay_contract.Base.Ledger.{panic, Ensures, Returns}
use betta_pay_contract.Settlement.Fees.Precedence.{rule_for, OfRule}
use betta_pay_contract.Settlement.Split.Conservation.{Fair}
use betta_pay_contract.Settlement.History.Slots.{IsWithin}
use betta_pay_contract.Settlement.History.Audit.{IsAudited}
use betta_pay_contract.Base.Lists.{length}
use betta_pay_contract.Settlement.Types.{paused}
use betta_pay_contract.Settlement.State.{later}
use betta_pay_contract.Settlement.Split.{calculate_split}
use betta_pay_contract.Settlement.Payments.{payment_of, store_payment_reference, prune_payments}
use betta_pay_contract.Settlement.Payments.Batch.{BatchPruned}
use betta_pay_contract.Settlement.Payments.Count.{IsCounted}
use betta_pay_contract.Settlement.Timelock.{execute}
use betta_pay_contract.Settlement.Admin.{execute_recovery, migrate}
use betta_pay_contract.Settlement.Admin.Liveness.{Recovers}
use betta_pay_contract.Settlement.Admin.Migration.{advanced}
use betta_pay_contract.Settlement.Split.Bounds.{Inflated}
use betta_pay_contract.Settlement.Invariant.{IsValid}
use betta_pay_contract.Settlement.Invariant.Requests.{Request, handle}
use betta_pay_contract.Settlement.History.Steps.{Step}
use betta_pay_contract.Settlement.History.Runs.{run, start, Made}
use betta_pay_contract.Settlement.History.Plans.{Planned}
use betta_pay_contract.Settlement.Tests.Hosts.{
  env_at, fee_rule, now, host, ready_store, state_of, ready, op,
}
use betta_pay_contract.Settlement.Tests.Calls.{
  payment_calls, schedule_calls, recovery_calls, later_host, stored_payment, payment_calls_store,
  paid, paid_payment, next_scheduled, schedules, next_initiated, initiates, next_unpaused,
  next_free, next_runs, governance_calls, calls-Linked,
}
use betta_pay_contract.Settlement.Tests.Premises.{ready-IsApproved}
use betta_pay_contract.Settlement.History.Appointments.{Appointed}

execute-Planned_example :
    Ensures
      (execute later_host 99 op (run schedule_calls (start 0)))
      (λ _ _. Planned schedule_calls (start 0) (host.to_xdr op) (now + 700_000))
execute-Planned_example = execute-Planned 0 schedule_calls later_host 99 op

run_provenance_example : Made payment_calls (start 0) 5 42 stored_payment
run_provenance_example = run_provenance 0 payment_calls 5 42 stored_payment payment_calls_store

run-IsValid_example :
    IsValid ((run payment_calls (start 0)).store)
    × IsCounted ((run payment_calls (start 0)).store) 5
run-IsValid_example = run-IsValid 0 payment_calls 5

handle-Step_example :
    Ensures (handle host (Request.store_payment_reference_request 5 42 (pos 10_000)) ready) (λ _ l'.
      Step host (Request.store_payment_reference_request 5 42 (pos 10_000)) ready_store l'.store)
handle-Step_example =
    handle-Step host (Request.store_payment_reference_request 5 42 (pos 10_000)) ready

handle_immutable_example :
    Ensures
      (handle host (Request.store_payment_reference_request 5 42 (pos 700)) paid)
      (λ _ l'. (payment_of l'.store 5 42 ≡ none) ⊎ (payment_of l'.store 5 42 ≡ some stored_payment))
handle_immutable_example =
    handle_immutable host (Request.store_payment_reference_request 5 42 (pos 700)) paid 5 42
      stored_payment paid_payment

run_store_payment-Fair_example :
    Ensures
      (store_payment_reference host 5 43 (pos 10_001) (run payment_calls (start 0)))
      (λ split _.
        OfRule
          (λ rule. Fair 10_001 rule.platform_fee_bps rule.network_fee_bps split)
          (rule_for host ((run payment_calls (start 0)).store) 5))
run_store_payment-Fair_example =
    run_store_payment-Fair 0 0 payment_calls governance_calls host 5 43 10_001 calls-Linked
      (ground arith)

run-IsAudited_example : IsAudited 5 stored_payment 10_000
run-IsAudited_example =
    run-IsAudited 0 payment_calls 5 42 stored_payment 10_000 payment_calls_store refl (ground arith)
      (ground arith) (ground arith)

settlement_recovery-Appointed_example :
    Ensures
      (execute_recovery later_host (run recovery_calls (start 0)))
      (λ _ l'. Appointed recovery_calls (start 0) l'.store (now + 700_000))
settlement_recovery-Appointed_example = settlement_recovery-Appointed 0 recovery_calls later_host

run_slots-IsWithin_example : IsWithin (length schedule_calls) ((run schedule_calls (start 0)).store)
run_slots-IsWithin_example = run_slots-IsWithin 0 schedule_calls (ground arith)

schedule-execute-Returns_example :
    Returns (execute (later host (env_at (now + 700_000))) 99 op next_scheduled)
schedule-execute-Returns_example =
    schedule-execute-Returns host (env_at (now + 700_000)) 99 (1 ∷ []) op 700_000 ready
      next_scheduled next_scheduled schedules refl next_unpaused next_free (ground arith) next_runs

initiate-Recovers_example : Recovers (later host (env_at (now + 604_800))) 6 next_initiated
initiate-Recovers_example =
    initiate-Recovers host (env_at (now + 604_800)) 6 ready next_initiated next_initiated initiates
      refl (ground arith)

prune_payments-BatchPruned_example :
    Ensures
      (prune_payments host (1 ∷ []) 5 (42 ∷ 43 ∷ 42 ∷ []) paid)
      (λ n l'. BatchPruned host paid.store l'.store (1 ∷ []) 5 (42 ∷ 43 ∷ 42 ∷ []) n)
prune_payments-BatchPruned_example =
    prune_payments-BatchPruned host (1 ∷ []) 5 (42 ∷ 43 ∷ 42 ∷ []) paid

handle-paused_example :
    handle host
      (Request.store_payment_reference_request 5 42 (pos 700))
      (state_of (record ready_store { paused_flag = some true }))
    ≡ panic paused
handle-paused_example =
    handle-paused host (Request.store_payment_reference_request 5 42 (pos 700))
      (state_of (record ready_store { paused_flag = some true })) refl refl

calculate_split-Inflated_example :
    Ensures (calculate_split (pos 101) (fee_rule 250 50) ready) (λ s _. Inflated 101 250 50 s)
calculate_split-Inflated_example =
    calculate_split-Inflated 101 (fee_rule 250 50) ready (ground arith) (ground arith)
      (ground arith)

migrate_total_example :
    Returns (migrate host (1 ∷ []) ready)
    × Ensures (migrate host (1 ∷ []) ready) (λ _ l'.
      (l'.store ≡ record ready_store { schema_version = advanced (some 1) })
      × (1 ≤ unwrap_or l'.store.schema_version 1))
migrate_total_example = migrate_total host 1 [] ready ready-IsApproved refl
