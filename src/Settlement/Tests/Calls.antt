-- ===== src/Settlement/Tests/Calls.antt =====
-- Calls of the settlement contract from its deployment on, and what they leave.
use betta_pay_contract.Base.{
  ◌+◌, ◌==◌, ◌≡◌, refl, true, false, none, some, List, [], ◌∷◌, if◌then◌else◌,
}
use betta_pay_contract.Base.Int.{pos}
use betta_pay_contract.Base.Dict.{get, set, delete}
use betta_pay_contract.Base.Ledger.{returns, ok, Returns}
use betta_pay_contract.Common.Env.{Env, failed}
use betta_pay_contract.Governance.Contract as GovernanceContract
use betta_pay_contract.Governance.Storage as GovernanceStorage
use betta_pay_contract.Governance.Contract.Invariant as GovernanceInvariant
use betta_pay_contract.Governance.Contract.Runs as GovernanceRuns
use betta_pay_contract.Settlement.Governed.{Linked, answer_of}
use mathlib.Core.Path.{sym, ap}
use betta_pay_contract.Common.Rule.{calculate_fee_ceil}
use betta_pay_contract.Common.Auth.{
  verify_quorum, verify_signers, validate_set, validate_each, require_auth_each,
}
use betta_pay_contract.Settlement.Types.{PaymentRecord}
use betta_pay_contract.Settlement.State.{State, Host}
use betta_pay_contract.Settlement.Storage.{
  is_merchant_registered_and_bump_ttl, increment_payment_count, decrement_pending_operation_count,
  increment_pending_operation_count, read_admins, read_threshold, verify_admins, verify_admin_auth,
  assert_admin_and_not_paused, read_governance, validate_admins_and_threshold, write_admins,
  read_recovery_address, read_pending_recovery, is_paused,
}
use betta_pay_contract.Settlement.Rules.{get_effective_rule}
use betta_pay_contract.Settlement.Fees.{
  read_cached_governance_fee_rule, read_min_payment_amount, read_rule_or_default,
  read_rule_or_default_no_bump, read_effective_rule_no_bump, read_effective_fallback_rule,
  read_governance_fee_rule, governance_bypass_enabled, try_read_governance_fee_config,
  classify_governance_fee_config, assert_governance_reachable, invoke_governance_get_fee_config,
}
use betta_pay_contract.Settlement.Split.{calculate_split, clamp_fee_legs}
use betta_pay_contract.Settlement.Payments.{payment_of, store_payment_reference, record_payment}
use betta_pay_contract.Settlement.Merchant.{register_merchant, refuse_admin, add_merchant}
use betta_pay_contract.Settlement.Operations.{run_operation, run_register_merchant}
use betta_pay_contract.Settlement.Timelock.{
  schedule, execute, validate_scheduled_execution, consume_scheduled_operation, hash_of,
}
use betta_pay_contract.Settlement.Timelock.Effect.{consumed}
use betta_pay_contract.Settlement.Admin.{init, execute_recovery, initiate_recovery}
use betta_pay_contract.Settlement.Invariant.Requests.{Request, handle}
use betta_pay_contract.Settlement.History.Runs.{run, start, after}
use betta_pay_contract.Settlement.Tests.Hosts.{host_at, now, host, ready_store, state_of, ready, op}

-- The contract is initialised and merchant 5 registered; then the merchant stores a payment, or the
-- admin schedules an operation.
abbrev pub payment_calls : List (Host × Request)
payment_calls =
    (host, Request.init_request 3 (1 ∷ []) 1 9 8)
    ∷ (host, Request.register_merchant_request (1 ∷ []) 5)
    ∷ (host, Request.store_payment_reference_request 5 42 (pos 10_000))
    ∷ []

abbrev pub schedule_calls : List (Host × Request)
schedule_calls =
    (host, Request.init_request 3 (1 ∷ []) 1 9 8)
    ∷ (host, Request.schedule_request (1 ∷ []) op 700_000)
    ∷ []

abbrev pub recovery_calls : List (Host × Request)
recovery_calls =
    (host, Request.init_request 3 (1 ∷ []) 1 9 8) ∷ (host, Request.initiate_recovery_request 6) ∷ []

abbrev pub later_host : Host
later_host = host_at (now + 700_000)

abbrev pub stored_payment : PaymentRecord
stored_payment = record {
  merchant = 5;
  amount = pos 10_000;
  platform_fee_amount = pos 5_000;
  network_fee_amount = pos 5_000;
  merchant_payout_amount = pos 0;
  platform_fee_bps = 5_000;
  network_fee_bps = 5_000;
  ledger = 77;
  settlement_delay_ledger = 0;
  auto_settle = false;
  version = 1;
}

pub payment_calls_store :
    payment_of ((run payment_calls (start 0)).store) 5 42 ≡ some stored_payment
unfolding run handle init validate_admins_and_threshold validate_set validate_each require_auth_each
    write_admins register_merchant assert_admin_and_not_paused verify_admins verify_admin_auth
    read_admins read_threshold verify_quorum verify_signers refuse_admin add_merchant
    store_payment_reference record_payment is_merchant_registered_and_bump_ttl
    read_min_payment_amount read_rule_or_default read_rule_or_default_no_bump
    read_effective_rule_no_bump read_effective_fallback_rule read_governance_fee_rule
    governance_bypass_enabled try_read_governance_fee_config classify_governance_fee_config get set
    calculate_split clamp_fee_legs calculate_fee_ceil increment_payment_count
payment_calls_store = refl

-- A quote that anyone may ask for caches governance's rule, and a payment during an outage takes it.
abbrev outage_host : Host
outage_host = record host { get_fee_config = λ _. failed }

abbrev outage_calls : List (Host × Request)
outage_calls =
    (host, Request.init_request 3 (1 ∷ []) 1 9 8)
    ∷ (host, Request.register_merchant_request (1 ∷ []) 5)
    ∷ (host, Request.get_effective_rule_request 5)
    ∷ (outage_host, Request.store_payment_reference_request 5 42 (pos 10_000))
    ∷ []

outage_calls_store : payment_of ((run outage_calls (start 0)).store) 5 42 ≡ some stored_payment
unfolding run handle init validate_admins_and_threshold validate_set validate_each require_auth_each
    write_admins register_merchant assert_admin_and_not_paused verify_admins verify_admin_auth
    read_admins read_threshold verify_quorum verify_signers refuse_admin add_merchant
    store_payment_reference record_payment is_merchant_registered_and_bump_ttl
    read_min_payment_amount read_rule_or_default read_rule_or_default_no_bump
    read_effective_rule_no_bump read_effective_fallback_rule read_governance_fee_rule
    governance_bypass_enabled try_read_governance_fee_config classify_governance_fee_config get set
    calculate_split clamp_fee_legs calculate_fee_ceil increment_payment_count get_effective_rule
    read_cached_governance_fee_rule
outage_calls_store = refl

-- The operation that the calls schedule is executed when its delay has passed.
schedule_calls_done : returns (execute later_host 99 op (run schedule_calls (start 0))) ≡ true
unfolding run handle init validate_admins_and_threshold validate_set validate_each require_auth_each
    write_admins schedule assert_admin_and_not_paused verify_admins verify_admin_auth read_admins
    read_threshold verify_quorum verify_signers assert_governance_reachable read_governance
    invoke_governance_get_fee_config get set delete increment_pending_operation_count execute
    validate_scheduled_execution consume_scheduled_operation decrement_pending_operation_count
    run_operation run_register_merchant refuse_admin add_merchant
schedule_calls_done = refl

-- The recovery that the calls initiate is executed when its delay has passed.
recovery_calls_done : returns (execute_recovery later_host (run recovery_calls (start 0))) ≡ true
unfolding run handle init validate_admins_and_threshold validate_set validate_each require_auth_each
    write_admins initiate_recovery read_recovery_address execute_recovery read_pending_recovery
recovery_calls_done = refl

-- A storage with the payment.
abbrev pub paid : State
paid = state_of (record ready_store {
  payments = λ m. if m == 5 then (42, stored_payment) ∷ [] else [];
  payment_counts = λ m. if m == 5 then some 1 else none;
})

pub paid_payment : payment_of paid.store 5 42 ≡ some stored_payment
unfolding get
paid_payment = refl

-- What `schedule` and `initiate_recovery` leave.
abbrev pub next_scheduled : State
next_scheduled = after ready (schedule host (1 ∷ []) op 700_000 ready)

pub schedules : schedule host (1 ∷ []) op 700_000 ready ≡ ok (tt, next_scheduled)
unfolding schedule assert_admin_and_not_paused verify_admins verify_admin_auth read_admins
    read_threshold verify_quorum verify_signers assert_governance_reachable read_governance
    invoke_governance_get_fee_config get increment_pending_operation_count
schedules = refl

abbrev pub next_initiated : State
next_initiated = after ready (initiate_recovery host 6 ready)

pub initiates : initiate_recovery host 6 ready ≡ ok (tt, next_initiated)
unfolding initiate_recovery read_recovery_address
initiates = refl

pub next_unpaused : is_paused next_scheduled.store ≡ false
unfolding schedule assert_admin_and_not_paused verify_admins verify_admin_auth read_admins
    read_threshold verify_quorum verify_signers assert_governance_reachable read_governance
    invoke_governance_get_fee_config get increment_pending_operation_count
next_unpaused = refl

pub next_free : next_scheduled.store.pending_recovery ≡ none
unfolding schedule assert_admin_and_not_paused verify_admins verify_admin_auth read_admins
    read_threshold verify_quorum verify_signers assert_governance_reachable read_governance
    invoke_governance_get_fee_config get increment_pending_operation_count
next_free = refl

pub next_runs : Returns (
    run_operation later_host 99 op
      (record next_scheduled { store = consumed (hash_of host op) next_scheduled.store }))
unfolding schedule assert_admin_and_not_paused verify_admins verify_admin_auth read_admins
    read_threshold verify_quorum verify_signers assert_governance_reachable read_governance
    invoke_governance_get_fee_config get increment_pending_operation_count run_operation
    run_register_merchant refuse_admin add_merchant
next_runs = tt

-- The governance contract is initialised and its ceilings are set to what the host answers.
abbrev pub governance_calls : List (Env × GovernanceInvariant.Request)
governance_calls =
    (host.env, GovernanceInvariant.Request.init_request 3 (1 ∷ []) 1 8)
    ∷ (
      host.env,
      GovernanceInvariant.Request.set_fee_config_request (1 ∷ [])
          (record { platform_fee_bps = 5_000; network_fee_bps = 5_000 }),
    )
    ∷ []

governance_calls_config :
    (GovernanceRuns.run governance_calls (GovernanceRuns.start 0)).store.fee_config
    ≡ some (record { platform_fee_bps = 5_000; network_fee_bps = 5_000 })
unfolding GovernanceRuns.run GovernanceInvariant.handle GovernanceContract.init
    GovernanceContract.set_fee_config GovernanceStorage.validate_admins_and_threshold
    GovernanceStorage.assert_admin_and_not_paused GovernanceStorage.verify_admins
    GovernanceStorage.verify_admin_auth GovernanceStorage.read_admins
    GovernanceStorage.read_threshold validate_set validate_each require_auth_each verify_quorum
    verify_signers
governance_calls_config = refl

payment_calls_governance : (run payment_calls (start 0)).store.governance ≡ some 9
unfolding run handle init validate_admins_and_threshold validate_set validate_each require_auth_each
    write_admins register_merchant assert_admin_and_not_paused verify_admins verify_admin_auth
    read_admins read_threshold verify_quorum verify_signers refuse_admin add_merchant
    store_payment_reference record_payment is_merchant_registered_and_bump_ttl
    read_min_payment_amount read_rule_or_default read_rule_or_default_no_bump
    read_effective_rule_no_bump read_effective_fallback_rule read_governance_fee_rule
    governance_bypass_enabled try_read_governance_fee_config classify_governance_fee_config get set
    calculate_split clamp_fee_legs calculate_fee_ceil increment_payment_count
payment_calls_governance = refl

pub calls-Linked :
    Linked host
      ((run payment_calls (start 0)).store)
      ((GovernanceRuns.run governance_calls (GovernanceRuns.start 0)).store)
calls-Linked = record {
  address = 9;
  known = payment_calls_governance;
  answered = sym (ap answer_of governance_calls_config);
}
