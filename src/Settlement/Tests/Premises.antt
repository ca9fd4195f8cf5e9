-- ===== src/Settlement/Tests/Premises.antt =====
-- What holds of the hosts and storages of Hosts.antt, as the theorems ask for it.
use betta_pay_contract.Base.{◌≡◌, refl, inl, true, false, none, some, [], ◌∷◌, arith}
use betta_pay_contract.Base.Int.{pos}
use betta_pay_contract.Base.Ledger.{returns, ok, Returns}
use betta_pay_contract.Base.Dict.{get}
use betta_pay_contract.Common.Rule.{calculate_fee_ceil}
use betta_pay_contract.Common.Auth.{verify_quorum, verify_signers}
use betta_pay_contract.Settlement.Types.{EffectiveRule, RuleProvenance}
use betta_pay_contract.Settlement.Storage.{
  is_merchant_registered_and_bump_ttl, increment_payment_count, decrement_pending_operation_count,
  increment_pending_operation_count, read_admins, read_threshold, verify_admins, verify_admin_auth,
  assert_admin_and_not_paused, read_governance,
}
use betta_pay_contract.Settlement.Fees.{
  read_min_payment_amount, read_rule_or_default, read_rule_or_default_no_bump,
  read_effective_fallback_rule, read_governance_fee_rule, governance_bypass_enabled,
  try_read_governance_fee_config, classify_governance_fee_config, assert_governance_reachable,
  invoke_governance_get_fee_config,
}
use betta_pay_contract.Settlement.Split.{clamp_fee_legs}
use betta_pay_contract.Settlement.Payments.{record_payment}
use betta_pay_contract.Settlement.Merchant.{refuse_admin, add_merchant}
use betta_pay_contract.Settlement.Operations.{run_operation, run_register_merchant}
use betta_pay_contract.Settlement.Timelock.{
  validate_scheduled_execution, consume_scheduled_operation,
}
use betta_pay_contract.Settlement.Storage.Access.{IsApproved}
use betta_pay_contract.Settlement.Fees.{read_effective_rule_no_bump}
use betta_pay_contract.Settlement.Fees.Frame.{WithinCeiling}
use betta_pay_contract.Settlement.Fees.Precedence.{rule_spec, rule_for}
use betta_pay_contract.Settlement.Split.{calculate_split}
use betta_pay_contract.Settlement.Split.Spec.{split_spec}
use betta_pay_contract.Settlement.Payments.{store_payment_reference}
use betta_pay_contract.Settlement.Payments.Effect.{Payable, IsSplit}
use betta_pay_contract.Settlement.Payments.Count
use betta_pay_contract.Settlement.Rules.Effect.{IsBounded}
use betta_pay_contract.Settlement.Timelock.{schedule, execute}
use betta_pay_contract.Settlement.Timelock.Effect.{Ready, consumed}
use betta_pay_contract.Settlement.Invariant.{IsValid}
use betta_pay_contract.Settlement.Governed.{Linked}
use betta_pay_contract.Governance.State as Governance
use betta_pay_contract.Governance.Contract.Effect as Config
use betta_pay_contract.Settlement.Tests.Hosts.{fee_rule, host, ready_store, ready, op, scheduled}

-- The hypotheses hold at the storages.
ready-IsValid : IsValid ready_store
ready-IsValid = record {
  admins = ground arith;
  recovery = ground arith;
  default = ground arith;
  rules = λ m. ground arith;
}

ready-IsCounted : Count.IsCounted ready_store 5
ready-IsCounted = record { keyed = ground arith; counted = ground arith }

pub scheduled-Ready : Ready host scheduled.store op
unfolding get
scheduled-Ready = record {
  unpaused = refl;
  held = refl;
  elapsed = ground arith;
  no_recovery = inl refl;
}

pub ready-IsApproved : IsApproved host ready_store (1 ∷ [])
unfolding IsApproved
ready-IsApproved = ground arith

pub ready_slot : get ready_store.scheduled (host.sha256 (host.to_xdr op)) ≡ none
unfolding get
ready_slot = refl

-- The governance storage that the host answers from.
abbrev pub governance_store : Governance.Store
governance_store = record {
  admins = some (1 ∷ []);
  threshold = some 1;
  deployer = some 3;
  schema_version = some 1;
  recovery_address = some 8;
  pending_recovery = none;
  paused_flag = none;
  fee_config = some (record { platform_fee_bps = 5000; network_fee_bps = 5000 });
  wasm = 0;
  system_params = λ _. none;
  anchors = λ _. none;
}

pub ready-Linked : Linked host ready_store governance_store
ready-Linked = record { address = 9; known = refl; answered = refl }

config-IsBounded : Config.IsBounded (record { platform_fee_bps = 5000; network_fee_bps = 5000 })
config-IsBounded = record {
  platform_min = ground arith;
  platform_max = ground arith;
  network_min = ground arith;
  network_max = ground arith;
}

pub ready-Payable : Payable host ready_store 5 42 (pos 10_000)
unfolding get
ready-Payable = record {
  nonzero = ground arith;
  unpaused = refl;
  agreed = refl;
  registered = refl;
  large_enough = refl;
  new = refl;
}

-- The rule of governance's answer, which applies to merchant 5.
abbrev pub ready_rule : EffectiveRule
ready_rule = record {
  rule = record {
    platform_fee_bps = 5000;
    network_fee_bps = 5000;
    settlement_delay_ledger = 0;
    auto_settle = false;
  };
  provenance = RuleProvenance.governance;
}

pub ready_rule-rule_for : rule_for host ready_store 5 ≡ some ready_rule
unfolding rule_spec governance_bypass_enabled classify_governance_fee_config
ready_rule-rule_for = refl

pub ready-IsSplit : IsSplit (pos 10_000) ready_rule.rule (split_spec 10_000 5000 5000)
unfolding calculate_split clamp_fee_legs calculate_fee_ceil
ready-IsSplit l = refl

fee_rule-IsBounded : IsBounded (fee_rule 250 50)
fee_rule-IsBounded = record {
  platform_min = ground arith;
  platform_max = ground arith;
  network_min = ground arith;
  network_max = ground arith;
  sum_max = ground arith;
  delay_max = ground arith;
}

fee_rule-WithinCeiling : WithinCeiling host ready_store.governance (fee_rule 250 50)
unfolding WithinCeiling classify_governance_fee_config
fee_rule-WithinCeiling = (ground arith, ground arith)

pub runs : Returns (
    run_operation host 99 op
      (record scheduled { store = consumed (host.sha256 (host.to_xdr op)) scheduled.store }))
unfolding run_operation run_register_merchant refuse_admin read_admins add_merchant
runs = tt

split_run :
    calculate_split (pos 10_001) (fee_rule 250 50) ready ≡ ok (split_spec 10_001 250 50, ready)
unfolding calculate_split clamp_fee_legs calculate_fee_ceil
split_run = refl

pays : returns (store_payment_reference host 5 42 (pos 10_000) ready) ≡ true
unfolding store_payment_reference record_payment is_merchant_registered_and_bump_ttl
    read_min_payment_amount read_rule_or_default read_rule_or_default_no_bump
    read_effective_rule_no_bump read_effective_fallback_rule read_governance_fee_rule
    governance_bypass_enabled try_read_governance_fee_config classify_governance_fee_config get
    calculate_split clamp_fee_legs calculate_fee_ceil increment_payment_count
pays = refl

executes : returns (execute host 99 op scheduled) ≡ true
unfolding execute validate_scheduled_execution consume_scheduled_operation
    decrement_pending_operation_count run_operation run_register_merchant refuse_admin read_admins
    add_merchant get
executes = refl

schedules : returns (schedule host (1 ∷ []) op 700_000 ready) ≡ true
unfolding schedule assert_admin_and_not_paused verify_admins verify_admin_auth read_admins
    read_threshold verify_quorum verify_signers assert_governance_reachable read_governance
    invoke_governance_get_fee_config get increment_pending_operation_count
schedules = refl
