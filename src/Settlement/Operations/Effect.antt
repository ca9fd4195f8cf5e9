-- ===== src/Settlement/Operations/Effect.antt =====
-- What the arms of `execute` check and write. The conditions and the written storage are those of
-- the direct entry points (Rules/Effect.antt, Merchant/Effect.antt), without an approval.
use betta_pay_contract.Base.{◌≡◌, arith}
use betta_pay_contract.Base.Ledger.{ok, Ensures, bind-Ensures, pass-Ensures, require}
use betta_pay_contract.Common.Rule.{SettlementRule}
use betta_pay_contract.Common.Env.{Address}
use betta_pay_contract.Settlement.Types.{merchant_missing, zero_address}
use betta_pay_contract.Settlement.State.{State, Host}
use betta_pay_contract.Settlement.Storage.{
  assert_not_paused, is_merchant_registered_and_bump_ttl, validate_nonzero_address,
}
use betta_pay_contract.Settlement.Fees.{validate_fee_against_governance}
use betta_pay_contract.Settlement.Fees.Frame.{validate_fee_sound, read_rule-OnlyCached}
use betta_pay_contract.Settlement.Rules.{write_default, validate_rule_bounds}
use betta_pay_contract.Settlement.Rules.Effect.{
  IsBounded, RuleSet, DefaultSet, RuleCleared, write_rule_effect,
}
use betta_pay_contract.Settlement.Merchant.{refuse_admin}
use betta_pay_contract.Settlement.Merchant.Effect.{
  Registered, Unregistered, refuse_admin_sound, add_merchant_effect, remove_merchant_effect,
}
use betta_pay_contract.Settlement.Operations.{
  check_rule_bounds, run_set_settlement_rule, run_set_default_rule, run_clear_settlement_rule,
  run_register_merchant, run_unregister_merchant,
}

pub check_rule_bounds_sound :
    (r : SettlementRule) (l : State)
    → Ensures (check_rule_bounds r l) (λ _ l'. IsBounded r × (l' ≡ l))
unfolding check_rule_bounds
check_rule_bounds_sound r l = ground arith

pub check_rule_bounds_complete :
    (r : SettlementRule) (l : State) → IsBounded r → check_rule_bounds r l ≡ ok (tt, l)
unfolding check_rule_bounds
check_rule_bounds_complete r l b = ground arith

-- The bounds of the timelocked setters are those of the direct ones: for every rule and state,
-- both checks return or panic alike, although the timelocked one adds the fees without a check for
-- overflow.
pub check_rule_bounds-eq :
    (r : SettlementRule) (l : State) → check_rule_bounds r l ≡ validate_rule_bounds r l
unfolding check_rule_bounds validate_rule_bounds
check_rule_bounds-eq r l = ground arith

module _ (h : Host) (executor : Address) where
  pub run_set_settlement_rule_effect :
      (m : Address) (r : SettlementRule) (l : State)
      → Ensures (run_set_settlement_rule h executor m r l) (λ _ l'. RuleSet h l.store l'.store m r)
  unfolding run_set_settlement_rule is_merchant_registered_and_bump_ttl
  run_set_settlement_rule_effect m r l = pass-Ensures _ assert_not_paused _ l λ _ l1 e1.
      bind-Ensures _ (validate_fee_against_governance h r) _ l1 (validate_fee_sound h r l1)
        λ _ l2 within. pass-Ensures _ (is_merchant_registered_and_bump_ttl m) _ l2 λ found l3 e3.
          pass-Ensures _ (require found merchant_missing) _ l3 λ _ l4 e4.
            bind-Ensures _ (check_rule_bounds r) _ l4 (check_rule_bounds_sound r l4)
              λ _ l5 bounded. ground (arith, write_rule_effect h executor m r l5)

  pub run_set_default_rule_effect :
      (r : SettlementRule) (l : State)
      → Ensures (run_set_default_rule h executor r l) (λ _ l'. DefaultSet h l.store l'.store r)
  unfolding run_set_default_rule write_default
  run_set_default_rule_effect r l = pass-Ensures _ assert_not_paused _ l λ _ l1 e1.
      bind-Ensures _ (validate_fee_against_governance h r) _ l1 (validate_fee_sound h r l1)
        λ _ l2 within. ground (arith, check_rule_bounds_sound r l2)

  pub run_clear_settlement_rule_effect :
      (m : Address) (l : State)
      → Ensures (run_clear_settlement_rule h executor m l) (λ _ l'. RuleCleared l.store l'.store m)
  unfolding run_clear_settlement_rule
  run_clear_settlement_rule_effect m l = grind (arith, read_rule-OnlyCached h)

  pub run_register_merchant_effect :
      (m : Address) (l : State)
      → Ensures (run_register_merchant h executor m l) (λ _ l'. Registered l.store l'.store m)
  unfolding run_register_merchant
  run_register_merchant_effect m l = pass-Ensures _ assert_not_paused _ l λ _ l1 e1.
      pass-Ensures _ (validate_nonzero_address m zero_address) _ l1 λ _ l2 e2.
        bind-Ensures _ (refuse_admin m) _ l2 (refuse_admin_sound m l2)
          λ _ l3 free. ground (arith, add_merchant_effect m l3)

  pub run_unregister_merchant_effect :
      (m : Address) (l : State)
      → Ensures (run_unregister_merchant h executor m l) (λ _ l'. Unregistered l.store l'.store m)
  unfolding run_unregister_merchant
  run_unregister_merchant_effect m l = ground (arith, remove_merchant_effect h m executor l)
