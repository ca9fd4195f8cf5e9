-- ===== src/Settlement/Rules.antt =====
-- settlement_contract/src/settlement.rs: the settlement rules.
pub mod Effect
pub mod Success
use betta_pay_contract.Base.{
  ℕ, ◌+◌, ltb, ◌||◌, ◌^◌, not, Bool, true, false, Option, none, some, List, update, unwrap_or,
  if◌then◌else◌,
}
use betta_pay_contract.Base.Ledger.{
  Result, pure, ◌>>=◌, ◌>>◌, refuse, require, get_or_fail, first, when, stored, write, publish,
  extend_ttl,
}
use betta_pay_contract.Common.Constants.{bps_denominator, min_fee_bps, max_fee_bps}
use betta_pay_contract.Common.Rule.{SettlementRule}
use betta_pay_contract.Common.Env.{Address}
use betta_pay_contract.Settlement.Types.{
  EffectiveRule, DataKey, invalid_fee_bps, invalid_settlement_delay, zero_address, merchant_missing,
  merchant_rule_not_set, max_settlement_delay_ledger, bootstrap_default_rule, ttl_threshold,
  ttl_bump,
}
use betta_pay_contract.Settlement.State.{Store, Event, Act, Host}
use betta_pay_contract.Settlement.Storage.{
  assert_admin_and_not_paused, validate_nonzero_address, is_merchant_registered_and_bump_ttl,
}
use betta_pay_contract.Settlement.Fees.{
  validate_fee_against_governance, read_rule_or_default, read_rule_or_default_no_bump,
  read_fallback_rule, read_effective_rule_no_bump,
}

-- `checked_add(..).is_none_or(|sum| sum > BPS_DENOMINATOR)` on `u32`.
abbrev pub sum_too_large : ℕ → ℕ → Bool
sum_too_large a b = not (ltb (a + b) (2 ^ 32)) || ltb bps_denominator (a + b)

unfoldable pub validate_rule_bounds : SettlementRule → Act (Unit {0})
validate_rule_bounds rule = do
  refuse (ltb bps_denominator platform || ltb bps_denominator network) invalid_fee_bps
  refuse (ltb platform min_fee_bps || ltb network min_fee_bps) invalid_fee_bps
  refuse (ltb max_fee_bps platform || ltb max_fee_bps network) invalid_fee_bps
  refuse (sum_too_large platform network) invalid_fee_bps
  refuse (ltb max_settlement_delay_ledger rule.settlement_delay_ledger) invalid_settlement_delay
  where
    open rule use {platform_fee_bps as platform, network_fee_bps as network}

-- `.unwrap_or_else(|| read_rule_or_default(..))`
abbrev pub or_effective_rule : Host → Option SettlementRule → Address → Act SettlementRule
or_effective_rule h (some rule) merchant = pure rule
or_effective_rule h none merchant = read_rule_or_default h merchant

abbrev pub with_rule : Address → Option SettlementRule → Store → Store
with_rule merchant rule store = record store { rules = update store.rules merchant rule }

unfoldable pub get_default_rule : Act (Option SettlementRule)
get_default_rule = do store ← stored; pure store.default_rule

abbrev bump_if_some : Address → Option SettlementRule → Act (Unit {0})
bump_if_some merchant (some _) = extend_ttl (DataKey.rule merchant) ttl_threshold ttl_bump
bump_if_some merchant none = pure tt

unfoldable pub get_settlement_rule : Address → Act (Option SettlementRule)
get_settlement_rule merchant = do
  store ← stored
  bump_if_some merchant (store.rules merchant)
  pure (store.rules merchant)

unfoldable pub get_settlement_rule_no_bump : Address → Act (Option SettlementRule)
get_settlement_rule_no_bump merchant = do store ← stored; pure (store.rules merchant)

-- The end of both setters of the default rule.
unfoldable pub write_default : Address → SettlementRule → Act (Unit {0})
write_default actor new_rule = do
  store ← stored
  let prev = unwrap_or store.default_rule bootstrap_default_rule
  write λ s. record s { default_rule = some new_rule }
  publish (Event.default_rule_updated actor prev new_rule)

module _ (h : Host) where
  -- The end of both setters of a merchant's rule, direct and timelocked.
  unfoldable pub write_rule : Address → Address → SettlementRule → Act (Unit {0})
  write_rule actor merchant rule = do
    store ← stored
    prev ← or_effective_rule h (store.rules merchant) merchant
    write (with_rule merchant (some rule))
    extend_ttl (DataKey.rule merchant) ttl_threshold ttl_bump
    publish (Event.settlement_rule_updated merchant actor prev rule)

  unfoldable pub set_settlement_rule : List Address → Address → SettlementRule → Act (Unit {0})
  set_settlement_rule signers merchant rule = do
    assert_admin_and_not_paused h signers
    admin ← first signers
    validate_nonzero_address merchant zero_address
    registered ← is_merchant_registered_and_bump_ttl merchant
    require registered merchant_missing
    validate_rule_bounds rule
    validate_fee_against_governance h rule
    write_rule admin merchant rule

  unfoldable pub clear_settlement_rule : List Address → Address → Act (Unit {0})
  clear_settlement_rule signers merchant = do
    assert_admin_and_not_paused h signers
    admin ← first signers
    store ← stored
    removed ← get_or_fail (store.rules merchant) merchant_rule_not_set
    write (with_rule merchant none)
    fallback ← read_fallback_rule h
    publish (Event.settlement_rule_cleared merchant admin removed fallback)

  -- The entry point repeats the checks of `validate_rule_bounds` in its own body.
  unfoldable pub set_default_rule : List Address → SettlementRule → Act (Unit {0})
  set_default_rule signers new_rule = do
    assert_admin_and_not_paused h signers
    admin ← first signers
    validate_rule_bounds new_rule
    validate_fee_against_governance h new_rule
    write_default admin new_rule

  unfoldable pub get_effective_rule : Address → Act SettlementRule
  get_effective_rule merchant = read_rule_or_default_no_bump h merchant

  unfoldable pub get_rule_provenance : Address → Act EffectiveRule
  get_rule_provenance merchant = read_effective_rule_no_bump h merchant
