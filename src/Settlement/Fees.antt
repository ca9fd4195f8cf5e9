-- ===== src/Settlement/Fees.antt =====
-- settlement_contract/src/storage.rs: the calls of the governance contract, the effective rule of a
-- merchant, and the ceiling that governance puts on fees.
pub mod Frame
pub mod Precedence
use text.Mathlib.Text.{◌==◌ as str_eq}
use betta_pay_contract.Base.{
  ℕ, ◌==◌, ltb, ◌||◌, not, Bool, true, false, Option, none, some, List, [], ◌∷◌, unwrap_or, is_some,
  if◌then◌else◌,
}
use betta_pay_contract.Base.Int.{ℤ, pos}
use betta_pay_contract.Base.Lists.{length}
use betta_pay_contract.Base.Ledger.{
  Result, ok, panic, Call, pure, ◌>>=◌, ◌>>◌, refuse, fail, when, stored, write, publish,
  extend_ttl,
}
use betta_pay_contract.Common.Rule.{SettlementRule}
use betta_pay_contract.Common.Env.{Address, Symbol, Invoked, returned, failed}
use betta_pay_contract.Settlement.Types.{
  EffectiveRule, GovFeeConfig, RuleProvenance, DataKey, SettlementError, governance_call_failed,
  fee_exceeds_governance_config, invalid_settlement_delay, max_settlement_delay_ledger,
  min_payment_amount, bootstrap_default_rule, ttl_threshold, ttl_bump,
}
use betta_pay_contract.Settlement.State.{
  Store, State, Event, Act, Host, Field, u32_value, other_value, Val, map_value, other_kind,
}
use betta_pay_contract.Settlement.Storage.{read_governance}

abbrev pub bypass_gov_fees_param : Symbol
bypass_gov_fees_param = "bypass_gov_fees"

-- `Map::get`
abbrev pub map_get : List (Symbol × Field) → Symbol → Option Field
map_get [] key = none
map_get ((k, v) ∷ fields) key = if str_eq k key then some v else map_get fields key

-- The outcome of `classify_governance_fee_config`, a `Result<Option<GovFeeConfig>, _>`.
pub data Classified : Type 0 where
  config : GovFeeConfig → Classified
  no_config : Classified
  malformed : SettlementError → Classified

abbrev classify_network : ℕ → Option Field → Classified
classify_network platform (some (u32_value network)) =
    config (record { platform_fee_bps = platform; network_fee_bps = network })
classify_network platform (some other_value) = malformed governance_call_failed
classify_network platform none = malformed governance_call_failed

abbrev classify_platform : Option Field → Option Field → Classified
classify_platform (some (u32_value platform)) network = classify_network platform network
classify_platform (some other_value) network = malformed governance_call_failed
classify_platform none network = malformed governance_call_failed

unfoldable pub classify_governance_fee_config : Val → Classified
classify_governance_fee_config other_kind = no_config
classify_governance_fee_config (map_value fields) =
    if not (length fields == 2)
    then malformed governance_call_failed
    else classify_platform (map_get fields "platform_fee_bps") (map_get fields "network_fee_bps")

abbrev classified : Classified → Act (Option GovFeeConfig)
classified (config c) = pure (some c)
classified no_config = pure none
classified (malformed e) = fail e

unfoldable pub try_read_governance_fee_config : Val → Act (Option GovFeeConfig)
try_read_governance_fee_config raw_val = classified (classify_governance_fee_config raw_val)

abbrev answered_one : Invoked (Option ℤ) → Bool
answered_one (returned (some (pos n))) = n == 1
answered_one (returned (some (ℤ.negsuc _))) = false
answered_one (returned none) = false
answered_one failed = false

abbrev answered_amount : Invoked (Option ℤ) → ℤ
answered_amount (returned (some min)) = min
answered_amount (returned none) = min_payment_amount
answered_amount failed = min_payment_amount

abbrev answered_or_fail : Invoked Val → Act Val
answered_or_fail (returned v) = pure v
answered_or_fail failed = fail governance_call_failed

abbrev rule_of_config : GovFeeConfig → SettlementRule
rule_of_config c = record {
  platform_fee_bps = c.platform_fee_bps;
  network_fee_bps = c.network_fee_bps;
  settlement_delay_ledger = 0;
  auto_settle = false;
}

-- `read_cached_governance_fee_rule`
unfoldable pub read_cached_governance_fee_rule : Act (Option SettlementRule)
read_cached_governance_fee_rule = do store ← stored; pure (unwrap_or store.cached_gov_rule none)

-- The rule of a config is checked and cached.
abbrev cache_rule : Option GovFeeConfig → Act (Option SettlementRule)
cache_rule none = pure none
cache_rule (some c) = do
  let rule = rule_of_config c
  refuse (ltb max_settlement_delay_ledger rule.settlement_delay_ledger) invalid_settlement_delay
  write λ store. record store { cached_gov_rule = some (some rule) }
  pure (some rule)

abbrev fee_rule_of_answer : Invoked Val → Act (Option SettlementRule)
fee_rule_of_answer (returned raw_val) = do
  fee_config ← try_read_governance_fee_config raw_val
  cache_rule fee_config
fee_rule_of_answer failed = read_cached_governance_fee_rule

abbrev effective : RuleProvenance → SettlementRule → EffectiveRule
effective p r = record { rule = r; provenance = p }

abbrev governance_or_bootstrap : Option SettlementRule → Act EffectiveRule
governance_or_bootstrap (some rule) = pure (effective RuleProvenance.governance rule)
governance_or_bootstrap none = pure (effective RuleProvenance.bootstrap bootstrap_default_rule)

abbrev exceeds : SettlementRule → GovFeeConfig → Bool
exceeds rule c =
    ltb c.platform_fee_bps rule.platform_fee_bps || ltb c.network_fee_bps rule.network_fee_bps

abbrev check_ceiling : SettlementRule → Option GovFeeConfig → Act (Unit {0})
check_ceiling rule none = pure tt
check_ceiling rule (some c) = when (exceeds rule c) (do
  publish (Event.fee_ceiling_rejected rule.platform_fee_bps rule.network_fee_bps)
  fail fee_exceeds_governance_config)

module _ (h : Host) where
  unfoldable pub governance_bypass_enabled : Address → Bool
  governance_bypass_enabled governance =
      answered_one (h.get_system_param governance bypass_gov_fees_param)

  abbrev fee_rule_from : Option Address → Act (Option SettlementRule)
  fee_rule_from none = pure none
  fee_rule_from (some governance) =
      if governance_bypass_enabled governance
      then pure none
      else fee_rule_of_answer (h.get_fee_config governance)

  unfoldable pub read_governance_fee_rule : Act (Option SettlementRule)
  read_governance_fee_rule = do store ← stored; fee_rule_from store.governance

  abbrev default_or_governance : Option SettlementRule → Act EffectiveRule
  default_or_governance (some rule) = pure (effective RuleProvenance.default rule)
  default_or_governance none = do rule ← read_governance_fee_rule; governance_or_bootstrap rule

  unfoldable pub read_effective_fallback_rule : Act EffectiveRule
  read_effective_fallback_rule = do store ← stored; default_or_governance store.default_rule

  unfoldable pub read_fallback_rule : Act SettlementRule
  read_fallback_rule = do e ← read_effective_fallback_rule; pure e.rule

  abbrev merchant_or_fallback : Option SettlementRule → Act EffectiveRule
  merchant_or_fallback (some rule) = pure (effective RuleProvenance.merchant rule)
  merchant_or_fallback none = read_effective_fallback_rule

  unfoldable pub read_effective_rule_no_bump : Address → Act EffectiveRule
  read_effective_rule_no_bump merchant = do
    store ← stored
    merchant_or_fallback (store.rules merchant)

  unfoldable pub read_rule_or_default_no_bump : Address → Act SettlementRule
  read_rule_or_default_no_bump merchant = do e ← read_effective_rule_no_bump merchant; pure e.rule

  unfoldable pub read_rule_or_default : Address → Act SettlementRule
  read_rule_or_default merchant = do
    store ← stored
    when (is_some (store.rules merchant))
        (extend_ttl (DataKey.rule merchant) ttl_threshold ttl_bump)
    read_rule_or_default_no_bump merchant

  abbrev pub min_amount_from : Option Address → ℤ
  min_amount_from none = min_payment_amount
  min_amount_from (some governance) = answered_amount (h.get_system_param governance "min_payment")

  unfoldable pub read_min_payment_amount : Act ℤ
  read_min_payment_amount = do store ← stored; pure (min_amount_from store.governance)

  unfoldable pub invoke_governance_get_fee_config : Address → Act Val
  invoke_governance_get_fee_config governance = answered_or_fail (h.get_fee_config governance)

  unfoldable pub assert_governance_reachable : Act (Unit {0})
  assert_governance_reachable = do
    governance ← read_governance
    _ ← invoke_governance_get_fee_config governance
    pure tt

  unfoldable pub validate_fee_against_governance : SettlementRule → Act (Unit {0})
  validate_fee_against_governance rule = do
    governance ← read_governance
    raw_val ← invoke_governance_get_fee_config governance
    fee_config ← try_read_governance_fee_config raw_val
    check_ceiling rule fee_config
