-- ===== src/Settlement/Fees/Frame.antt =====
-- What the governance calls of Settlement/Fees.antt leave as it is: a check writes nothing, and a
-- rule that is read changes the cached governance rule at most.
use betta_pay_contract.Base.{◌≤◌, ◌≡◌, Option, none, some, arith}
use betta_pay_contract.Base.Ledger.{Ensures, Returns}
use betta_pay_contract.Common.Rule.{SettlementRule}
use betta_pay_contract.Common.Env.{Address, Invoked, returned, failed}
use betta_pay_contract.Settlement.State.{State, Host, Val}
use betta_pay_contract.Settlement.Storage.{read_governance}
use betta_pay_contract.Settlement.Storage.Access.{Unchanged}
use betta_pay_contract.Settlement.Fees.{
  Classified, config, no_config, malformed, classify_governance_fee_config,
  try_read_governance_fee_config, read_cached_governance_fee_rule, read_governance_fee_rule,
  read_effective_fallback_rule, read_fallback_rule, read_effective_rule_no_bump,
  read_rule_or_default_no_bump, read_rule_or_default, invoke_governance_get_fee_config,
  validate_fee_against_governance,
}

-- The storage with another cached governance rule, and the same events.
abbrev pub OnlyCached : State → State → Type 0
OnlyCached l l' =
    (l'.store ≡ record (l.store) { cached_gov_rule = l'.store.cached_gov_rule })
    × (l'.events ≡ l.events)

-- The rule is within the configuration that governance answers with, if it is one.
abbrev WithinClassified : Classified → SettlementRule → Type 0
WithinClassified (config c) rule =
    (rule.platform_fee_bps ≤ c.platform_fee_bps) × (rule.network_fee_bps ≤ c.network_fee_bps)
WithinClassified no_config rule = Unit
WithinClassified (malformed _) rule = ⊥

abbrev WithinAnswer : Invoked Val → SettlementRule → Type 0
WithinAnswer (returned v) rule = WithinClassified (classify_governance_fee_config v) rule
WithinAnswer failed rule = ⊥

unfoldable pub WithinCeiling : Host → Option Address → SettlementRule → Type 0
WithinCeiling h (some governance) rule = WithinAnswer (h.get_fee_config governance) rule
WithinCeiling h none rule = ⊥

module _ (h : Host) where
  -- The check passes only within the ceiling that governance answers with, and writes nothing.
  pub validate_fee_sound :
      (rule : SettlementRule) (l : State)
      → Ensures
          (validate_fee_against_governance h rule l)
          (λ _ l'. WithinCeiling h l.store.governance rule × Unchanged l l')
  unfolding WithinCeiling validate_fee_against_governance read_governance
      invoke_governance_get_fee_config try_read_governance_fee_config
  validate_fee_sound rule l = ground arith

  -- A rule within the ceiling passes.
  pub validate_fee_complete :
      (rule : SettlementRule) (l : State)
      → WithinCeiling h l.store.governance rule
      → Returns (validate_fee_against_governance h rule l)
  unfolding WithinCeiling validate_fee_against_governance read_governance
      invoke_governance_get_fee_config try_read_governance_fee_config
  validate_fee_complete rule l w = ground arith

  pub read_governance_fee_rule-OnlyCached :
      (l : State) → Ensures (read_governance_fee_rule h l) (λ _ l'. OnlyCached l l')
  unfolding read_governance_fee_rule read_cached_governance_fee_rule try_read_governance_fee_config
  read_governance_fee_rule-OnlyCached l = ground arith

  pub read_effective_fallback_rule-OnlyCached :
      (l : State) → Ensures (read_effective_fallback_rule h l) (λ _ l'. OnlyCached l l')
  unfolding read_effective_fallback_rule
  read_effective_fallback_rule-OnlyCached l = ground (arith, read_governance_fee_rule-OnlyCached l)

  pub read_fallback_rule-OnlyCached :
      (l : State) → Ensures (read_fallback_rule h l) (λ _ l'. OnlyCached l l')
  unfolding read_fallback_rule
  read_fallback_rule-OnlyCached l = ground (arith, read_effective_fallback_rule-OnlyCached l)

  pub read_rule_no_bump-OnlyCached :
      (m : Address) (l : State)
      → Ensures (read_rule_or_default_no_bump h m l) (λ _ l'. OnlyCached l l')
  unfolding read_rule_or_default_no_bump read_effective_rule_no_bump
  read_rule_no_bump-OnlyCached m l = ground (arith, read_effective_fallback_rule-OnlyCached l)

  pub read_rule-OnlyCached :
      (m : Address) (l : State) → Ensures (read_rule_or_default h m l) (λ _ l'. OnlyCached l l')
  unfolding read_rule_or_default
  read_rule-OnlyCached m l = grind (arith, read_rule_no_bump-OnlyCached)
