-- ===== src/Settlement/Fees/Precedence.antt =====
-- Which rule applies to a merchant: a description on the stored rules and the governance's answers,
-- and that Settlement/Fees.antt reads this rule.
use text.Mathlib.Text.{◌==◌ as str_eq}
use text.Mathlib.TextEquality.{eq_iff}
use betta_pay_contract.Base.{
  ◌==◌, ◌&&◌, ◌≡◌, refl, Bool, false, Option, none, some, List, [], ◌∷◌, arith, if◌then◌else◌,
  unwrap_or,
}
use betta_pay_contract.Base.Int.{ℤ, pos}
use betta_pay_contract.Base.Ledger.{Result, ok, panic, trap, Ensures}
use betta_pay_contract.Common.Rule.{SettlementRule}
use betta_pay_contract.Common.Env.{Address, Symbol, Invoked, returned, failed}
use betta_pay_contract.Settlement.Types.{
  EffectiveRule, RuleProvenance, GovFeeConfig, SettlementError, governance_call_failed,
}
use betta_pay_contract.Settlement.State.{
  Store, State, Host, Val, map_value, other_kind, Field, u32_value,
}
use betta_pay_contract.Settlement.Fees.{
  Classified, config, no_config, malformed, classify_governance_fee_config,
  governance_bypass_enabled, read_governance_fee_rule, read_cached_governance_fee_rule,
  try_read_governance_fee_config, read_effective_fallback_rule, read_effective_rule_no_bump,
  read_rule_or_default_no_bump, read_rule_or_default,
}
use betta_pay_contract.Settlement.Fees.Frame.{OnlyCached}

abbrev bootstrapped : EffectiveRule
bootstrapped = record {
  rule = record {
    platform_fee_bps = 100;
    network_fee_bps = 5;
    settlement_delay_ledger = 0;
    auto_settle = false;
  };
  provenance = RuleProvenance.bootstrap;
}

-- The fees of a configuration, with no delay and no automatic settlement.
abbrev governance_rule : GovFeeConfig → EffectiveRule
governance_rule c = record {
  rule = record {
    platform_fee_bps = c.platform_fee_bps;
    network_fee_bps = c.network_fee_bps;
    settlement_delay_ledger = 0;
    auto_settle = false;
  };
  provenance = RuleProvenance.governance;
}

abbrev fees : Field → Field → Option GovFeeConfig
fees (u32_value platform) (u32_value network) =
    some (record { platform_fee_bps = platform; network_fee_bps = network })
fees _ _ = none

-- A well-formed configuration is a map of exactly the two fees, in either order, each a `u32`.
abbrev pub config_spec : List (Symbol × Field) → Option GovFeeConfig
config_spec ((a, v) ∷ (b, w) ∷ []) =
    if str_eq a "network_fee_bps" && str_eq b "platform_fee_bps"
    then fees w v
    else if str_eq a "platform_fee_bps" && str_eq b "network_fee_bps"
    then fees v w
    else none
config_spec _ = none

abbrev of_config : Option GovFeeConfig → Classified
of_config (some c) = config c
of_config none = malformed governance_call_failed

abbrev configured_rule : Option GovFeeConfig → Option EffectiveRule
configured_rule (some c) = some (governance_rule c)
configured_rule none = none

abbrev cached_rule : Option SettlementRule → EffectiveRule
cached_rule (some rule) = record { rule = rule; provenance = RuleProvenance.governance }
cached_rule none = bootstrapped

-- What governance's answer to `get_fee_config` makes the rule: a value that is no map is no
-- configuration, and a call that fails leaves the rule of the last good answer.
abbrev answered_rule : Invoked Val → Option (Option SettlementRule) → Option EffectiveRule
answered_rule (returned (map_value fields)) cached = configured_rule (config_spec fields)
answered_rule (returned other_kind) cached = some bootstrapped
answered_rule failed cached = some (cached_rule (unwrap_or cached none))

-- Governance answers that its fees are to be bypassed, with 1 and no other number.
abbrev is_bypassed : Invoked (Option ℤ) → Bool
is_bypassed (returned (some (pos n))) = n == 1
is_bypassed _ = false

-- The merchant's own rule, or else the default rule, or else the one that governance answers with
-- (the cached one if the call fails), or else the bootstrap rule. It is nothing where governance
-- answers with a malformed configuration. The arguments are the merchant's rule, the default, the
-- governance address and the cached rule.
unfoldable pub rule_spec :
    Host
    → Option SettlementRule
    → Option SettlementRule
    → Option Address
    → Option (Option SettlementRule)
    → Option EffectiveRule
rule_spec h (some rule) default governance cached =
    some (record { rule = rule; provenance = RuleProvenance.merchant })
rule_spec h none (some rule) governance cached =
    some (record { rule = rule; provenance = RuleProvenance.default })
rule_spec h none none none cached = some bootstrapped
rule_spec h none none (some governance) cached =
    if is_bypassed (h.get_system_param governance "bypass_gov_fees")
    then some bootstrapped
    else answered_rule (h.get_fee_config governance) cached

-- The rule of the description for what is stored.
abbrev pub rule_for : Host → Store → Address → Option EffectiveRule
rule_for h s m = rule_spec h (s.rules m) s.default_rule s.governance s.cached_gov_rule

-- Something is described, and the condition holds of its rule.
abbrev pub OfRule : (SettlementRule → Type 0) → Option EffectiveRule → Type 0
OfRule P (some e) = P e.rule
OfRule P none = ⊥

-- The outcome is the described rule, with nothing but the cached rule written, or the failure where
-- none is described.
abbrev pub Reads :
    Option EffectiveRule → State → Result SettlementError (EffectiveRule × State) → Type 0
Reads described l (ok (e, l')) = (described ≡ some e) × OnlyCached l l'
Reads described l (panic e) = (described ≡ none) × (e ≡ governance_call_failed)
Reads described l trap = ⊥

-- The code's reading of a map is the description's.
pub classify-eq :
    (fields : List (Symbol × Field))
    → classify_governance_fee_config (map_value fields) ≡ of_config (config_spec fields)
unfolding classify_governance_fee_config
classify-eq [] = refl
classify-eq (f ∷ []) = refl
classify-eq ((a, v) ∷ (b, w) ∷ []) = ground (
  arith,
  eq_iff a "platform_fee_bps",
  eq_iff a "network_fee_bps",
  eq_iff b "platform_fee_bps",
  eq_iff b "network_fee_bps",
  eq_iff "platform_fee_bps" "network_fee_bps",
)
classify-eq (f ∷ g ∷ k ∷ fields) = ground arith

classify_other : classify_governance_fee_config other_kind ≡ no_config
unfolding classify_governance_fee_config
classify_other = refl

module _ (h : Host) (m : Address) (l : State) where
  pub read_effective_rule_precedence :
      Reads (rule_for h l.store m) l (read_effective_rule_no_bump h m l)
  unfolding rule_spec read_effective_rule_no_bump read_effective_fallback_rule
      read_governance_fee_rule read_cached_governance_fee_rule try_read_governance_fee_config
      governance_bypass_enabled
  read_effective_rule_precedence = grind (arith, classify-eq, classify_other)

  pub read_effective_rule_for :
      Ensures
        (read_effective_rule_no_bump h m l)
        (λ e l'. (rule_for h l.store m ≡ some e) × OnlyCached l l')
  read_effective_rule_for = ground (arith, read_effective_rule_precedence)

  pub read_rule_no_bump_for :
      Ensures
        (read_rule_or_default_no_bump h m l)
        (λ r l'. OfRule (λ x. x ≡ r) (rule_for h l.store m) × OnlyCached l l')
  unfolding read_rule_or_default_no_bump
  read_rule_no_bump_for = ground (arith, read_effective_rule_for)

module _ (h : Host) (m : Address) where
  pub read_rule_for :
      (l : State)
      → Ensures
          (read_rule_or_default h m l)
          (λ r l'. OfRule (λ x. x ≡ r) (rule_for h l.store m) × OnlyCached l l')
  unfolding read_rule_or_default
  read_rule_for l = grind (arith, read_rule_no_bump_for h m)
