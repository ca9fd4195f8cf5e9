-- ===== src/Settlement/Governed.antt =====
-- The two contracts together: settlement_contract/src/storage.rs and payments.rs, with the
-- governance
-- address answered from the storage of governance_contract/src/lib.rs.
use mathlib.Core.Path.{subst}
use betta_pay_contract.Base.{ℕ, ◌+◌, ◌≤◌, ◌<◌, ◌≡◌, refl, Option, none, some, [], ◌∷◌, arith}
use betta_pay_contract.Base.Int.{pos, i128_bound}
use betta_pay_contract.Base.Ledger.{Ensures, weaken-Ensures}
use betta_pay_contract.Common.Rule.{SettlementRule}
use betta_pay_contract.Common.Env.{Address, Reference, Invoked, returned}
use betta_pay_contract.Settlement.Types.{FeeSplit, EffectiveRule}
use betta_pay_contract.Settlement.State.{Store, State, Host, Val, u32_value, map_value, other_kind}
use betta_pay_contract.Settlement.Fees.{
  classify_governance_fee_config, validate_fee_against_governance,
}
use betta_pay_contract.Settlement.Fees.Frame.{WithinCeiling, validate_fee_sound}
use betta_pay_contract.Settlement.Fees.Precedence.{rule_spec, rule_for, OfRule}
use betta_pay_contract.Settlement.Split.Conservation.{Fair, calculate_split-Fair}
use betta_pay_contract.Settlement.Payments.{store_payment_reference}
use betta_pay_contract.Settlement.Payments.Effect.{
  Recorded, Written, store_payment_reference-Recorded,
}
use betta_pay_contract.Settlement.Invariant.{IsValid, RuleValid}
use betta_pay_contract.Governance.State.{FeeConfig}
use betta_pay_contract.Governance.State as Governance
use betta_pay_contract.Governance.Contract.Effect.{IsBounded}

-- How the stored configuration arrives: a struct is a map by the names of its fields, and nothing
-- is
-- no map.
abbrev pub answer_of : Option FeeConfig → Invoked Val
answer_of none = returned other_kind
answer_of (some c) = returned (
    map_value (
      ("network_fee_bps", u32_value c.network_fee_bps)
      ∷ ("platform_fee_bps", u32_value c.platform_fee_bps)
      ∷ []))

-- The governance address of the settlement storage is answered from the governance storage.
pub record Linked (h : Host) (s : Store) (g : Governance.Store) : Type 0 where
  pub address : Address
  pub known : s.governance ≡ some address
  pub answered : h.get_fee_config address ≡ answer_of g.fee_config

-- A configured ceiling.
abbrev pub Capped : Option FeeConfig → SettlementRule → Type 0
Capped none rule = Unit
Capped (some c) rule =
    (rule.platform_fee_bps ≤ c.platform_fee_bps) × (rule.network_fee_bps ≤ c.network_fee_bps)

abbrev pub ConfigBounded : Option FeeConfig → Type 0
ConfigBounded none = Unit
ConfigBounded (some c) = IsBounded c

abbrev RatesFit : SettlementRule → Type 0
RatesFit r = r.platform_fee_bps + r.network_fee_bps ≤ 10000

within-Capped :
    (h : Host) (address : Address) (o : Option FeeConfig) (rule : SettlementRule)
    → h.get_fee_config address ≡ answer_of o
    → WithinCeiling h (some address) rule
    → Capped o rule
unfolding WithinCeiling classify_governance_fee_config
within-Capped h address none rule e w = tt
within-Capped h address (some c) rule e w = ground (arith, e, w)

-- The rates of the rule that applies are together at most 100 %.
rates_fit :
    (h : Host) (rule default : Option SettlementRule) (address : Address)
    (cached : Option (Option SettlementRule)) (o : Option FeeConfig) (e : EffectiveRule)
    → RuleValid rule
    → RuleValid default
    → h.get_fee_config address ≡ answer_of o
    → ConfigBounded o
    → rule_spec h rule default (some address) cached ≡ some e
    → RatesFit e.rule
unfolding rule_spec classify_governance_fee_config
rates_fit h (some r) default address cached o e v w a b found = ground arith
rates_fit h none (some r) address cached o e v w a b found = ground arith
rates_fit h none none address cached none e v w a b found = ground arith
rates_fit h none none address cached (some c) e v w a b found = ground arith

module _ (h : Host) (g : Governance.Store) where
  -- With the governance address answered from a governance storage, a rule that passes
  -- `validate_fee_against_governance` has both fees at most those of the configuration stored
  -- there, if there is one.
  pub validate_fee-Capped :
      (rule : SettlementRule) (l : State)
      → Linked h l.store g
      → Ensures (validate_fee_against_governance h rule l) (λ _ _. Capped g.fee_config rule)
  validate_fee-Capped rule l link =
      weaken-Ensures _ (validate_fee_against_governance h rule l) (validate_fee_sound h rule l)
        λ _ l' e.
          within-Capped h link.address g.fee_config rule link.answered
            (subst (λ a. WithinCeiling h a rule) link.known e.0)

  rule_for-RatesFit :
      (s : Store) (m : Address)
      → IsValid s
      → Linked h s g
      → ConfigBounded g.fee_config
      → (e : EffectiveRule) → rule_for h s m ≡ some e
      → RatesFit e.rule
  rule_for-RatesFit s m v link c e found =
      rates_fit h (s.rules m) s.default_rule link.address s.cached_gov_rule g.fee_config e
        (v.rules m) v.default link.answered c
        (subst (λ a. rule_spec h (s.rules m) s.default_rule a s.cached_gov_rule ≡ some e) link.known
          found)

  -- From a valid settlement storage, with the governance address answered from a governance
  -- storage whose configuration is within its bounds: every split that `store_payment_reference`
  -- returns for an amount of zero or more in the range of `i128` is fair at the rates of the rule
  -- that applies. No part is negative, the parts add up to the amount, and each fee is its exact
  -- share rounded up, the network's cut to what the platform leaves.
  pub store_payment-Fair :
      (m : Address) (r : Reference) (amount : ℕ) (l : State)
      → IsValid l.store
      → Linked h l.store g
      → ConfigBounded g.fee_config
      → amount < i128_bound
      → Ensures (store_payment_reference h m r (pos amount) l) (λ split _.
        OfRule
          (λ rule. Fair amount rule.platform_fee_bps rule.network_fee_bps split)
          (rule_for h l.store m))
  unfolding Recorded
  store_payment-Fair m r amount l v link c fits =
      weaken-Ensures _ (store_payment_reference h m r (pos amount) l)
        (store_payment_reference-Recorded h m r (pos amount) l)
        λ split l' e.
          fair split l' (rule_for h l.store m) (rule_for-RatesFit l.store m v link c)
            (recorded split l' e.1)
    where
      recorded :
          (split : FeeSplit) (l' : State)
          → Recorded h l.store l'.store m r (pos amount) split
          → OfRule (Written h l.store l'.store m r (pos amount) split) (rule_for h l.store m)
      recorded split l' e = e

      fair :
          (split : FeeSplit) (l' : State) (o : Option EffectiveRule)
          → ((e : EffectiveRule) → o ≡ some e → RatesFit e.rule)
          → OfRule (Written h l.store l'.store m r (pos amount) split) o
          → OfRule (λ rule. Fair amount rule.platform_fee_bps rule.network_fee_bps split) o
      fair split l' (some e) fit w =
          ground
            (arith, w.shared l, fit e refl, calculate_split-Fair amount e.rule l fits (fit e refl))
      fair split l' none fit w = w
