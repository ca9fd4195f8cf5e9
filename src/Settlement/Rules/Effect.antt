-- ===== src/Settlement/Rules/Effect.antt =====
-- What the entry points on rules check and write.
use betta_pay_contract.Base.{◌+◌, ◌≤◌, ◌≡◌, true, false, none, some, List, arith, is_some}
use betta_pay_contract.Base.Ledger.{ok, Ensures, bind-Ensures, pass-Ensures, first, require, ◌>>◌}
use betta_pay_contract.Common.Rule.{SettlementRule}
use betta_pay_contract.Common.Env.{Address}
use betta_pay_contract.Settlement.Types.{zero_address, merchant_missing}
use betta_pay_contract.Settlement.State.{Store, State, Host}
use betta_pay_contract.Settlement.Storage.{
  assert_admin_and_not_paused, is_paused, validate_nonzero_address,
  is_merchant_registered_and_bump_ttl,
}
use betta_pay_contract.Settlement.Storage.Access.{IsApproved, Unchanged, assert_admin_sound}
use betta_pay_contract.Settlement.Fees.{validate_fee_against_governance}
use betta_pay_contract.Settlement.Fees.Frame.{
  WithinCeiling, validate_fee_sound, read_rule-OnlyCached, read_fallback_rule-OnlyCached,
}
use betta_pay_contract.Settlement.Rules.{
  validate_rule_bounds, with_rule, write_rule, write_default, set_settlement_rule,
  clear_settlement_rule, set_default_rule,
}

-- The bounds on a stored rule: each fee from 5 to 5,000 basis points, together at most 10,000, and
-- a delay of at most 100,000 ledgers.
pub record IsBounded (r : SettlementRule) : Type 0 where
  pub platform_min : 5 ≤ r.platform_fee_bps
  pub platform_max : r.platform_fee_bps ≤ 5000
  pub network_min : 5 ≤ r.network_fee_bps
  pub network_max : r.network_fee_bps ≤ 5000
  pub sum_max : r.platform_fee_bps + r.network_fee_bps ≤ 10000
  pub delay_max : r.settlement_delay_ledger ≤ 100000

pub validate_rule_bounds_sound :
    (r : SettlementRule) (l : State)
    → Ensures (validate_rule_bounds r l) (λ _ l'. IsBounded r × (l' ≡ l))
unfolding validate_rule_bounds
validate_rule_bounds_sound r l = ground arith

pub validate_rule_bounds_complete :
    (r : SettlementRule) (l : State) → IsBounded r → validate_rule_bounds r l ≡ ok (tt, l)
unfolding validate_rule_bounds
validate_rule_bounds_complete r l b = ground arith

pub registered_sound :
    (m : Address) (l : State)
    → Ensures
        (is_merchant_registered_and_bump_ttl m l)
        (λ r l'. (r ≡ l.store.merchants m) × Unchanged l l')
unfolding is_merchant_registered_and_bump_ttl
registered_sound m l = ground arith

-- What a setter of a merchant's rule has checked, and the storage that it leaves.
pub record RuleSet (h : Host) (s s' : Store) (m : Address) (r : SettlementRule) : Type 0 where
  pub unpaused : is_paused s ≡ false
  pub registered : s.merchants m ≡ true
  pub bounded : IsBounded r
  pub within : WithinCeiling h s.governance r
  pub written : s' ≡ record (with_rule m (some r) s) { cached_gov_rule = s'.cached_gov_rule }

pub record DefaultSet (h : Host) (s s' : Store) (r : SettlementRule) : Type 0 where
  pub unpaused : is_paused s ≡ false
  pub bounded : IsBounded r
  pub within : WithinCeiling h s.governance r
  pub written : s' ≡ record s { default_rule = some r }

pub record RuleCleared (s s' : Store) (m : Address) : Type 0 where
  pub unpaused : is_paused s ≡ false
  pub present : is_some (s.rules m) ≡ true
  pub written : s' ≡ record (with_rule m none s) { cached_gov_rule = s'.cached_gov_rule }

pub write_rule_effect :
    (h : Host) (actor m : Address) (r : SettlementRule) (l : State)
    → Ensures (write_rule h actor m r l) (λ _ l'.
      l'.store
      ≡ record (with_rule m (some r) (l.store)) { cached_gov_rule = l'.store.cached_gov_rule })
unfolding write_rule
write_rule_effect h actor m r l = ground (arith, read_rule-OnlyCached h m l)

checked_write_effect :
    (h : Host) (actor m : Address) (r : SettlementRule) (l : State)
    → Ensures
        ((validate_rule_bounds r >> (validate_fee_against_governance h r >> write_rule h actor m r))
          l)
        (λ _ l'.
          IsBounded r
          × WithinCeiling h l.store.governance r
          × (l'.store ≡ record (with_rule m (some r) (l.store)) {
            cached_gov_rule = l'.store.cached_gov_rule;
          }))
checked_write_effect h actor m r l =
    bind-Ensures _ (validate_rule_bounds r) _ l (validate_rule_bounds_sound r l)
      λ _ l1 bounded. grind (arith, validate_fee_sound h, write_rule_effect h)

module _ (h : Host) (signers : List Address) where
  -- A `set_settlement_rule` that returns was approved by a quorum of the stored admins while the
  -- contract was not paused, for a registered merchant and a rule within the bounds and, if
  -- governance answers with a configuration, within this. It stores the rule for the merchant, and
  -- nothing else in the storage changes but the cached governance rule.
  pub set_settlement_rule_effect :
      (m : Address) (r : SettlementRule) (l : State)
      → Ensures
          (set_settlement_rule h signers m r l)
          (λ _ l'. IsApproved h l.store signers × RuleSet h l.store l'.store m r)
  unfolding set_settlement_rule is_merchant_registered_and_bump_ttl
  set_settlement_rule_effect m r l =
      bind-Ensures _ (assert_admin_and_not_paused h signers) _ l (assert_admin_sound h signers l)
        λ _ l1 approved. pass-Ensures _ (first signers) _ l1 λ actor l2 e2.
          pass-Ensures _ (validate_nonzero_address m zero_address) _ l2 λ _ l3 e3.
            pass-Ensures _ (is_merchant_registered_and_bump_ttl m) _ l3 λ registered l4 e4.
              pass-Ensures _ (require registered merchant_missing) _ l4
                λ _ l5 e5. ground (arith, checked_write_effect h actor m r l5)

  pub clear_settlement_rule_effect :
      (m : Address) (l : State)
      → Ensures
          (clear_settlement_rule h signers m l)
          (λ _ l'. IsApproved h l.store signers × RuleCleared l.store l'.store m)
  unfolding clear_settlement_rule
  clear_settlement_rule_effect m l =
      grind (arith, assert_admin_sound h signers, read_fallback_rule-OnlyCached h)

  -- A `set_default_rule` that returns was approved by a quorum of the stored admins while the
  -- contract was not paused, for a rule within the bounds and, if governance answers with a
  -- configuration, within this. It stores the default rule, and nothing else in the storage
  -- changes.
  pub set_default_rule_effect :
      (r : SettlementRule) (l : State)
      → Ensures
          (set_default_rule h signers r l)
          (λ _ l'. IsApproved h l.store signers × DefaultSet h l.store l'.store r)
  unfolding set_default_rule write_default
  set_default_rule_effect r l =
      grind (arith, assert_admin_sound h signers, validate_rule_bounds_sound, validate_fee_sound h)
