-- ===== src/Settlement/Rules/Success.antt =====
-- When a rule is accepted: the conditions of Effect.antt are enough.
use mathlib.Core.Path.{subst, sym}
use betta_pay_contract.Base.{◌≡◌, false, List, ◌∷◌, arith}
use betta_pay_contract.Base.Ledger.{Returns, bind-Returns, ◌>>◌}
use betta_pay_contract.Common.Rule.{SettlementRule}
use betta_pay_contract.Common.Env.{Address}
use betta_pay_contract.Settlement.State.{State, Host}
use betta_pay_contract.Settlement.Storage.{assert_admin_and_not_paused, is_paused}
use betta_pay_contract.Settlement.Storage.Access.{
  IsApproved, assert_admin_sound, assert_admin_complete,
}
use betta_pay_contract.Settlement.Fees.{validate_fee_against_governance}
use betta_pay_contract.Settlement.Fees.Frame.{WithinCeiling, validate_fee_complete}
use betta_pay_contract.Settlement.Rules.{validate_rule_bounds, write_default, set_default_rule}
use betta_pay_contract.Settlement.Rules.Effect.{IsBounded, validate_rule_bounds_complete}

module _ (h : Host) where
  checked_default-Returns :
      (actor : Address) (r : SettlementRule) (l : State)
      → IsBounded r
      → WithinCeiling h l.store.governance r
      → Returns (
          (validate_rule_bounds r >> (validate_fee_against_governance h r >> write_default actor r))
            l)
  unfolding write_default
  checked_default-Returns actor r l b w =
      ground (arith, validate_rule_bounds_complete r l b, validate_fee_complete h r l w)

  -- A `set_default_rule` by at least one signer returns whenever the signers are a quorum of the
  -- stored admins, the contract is not paused, and the rule is within the bounds and within what
  -- governance answers.
  pub set_default_rule-Returns :
      (signer : Address) (signers : List Address) (r : SettlementRule) (l : State)
      → IsApproved h l.store (signer ∷ signers)
      → is_paused l.store ≡ false
      → IsBounded r
      → WithinCeiling h l.store.governance r
      → Returns (set_default_rule h (signer ∷ signers) r l)
  unfolding set_default_rule
  set_default_rule-Returns signer signers r l q u b w =
      bind-Returns (assert_admin_and_not_paused h (signer ∷ signers)) _ l
        (assert_admin_complete h (signer ∷ signers) l q u)
        (assert_admin_sound h (signer ∷ signers) l)
        λ _ l1 approved.
          checked_default-Returns signer r l1 b
            (subst (λ s. WithinCeiling h s.governance r) (sym approved.2.0) w)
