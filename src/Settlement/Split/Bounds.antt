-- ===== src/Settlement/Split/Bounds.antt =====
-- policy.rs, the reason for MIN_PAYMENT_AMOUNT: from 100 units on, rounding up raises the effective
-- rate of a fee by less than 100 basis points.
use betta_pay_contract.Base.{ℕ, ◌+◌, ◌*◌, ◌≤◌, ◌<◌, arith}
use betta_pay_contract.Base.Int.{pos, i128_bound, pos_part, ◌≤ℤ◌}
use betta_pay_contract.Base.Ledger.{Ensures, weaken-Ensures}
use betta_pay_contract.Common.Rule.{SettlementRule}
use betta_pay_contract.Common.Rule.Ceiling.{ceil_fee_bounds}
use betta_pay_contract.Settlement.Types.{FeeSplit, min_payment_amount}
use betta_pay_contract.Settlement.State.{State}
use betta_pay_contract.Settlement.Split.{calculate_split}
use betta_pay_contract.Settlement.Split.Conservation.{Fair, calculate_split-Fair}

-- Each fee is below what the rate plus 100 basis points gives, and the payout above what is left of
-- the amount at these rates.
pub record Inflated (amount p q : ℕ) (s : FeeSplit) : Type 0 where
  pub platform : pos_part s.platform_fee_amount * 10000 < amount * p + amount * 100
  pub network : pos_part s.network_fee_amount * 10000 < amount * q + amount * 100
  pub payout :
      amount * 10000
      < pos_part s.merchant_payout_amount * 10000 + (amount * p + amount * q) + amount * 200

Fair-Inflated :
    (amount p q : ℕ) (s : FeeSplit) → 100 ≤ amount → Fair amount p q s → Inflated amount p q s
Fair-Inflated amount p q s large f = record {
  platform = ground (arith, f.platform, ceil_fee_bounds amount p);
  network = ground (arith, f.network_max, f.network_positive, ceil_fee_bounds amount q);
  payout = omega (arith, f.payout_min);
}

-- For an amount from `MIN_PAYMENT_AMOUNT` (100 units) on in the range of `i128`, and rates that are
-- together at most 10,000 basis points, a split that `calculate_split` returns charges each fee
-- at an effective rate less than 100 basis points above the rule's, and pays the merchant more than
-- what the rates plus 200 basis points leave.
pub calculate_split-Inflated :
    (amount : ℕ) (rule : SettlementRule) (l : State)
    → min_payment_amount ≤ℤ pos amount
    → amount < i128_bound
    → rule.platform_fee_bps + rule.network_fee_bps ≤ 10000
    → Ensures
        (calculate_split (pos amount) rule l)
        (λ s _. Inflated amount rule.platform_fee_bps rule.network_fee_bps s)
calculate_split-Inflated amount rule l large fits rates =
    weaken-Ensures _ (calculate_split (pos amount) rule l)
      (calculate_split-Fair amount rule l fits rates)
      λ s _ f. Fair-Inflated amount rule.platform_fee_bps rule.network_fee_bps s (ground arith) f.0
