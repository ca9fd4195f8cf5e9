-- ===== src/Settlement/Split/Conservation.antt =====
-- What the fee split of payments.rs promises: nothing is lost or made, and rounding is in favour of
-- the fee takers by less than a unit for each.
use native.Mathlib.Nat.{mul-add, mul-le-mul_left}
use betta_pay_contract.Base.{ℕ, ◌+◌, ◌*◌, ◌≤◌, ◌<◌, ◌≡◌, arith}
use betta_pay_contract.Base.Int.{pos, i128_bound, ◌≤ℤ◌, ◌+ℤ◌, pos_part}
use betta_pay_contract.Base.Ledger.{Ensures}
use betta_pay_contract.Common.Rule.{SettlementRule}
use betta_pay_contract.Common.Rule.Ceiling.{ceil_fee, ceil_fee-le, ceil_fee_bounds}
use betta_pay_contract.Settlement.Types.{FeeSplit}
use betta_pay_contract.Settlement.State.{State}
use betta_pay_contract.Settlement.Split.{calculate_split}
use betta_pay_contract.Settlement.Split.Spec.{split_spec, calculate_split-eq}

-- The parts of a split of the amount at the rates: none is negative, they add up to the amount, and
-- the platform's is the exact fee, rounded up. The merchant's is at most the exact rest, and less
-- than two units below it.
pub record Fair (amount p q : ℕ) (s : FeeSplit) : Type 0 where
  pub gross : s.gross_amount ≡ pos amount
  pub platform_positive : pos 0 ≤ℤ s.platform_fee_amount
  pub network_positive : pos 0 ≤ℤ s.network_fee_amount
  pub payout_positive : pos 0 ≤ℤ s.merchant_payout_amount
  pub total :
      (s.platform_fee_amount +ℤ s.network_fee_amount) +ℤ s.merchant_payout_amount ≡ s.gross_amount
  pub platform : s.platform_fee_amount ≡ pos (ceil_fee amount p)
  pub network_max : s.network_fee_amount ≤ℤ pos (ceil_fee amount q)
  pub payout_max :
      pos_part s.merchant_payout_amount * 10000 + (amount * p + amount * q) ≤ amount * 10000
  pub payout_min :
      amount * 10000 < pos_part s.merchant_payout_amount * 10000 + (amount * p + amount * q) + 20000

rates_total : (amount p q : ℕ) → p + q ≤ 10000 → amount * p + amount * q ≤ amount * 10000
rates_total amount p q h = omega (arith, mul-add amount p q, mul-le-mul_left amount h)

pub split_spec-Fair : (amount p q : ℕ) → p + q ≤ 10000 → Fair amount p q (split_spec amount p q)
split_spec-Fair amount p q h = ground (
  arith,
  rates_total amount p q h,
  ceil_fee-le amount p,
  ceil_fee_bounds amount p,
  ceil_fee_bounds amount q,
)

-- For an amount of zero or more in the range of `i128`, and rates that are together at most 10,000
-- basis points, a split that `calculate_split` returns has parts that are not negative and add up
-- to the amount; the platform's part is the exact fee rounded up, the network's at most its exact
-- fee rounded up, and the merchant's at most the exact rest and less than two units below it. The
-- state is as before.
pub calculate_split-Fair :
    (amount : ℕ) (rule : SettlementRule) (l : State)
    → amount < i128_bound
    → rule.platform_fee_bps + rule.network_fee_bps ≤ 10000
    → Ensures
        (calculate_split (pos amount) rule l)
        (λ s l'. Fair amount rule.platform_fee_bps rule.network_fee_bps s × (l' ≡ l))
calculate_split-Fair amount rule l fits rates = ground (
  arith,
  calculate_split-eq amount rule l,
  split_spec-Fair amount rule.platform_fee_bps rule.network_fee_bps rates,
)
