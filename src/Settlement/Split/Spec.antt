-- ===== src/Settlement/Split/Spec.antt =====
-- The fee split of a payment in plain numbers, and that the contract computes it.
use betta_pay_contract.Base.{ℕ, ◌+◌, ◌*◌, ◌-◌, ◌^◌, ◌≤◌, ◌<◌, ◌≡◌, ltb, leb, if◌then◌else◌, arith}
use betta_pay_contract.Base.Int.{ℤ, pos, negsuc, i128_bound, ◌≤ℤ◌, ◌+ℤ◌, max_ℤ}
use betta_pay_contract.Base.Ledger.{ok, panic}
use betta_pay_contract.Common.Rule.{SettlementRule}
use betta_pay_contract.Common.Rule.Ceiling.{ceil_fee, calculate_fee_ceil-eq}
use betta_pay_contract.Settlement.Types.{FeeSplit, amount_overflow}
use betta_pay_contract.Settlement.State.{State}
use betta_pay_contract.Settlement.Split.{clamp_fee_legs, calculate_split}

abbrev pub min : ℕ → ℕ → ℕ
min a b = if leb a b then a else b

-- The platform takes its ceiling, the network what is left of its own, the merchant the rest.
abbrev pub platform_share : ℕ → ℕ → ℕ
platform_share amount p = min (ceil_fee amount p) amount

abbrev pub network_share : ℕ → ℕ → ℕ → ℕ
network_share amount p q = min (ceil_fee amount q) (amount - platform_share amount p)

abbrev pub split_spec : ℕ → ℕ → ℕ → FeeSplit
split_spec amount p q = record {
  gross_amount = pos amount;
  platform_fee_amount = pos (platform_share amount p);
  network_fee_amount = pos (network_share amount p q);
  merchant_payout_amount = pos (amount - platform_share amount p - network_share amount p q);
}

-- For a gross in the range of `i128` and legs of zero or more, the platform's leg is cut to the gross,
-- the network's to what the platform leaves, and the merchant has the rest.
pub clamp_fee_legs-shares :
    (gross platform network : ℕ)
    → gross < i128_bound
    → clamp_fee_legs (pos gross) (pos platform) (pos network) ≡ (
      pos (min platform gross),
      pos (min network (gross - min platform gross)),
      pos (gross - min platform gross - min network (gross - min platform gross)),
    )
unfolding clamp_fee_legs
clamp_fee_legs-shares gross platform network h = ground arith

-- For all integers, the clamped legs are not negative and add up with the merchant's part to the
-- gross, where a negative gross counts as zero.
pub clamp_fee_legs-total :
    (gross platform network : ℤ)
    → max_ℤ gross (pos 0) ≤ℤ pos (i128_bound - 1)
    → let (p, n, m) = clamp_fee_legs gross platform network in
      (pos 0 ≤ℤ p) × (pos 0 ≤ℤ n) × (pos 0 ≤ℤ m) × ((p +ℤ n) +ℤ m ≡ max_ℤ gross (pos 0))
unfolding clamp_fee_legs
clamp_fee_legs-total (pos g) (pos p) (pos n) h = ground arith
clamp_fee_legs-total (pos g) (pos p) (negsuc n) h = ground arith
clamp_fee_legs-total (pos g) (negsuc p) (pos n) h = ground arith
clamp_fee_legs-total (pos g) (negsuc p) (negsuc n) h = ground arith
clamp_fee_legs-total (negsuc g) (pos p) (pos n) h = ground arith
clamp_fee_legs-total (negsuc g) (pos p) (negsuc n) h = ground arith
clamp_fee_legs-total (negsuc g) (negsuc p) (pos n) h = ground arith
clamp_fee_legs-total (negsuc g) (negsuc p) (negsuc n) h = ground arith

module _ (amount p q : ℕ) where
  mul-le-left : amount * p ≤ amount * (p + q)
  mul-le-left = grind arith

  mul-le-right : amount * q ≤ amount * (p + q)
  mul-le-right = grind arith

-- For an amount of zero or more in the range of `i128` the split is the one of `split_spec`, or
-- `AmountOverflow` exactly if `amount * (p + q) + 9999` does not fit in an `i128`.
pub calculate_split-eq :
    (amount : ℕ) (rule : SettlementRule) (l : State)
    → rule.platform_fee_bps < 2 ^ 32
    → rule.network_fee_bps < 2 ^ 32
    → amount < i128_bound
    → calculate_split (pos amount) rule l ≡ (
        if ltb (amount * (rule.platform_fee_bps + rule.network_fee_bps) + 9999) i128_bound
        then ok (split_spec amount rule.platform_fee_bps rule.network_fee_bps, l)
        else panic amount_overflow)
unfolding calculate_split
calculate_split-eq amount rule l hp hq fits = ground (
  arith,
  calculate_fee_ceil-eq rule.platform_fee_bps amount,
  calculate_fee_ceil-eq rule.network_fee_bps amount,
  mul-le-left amount rule.platform_fee_bps rule.network_fee_bps,
  mul-le-right amount rule.platform_fee_bps rule.network_fee_bps,
  clamp_fee_legs-shares amount (ceil_fee amount rule.platform_fee_bps)
      (ceil_fee amount rule.network_fee_bps) fits,
)
