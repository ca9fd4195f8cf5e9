-- ===== src/Settlement/Split.antt =====
-- settlement_contract/src/payments.rs: the fee split of an amount.
pub mod Spec
pub mod Conservation
pub mod Bounds
use betta_pay_contract.Base.{
  ℕ, ◌-◌, Bool, true, false, Option, none, some, and_then, unwrap_or, is_some,
}
use betta_pay_contract.Base.Int.{
  ℤ, pos, max_ℤ, clamp, saturating_sub, checked_mul, checked_add, i128_bound,
}
use betta_pay_contract.Base.Ledger.{pure, ◌>>=◌, ◌>>◌, require, get_or_fail}
use betta_pay_contract.Common.Constants.{bps_denominator}
use betta_pay_contract.Common.Rule.{SettlementRule, calculate_fee_ceil, same_rule}
use betta_pay_contract.Settlement.Types.{FeeSplit, amount_overflow, bootstrap_default_rule}
use betta_pay_contract.Settlement.State.{Act}

-- The legs after clamping, and the merchant's remainder.
unfoldable pub clamp_fee_legs : ℤ → ℤ → ℤ → ℤ × ℤ × ℤ
clamp_fee_legs gross_amount platform_leg network_leg =
    let gross = max_ℤ gross_amount (pos 0) in
    let platform_fee = clamp platform_leg (pos 0) gross in
    let network_fee = clamp network_leg (pos 0) (saturating_sub gross platform_fee) in
    (platform_fee, network_fee, saturating_sub (saturating_sub gross platform_fee) network_fee)

-- Whether `amount * bps + (BPS_DENOMINATOR - 1)` fits in an `i128`.
abbrev numerator_fits : ℤ → ℤ → Bool
numerator_fits amount bps =
    is_some (and_then (checked_mul amount bps) λ n. checked_add n (pos (bps_denominator - 1)))

abbrev split_of_legs : ℤ → ℤ × ℤ × ℤ → FeeSplit
split_of_legs amount (platform, network, payout) = record {
  gross_amount = amount;
  platform_fee_amount = platform;
  network_fee_amount = network;
  merchant_payout_amount = payout;
}

unfoldable pub calculate_split : ℤ → SettlementRule → Act FeeSplit
calculate_split amount rule = do
  let platform_bps : ℤ = pos rule.platform_fee_bps
  let network_bps : ℤ = pos rule.network_fee_bps
  require (numerator_fits amount (max_ℤ platform_bps network_bps)) amount_overflow
  let sum_bps = unwrap_or (checked_add platform_bps network_bps) (pos (i128_bound - 1))
  require (numerator_fits amount sum_bps) amount_overflow
  platform_fee ← get_or_fail (calculate_fee_ceil rule.platform_fee_bps amount) amount_overflow
  network_fee ← get_or_fail (calculate_fee_ceil rule.network_fee_bps amount) amount_overflow
  pure (split_of_legs amount (clamp_fee_legs amount platform_fee network_fee))

abbrev pub is_bootstrap_rule : SettlementRule → Bool
is_bootstrap_rule rule = same_rule rule bootstrap_default_rule
