-- ===== src/Common/Rule.antt =====
-- bettapay_common/src/types.rs: the settlement rule, and the basis-point fee of an amount.
pub mod Ceiling
use betta_pay_contract.Base.{ℕ, ◌-◌, ◌==◌, Bool, true, false, ◌&&◌, Option, none, some, and_then}
use betta_pay_contract.Base.Int.{ℤ, pos, checked_mul, checked_add, checked_div}
use betta_pay_contract.Common.Constants.{bps_denominator}

pub record SettlementRule : Type 0 where
  pub platform_fee_bps : ℕ  -- u32
  pub network_fee_bps : ℕ  -- u32
  pub settlement_delay_ledger : ℕ  -- u32
  pub auto_settle : Bool

abbrev same_flag : Bool → Bool → Bool
same_flag true b = b
same_flag false true = false
same_flag false false = true

-- The derived `==` of `SettlementRule`.
abbrev pub same_rule : SettlementRule → SettlementRule → Bool
same_rule a b =
    a.platform_fee_bps == b.platform_fee_bps
    && a.network_fee_bps == b.network_fee_bps
    && a.settlement_delay_ledger == b.settlement_delay_ledger
    && same_flag a.auto_settle b.auto_settle

-- `Bps::calculate_fee_ceil`; `bps` is the `u32` that `Bps` wraps.
unfoldable pub calculate_fee_ceil : ℕ → ℤ → Option ℤ
calculate_fee_ceil bps amount = and_then (checked_mul amount (pos bps)) λ product.
    and_then (checked_add product (pos (bps_denominator - 1)))
      λ numerator. checked_div numerator bps_denominator
