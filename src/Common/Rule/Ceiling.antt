-- ===== src/Common/Rule/Ceiling.antt =====
-- The basis-point fee of Common/Rule.antt against the ceiling of the exact quotient.
use betta_pay_contract.Base.{ℕ, ◌+◌, ◌*◌, ◌/◌, ◌≤◌, ◌<◌, ◌≡◌, ltb, none, some, if◌then◌else◌, arith}
use betta_pay_contract.Base.Int.{pos, i128_bound}
use betta_pay_contract.Common.Rule.{calculate_fee_ceil}

-- The fee that the rounding policy asks for.
abbrev pub ceil_fee : ℕ → ℕ → ℕ
ceil_fee amount bps = (amount * bps + 9999) / 10000

-- For an amount of zero or more the function computes the ceiling, unless the numerator does not
-- fit in an `i128`.
pub calculate_fee_ceil-eq :
    (bps amount : ℕ)
    → calculate_fee_ceil bps (pos amount)
      ≡ (if ltb (amount * bps + 9999) i128_bound then some (pos (ceil_fee amount bps)) else none)
unfolding calculate_fee_ceil
calculate_fee_ceil-eq bps amount = ground arith

-- The ceiling is the least number of units that covers the exact fee.
pub ceil_fee_bounds :
    (amount bps : ℕ)
    → (amount * bps ≤ ceil_fee amount bps * 10000)
      × (ceil_fee amount bps * 10000 < amount * bps + 10000)
ceil_fee_bounds amount bps = (omega arith, omega arith)

-- A rate of at most 100 % gives a fee of at most the amount.
pub ceil_fee-le : (amount bps : ℕ) → bps ≤ 10000 → ceil_fee amount bps ≤ amount
ceil_fee-le amount bps h = grind arith
