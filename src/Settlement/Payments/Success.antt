-- ===== src/Settlement/Payments/Success.antt =====
-- When a payment is accepted: the conditions of Effect.antt are enough.
use betta_pay_contract.Settlement.State.{State}
