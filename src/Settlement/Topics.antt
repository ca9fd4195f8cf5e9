-- ===== src/Settlement/Topics.antt =====
-- settlement_contract/src: the topic and the layout of each event.
use Prim.Native.String.{String}
use betta_pay_contract.Base.{[], ◌∷◌}
use betta_pay_contract.Common.Topics as Topics
use betta_pay_contract.Common.Topics.{Shape, Layout}
use betta_pay_contract.Settlement.State.{Event}

unfoldable pub topic : Event → String
topic (Event.admin_transferred _ _) = Topics.admin_transferred_event
topic (Event.paused _ _ _) = Topics.paused_event
topic (Event.unpaused _ _) = Topics.unpaused_event
topic (Event.recovery_initiated _ _ _) = Topics.recovery_initiated_event
topic (Event.recovery_cancelled _) = Topics.recovery_cancelled_event
topic (Event.recovery_executed _ _) = Topics.recovery_executed_event
topic (Event.contract_upgraded _ _) = Topics.contract_upgraded_event
topic (Event.recovery_address_updated _ _) = Topics.recovery_address_updated_event
topic (Event.migrated _ _) = Topics.migrated_event
topic (Event.threshold_changed _ _ _) = Topics.threshold_changed_event
topic (Event.governance_updated _ _) = Topics.governance_updated_event
topic (Event.merchant_consent _) = Topics.merchant_consent_event
topic (Event.merchant_registered _ _) = Topics.merchant_registered_event
topic (Event.merchant_unregistered _ _) = Topics.merchant_unregistered_event
topic (Event.settlement_rule_updated _ _ _ _) = Topics.settlement_rule_updated_event
topic (Event.settlement_rule_cleared _ _ _ _) = Topics.settlement_rule_cleared_event
topic (Event.default_rule_updated _ _ _) = Topics.default_rule_updated_event
topic (Event.bootstrap_fallback _) = Topics.bootstrap_fallback_event
topic (Event.payment_stored _ _ _) = Topics.payment_stored_event
topic (Event.payments_pruned _ _ _) = Topics.payments_pruned_event
topic (Event.payment_pruned _ _) = Topics.payment_pruned_event
topic (Event.op_scheduled _ _ _) = Topics.op_scheduled_event
topic (Event.op_executed _) = Topics.op_executed_event
topic (Event.op_cancelled _ _) = Topics.op_cancelled_event
topic (Event.ops_cancelled _ _) = Topics.op_cancelled_event
topic (Event.fee_ceiling_rejected _ _) = Topics.fee_ceiling_rejected_event

unfoldable pub layout : Event → Layout
layout (Event.admin_transferred _ _) = Topics.admin_transferred_layout
layout (Event.paused _ _ _) = Topics.paused_layout
layout (Event.unpaused _ _) = Topics.unpaused_layout
layout (Event.recovery_initiated _ _ _) = Topics.recovery_initiated_layout
layout (Event.recovery_cancelled _) = Topics.recovery_cancelled_layout
layout (Event.recovery_executed _ _) = Topics.recovery_executed_layout
layout (Event.contract_upgraded _ _) = record {
  topics = Shape.hash ∷ [];
  payload = Shape.address ∷ [];
}
layout (Event.recovery_address_updated _ _) = record {
  topics = Shape.address ∷ [];
  payload = Shape.address ∷ [];
}
layout (Event.migrated _ _) = record { topics = []; payload = Shape.address ∷ Shape.u32 ∷ [] }
layout (Event.threshold_changed _ _ _) = record {
  topics = [];
  payload = Shape.address ∷ Shape.u32 ∷ Shape.u32 ∷ [];
}
layout (Event.governance_updated _ _) = record {
  topics = [];
  payload = Shape.address ∷ Shape.address ∷ [];
}
layout (Event.merchant_consent _) = record { topics = Shape.address ∷ []; payload = [] }
layout (Event.merchant_registered _ _) = record {
  topics = Shape.address ∷ [];
  payload = Shape.address ∷ [];
}
layout (Event.merchant_unregistered _ _) = record {
  topics = Shape.address ∷ [];
  payload = Shape.address ∷ [];
}
layout (Event.settlement_rule_updated _ _ _ _) = record {
  topics = Shape.address ∷ [];
  payload = Shape.address ∷ Shape.settlement_rule ∷ Shape.settlement_rule ∷ [];
}
layout (Event.settlement_rule_cleared _ _ _ _) = Topics.settlement_rule_cleared_layout
layout (Event.default_rule_updated _ _ _) = record {
  topics = [];
  payload = Shape.address ∷ Shape.settlement_rule ∷ Shape.settlement_rule ∷ [];
}
layout (Event.bootstrap_fallback _) = record { topics = []; payload = Shape.settlement_rule ∷ [] }
layout (Event.payment_stored _ _ _) = record {
  topics = Shape.address ∷ Shape.reference ∷ [];
  payload = Shape.payment_record ∷ [];
}
layout (Event.payments_pruned _ _ _) = record {
  topics = Shape.address ∷ [];
  payload = Shape.address ∷ Shape.u32 ∷ [];
}
layout (Event.payment_pruned _ _) = record {
  topics = Shape.address ∷ Shape.reference ∷ [];
  payload = Shape.address ∷ Shape.reference ∷ [];
}
layout (Event.op_scheduled _ _ _) = record {
  topics = Shape.hash ∷ [];
  payload = Shape.address ∷ Shape.u64 ∷ [];
}
layout (Event.op_executed _) = record { topics = Shape.hash ∷ []; payload = [] }
layout (Event.op_cancelled _ _) = record { topics = Shape.hash ∷ []; payload = Shape.address ∷ [] }
layout (Event.ops_cancelled _ _) = record { topics = []; payload = Shape.address ∷ Shape.u32 ∷ [] }
layout (Event.fee_ceiling_rejected _ _) = record {
  topics = Shape.u32 ∷ [];
  payload = Shape.u32 ∷ [];
}
