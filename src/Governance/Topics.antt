-- ===== src/Governance/Topics.antt =====
-- governance_contract/src/lib.rs: the topic and the layout of each event.
use Prim.Native.String.{String}
use betta_pay_contract.Base.{[], ◌∷◌}
use betta_pay_contract.Common.Topics as Topics
use betta_pay_contract.Common.Topics.{Shape, Layout}
use betta_pay_contract.Governance.State.{Event}

unfoldable pub topic : Event → String
topic (Event.admin_transferred _ _) = Topics.admin_transferred_event
topic (Event.paused _ _ _) = Topics.paused_event
topic (Event.unpaused _ _) = Topics.unpaused_event
topic (Event.recovery_initiated _ _ _) = Topics.recovery_initiated_event
topic (Event.recovery_cancelled _) = Topics.recovery_cancelled_event
topic (Event.recovery_executed _ _) = Topics.recovery_executed_event
topic (Event.contract_upgraded _ _) = Topics.contract_upgraded_event
topic (Event.recovery_address_updated _ _) = Topics.recovery_address_updated_event
topic (Event.migrated _ _) = Topics.migrated_event
topic (Event.threshold_changed _ _) = Topics.threshold_changed_event
topic (Event.initialized _) = Topics.initialized_event
topic (Event.sys_param_updated _ _ _ _) = Topics.sys_param_updated_event
topic (Event.fee_config_updated _ _) = Topics.fee_config_updated_event
topic (Event.anchor_upserted _ _ _) = Topics.anchor_upserted_event
topic (Event.anchor_removed _) = Topics.anchor_removed_event

unfoldable pub layout : Event → Layout
layout (Event.admin_transferred _ _) = Topics.admin_transferred_layout
layout (Event.paused _ _ _) = Topics.paused_layout
layout (Event.unpaused _ _) = Topics.unpaused_layout
layout (Event.recovery_initiated _ _ _) = Topics.recovery_initiated_layout
layout (Event.recovery_cancelled _) = Topics.recovery_cancelled_layout
layout (Event.recovery_executed _ _) = Topics.recovery_executed_layout
layout (Event.contract_upgraded _ _) = record {
  topics = Shape.hash ∷ [];
  payload = Shape.address ∷ [];
}
layout (Event.recovery_address_updated _ _) = record {
  topics = Shape.address ∷ [];
  payload = Shape.address ∷ [];
}
layout (Event.migrated _ _) = record { topics = []; payload = Shape.address ∷ Shape.u32 ∷ [] }
layout (Event.threshold_changed _ _) = record { topics = []; payload = Shape.u32 ∷ Shape.u32 ∷ [] }
layout (Event.initialized _) = record { topics = []; payload = Shape.address ∷ [] }
layout (Event.sys_param_updated _ _ _ _) = record {
  topics = Shape.symbol ∷ [];
  payload = Shape.address ∷ Shape.option_i128 ∷ Shape.i128 ∷ [];
}
layout (Event.fee_config_updated _ _) = record {
  topics = [];
  payload = Shape.address ∷ Shape.fee_config ∷ [];
}
layout (Event.anchor_upserted _ _ _) = record {
  topics = Shape.address ∷ [];
  payload = Shape.option_address ∷ Shape.address ∷ [];
}
layout (Event.anchor_removed _) = record { topics = Shape.address ∷ []; payload = [] }
