-- ===== src/Common/Topics.antt =====
-- bettapay_common/src/events.rs: the registry of event topics, and the layouts of events: what follows
-- the name among the topics, and the data.
use Prim.Native.String.{String}
use text.Mathlib.Text
use betta_pay_contract.Base.{Bool, false, ◌||◌, List, [], ◌∷◌}

abbrev pub admin_transferred_event : String
admin_transferred_event = "admin_transferred"

abbrev pub paused_event : String
paused_event = "paused"

abbrev pub unpaused_event : String
unpaused_event = "unpaused"

abbrev pub recovery_initiated_event : String
recovery_initiated_event = "recovery_initiated"

abbrev pub recovery_cancelled_event : String
recovery_cancelled_event = "recovery_cancelled"

abbrev pub recovery_executed_event : String
recovery_executed_event = "recovery_executed"

abbrev pub contract_upgraded_event : String
contract_upgraded_event = "contract_upgraded"

abbrev pub threshold_changed_event : String
threshold_changed_event = "threshold_changed"

abbrev pub recovery_address_updated_event : String
recovery_address_updated_event = "recovery_address_updated"

abbrev pub initialized_event : String
initialized_event = "initialized"

abbrev pub migrated_event : String
migrated_event = "migrated"

abbrev pub sys_param_updated_event : String
sys_param_updated_event = "sys_param_updated"

abbrev pub fee_config_updated_event : String
fee_config_updated_event = "fee_config_updated"

abbrev pub anchor_upserted_event : String
anchor_upserted_event = "anchor_upserted"

abbrev pub anchor_removed_event : String
anchor_removed_event = "anchor_removed"

abbrev pub governance_updated_event : String
governance_updated_event = "governance_updated"

abbrev pub merchant_registered_event : String
merchant_registered_event = "merchant_registered"

abbrev pub merchant_consent_event : String
merchant_consent_event = "merchant_consent"

abbrev pub merchant_unregistered_event : String
merchant_unregistered_event = "merchant_unregistered"

abbrev pub settlement_rule_updated_event : String
settlement_rule_updated_event = "settlement_rule_updated"

abbrev pub settlement_rule_cleared_event : String
settlement_rule_cleared_event = "settlement_rule_cleared"

abbrev pub default_rule_updated_event : String
default_rule_updated_event = "default_rule_updated"

abbrev pub bootstrap_fallback_event : String
bootstrap_fallback_event = "bootstrap_fallback"

abbrev pub payment_stored_event : String
payment_stored_event = "payment_stored"

abbrev pub payments_pruned_event : String
payments_pruned_event = "payments_pruned"

abbrev pub payment_pruned_event : String
payment_pruned_event = "payment_pruned"

abbrev pub op_scheduled_event : String
op_scheduled_event = "op_scheduled"

abbrev pub op_executed_event : String
op_executed_event = "op_executed"

abbrev pub op_cancelled_event : String
op_cancelled_event = "op_cancelled"

abbrev pub fee_ceiling_rejected_event : String
fee_ceiling_rejected_event = "fee_ceiling_rejected"

abbrev pub all_event_topics : List String
all_event_topics =
    admin_transferred_event ∷ paused_event ∷ unpaused_event ∷ recovery_initiated_event
    ∷ recovery_cancelled_event ∷ recovery_executed_event ∷ contract_upgraded_event
    ∷ threshold_changed_event ∷ recovery_address_updated_event ∷ initialized_event ∷ migrated_event
    ∷ sys_param_updated_event ∷ fee_config_updated_event ∷ anchor_upserted_event
    ∷ anchor_removed_event ∷ governance_updated_event ∷ merchant_registered_event
    ∷ merchant_consent_event ∷ merchant_unregistered_event ∷ settlement_rule_updated_event
    ∷ settlement_rule_cleared_event ∷ default_rule_updated_event ∷ bootstrap_fallback_event
    ∷ payment_stored_event ∷ payments_pruned_event ∷ payment_pruned_event ∷ op_scheduled_event
    ∷ op_executed_event ∷ op_cancelled_event ∷ fee_ceiling_rejected_event ∷ []

abbrev pub is_topic : List String → String → Bool
is_topic [] name = false
is_topic (topic ∷ topics) name = text.Mathlib.Text.◌==◌ topic name || is_topic topics name

-- The types of the values that events carry.
pub data Shape : Type 0 where
  address addresses hash reference symbol boolean u32 u64 i128 : Shape
  option_address option_i128 settlement_rule payment_record fee_config : Shape

-- What follows the name among the topics, and the data.
pub record Layout : Type 0 where
  pub topics : List Shape
  pub payload : List Shape

-- `AdminTransferred`, the data of `admin_transferred` and `recovery_executed`.
abbrev pub admin_transferred : List Shape
admin_transferred = Shape.addresses ∷ Shape.addresses ∷ []

-- The layout that `emit_admin_transferred` publishes.
abbrev pub admin_transferred_layout : Layout
admin_transferred_layout = record { topics = []; payload = admin_transferred }

-- The layout that `emit_paused` publishes.
abbrev pub paused_layout : Layout
paused_layout = record { topics = []; payload = Shape.address ∷ Shape.boolean ∷ Shape.u32 ∷ [] }

-- The layout that `emit_unpaused` publishes.
abbrev pub unpaused_layout : Layout
unpaused_layout = record { topics = []; payload = Shape.address ∷ Shape.boolean ∷ [] }

-- The layout that `emit_recovery_initiated` publishes.
abbrev pub recovery_initiated_layout : Layout
recovery_initiated_layout = record {
  topics = [];
  payload = Shape.address ∷ Shape.address ∷ Shape.u64 ∷ [];
}

-- The layout that `emit_recovery_cancelled` publishes.
abbrev pub recovery_cancelled_layout : Layout
recovery_cancelled_layout = record { topics = []; payload = Shape.address ∷ [] }

-- The layout that `emit_recovery_executed` publishes.
abbrev pub recovery_executed_layout : Layout
recovery_executed_layout = record { topics = []; payload = admin_transferred }

-- The layout that `emit_settlement_rule_cleared` publishes.
abbrev pub settlement_rule_cleared_layout : Layout
settlement_rule_cleared_layout = record {
  topics = Shape.address ∷ [];
  payload = Shape.address ∷ Shape.settlement_rule ∷ Shape.settlement_rule ∷ [];
}
