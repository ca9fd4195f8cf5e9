-- ===== src/Settlement/TopicRegistry.antt =====
-- The events of the two contracts take their topics from the registry of events.rs.
use betta_pay_contract.Base.{◌≡◌, refl, true}
use betta_pay_contract.Common.Topics.{all_event_topics, is_topic}
use betta_pay_contract.Settlement.State as Settlement
use betta_pay_contract.Governance.State as Governance
use betta_pay_contract.Settlement.Topics as SettlementTopics
use betta_pay_contract.Governance.Topics as GovernanceTopics

settlement_topic-is_topic :
    (event : Settlement.Event) → is_topic all_event_topics (SettlementTopics.topic event) ≡ true
unfolding SettlementTopics.topic
settlement_topic-is_topic (Settlement.Event.admin_transferred _ _) = refl
settlement_topic-is_topic (Settlement.Event.paused _ _ _) = refl
settlement_topic-is_topic (Settlement.Event.unpaused _ _) = refl
settlement_topic-is_topic (Settlement.Event.recovery_initiated _ _ _) = refl
settlement_topic-is_topic (Settlement.Event.recovery_cancelled _) = refl
settlement_topic-is_topic (Settlement.Event.recovery_executed _ _) = refl
settlement_topic-is_topic (Settlement.Event.contract_upgraded _ _) = refl
settlement_topic-is_topic (Settlement.Event.recovery_address_updated _ _) = refl
settlement_topic-is_topic (Settlement.Event.migrated _ _) = refl
settlement_topic-is_topic (Settlement.Event.threshold_changed _ _ _) = refl
settlement_topic-is_topic (Settlement.Event.governance_updated _ _) = refl
settlement_topic-is_topic (Settlement.Event.merchant_consent _) = refl
settlement_topic-is_topic (Settlement.Event.merchant_registered _ _) = refl
settlement_topic-is_topic (Settlement.Event.merchant_unregistered _ _) = refl
settlement_topic-is_topic (Settlement.Event.settlement_rule_updated _ _ _ _) = refl
settlement_topic-is_topic (Settlement.Event.settlement_rule_cleared _ _ _ _) = refl
settlement_topic-is_topic (Settlement.Event.default_rule_updated _ _ _) = refl
settlement_topic-is_topic (Settlement.Event.bootstrap_fallback _) = refl
settlement_topic-is_topic (Settlement.Event.payment_stored _ _ _) = refl
settlement_topic-is_topic (Settlement.Event.payments_pruned _ _ _) = refl
settlement_topic-is_topic (Settlement.Event.payment_pruned _ _) = refl
settlement_topic-is_topic (Settlement.Event.op_scheduled _ _ _) = refl
settlement_topic-is_topic (Settlement.Event.op_executed _) = refl
settlement_topic-is_topic (Settlement.Event.op_cancelled _ _) = refl
settlement_topic-is_topic (Settlement.Event.ops_cancelled _ _) = refl
settlement_topic-is_topic (Settlement.Event.fee_ceiling_rejected _ _) = refl

governance_topic-is_topic :
    (event : Governance.Event) → is_topic all_event_topics (GovernanceTopics.topic event) ≡ true
unfolding GovernanceTopics.topic
governance_topic-is_topic (Governance.Event.admin_transferred _ _) = refl
governance_topic-is_topic (Governance.Event.paused _ _ _) = refl
governance_topic-is_topic (Governance.Event.unpaused _ _) = refl
governance_topic-is_topic (Governance.Event.recovery_initiated _ _ _) = refl
governance_topic-is_topic (Governance.Event.recovery_cancelled _) = refl
governance_topic-is_topic (Governance.Event.recovery_executed _ _) = refl
governance_topic-is_topic (Governance.Event.contract_upgraded _ _) = refl
governance_topic-is_topic (Governance.Event.recovery_address_updated _ _) = refl
governance_topic-is_topic (Governance.Event.migrated _ _) = refl
governance_topic-is_topic (Governance.Event.threshold_changed _ _) = refl
governance_topic-is_topic (Governance.Event.initialized _) = refl
governance_topic-is_topic (Governance.Event.sys_param_updated _ _ _ _) = refl
governance_topic-is_topic (Governance.Event.fee_config_updated _ _) = refl
governance_topic-is_topic (Governance.Event.anchor_upserted _ _ _) = refl
governance_topic-is_topic (Governance.Event.anchor_removed _) = refl
