-- ===== src/Settlement/Readers.antt =====
-- The entry points that are no requests: they read, and leave the storage as it is.
use betta_pay_contract.Base.{◌≡◌, List, arith}
use betta_pay_contract.Base.Ledger.{Ensures}
use betta_pay_contract.Common.Env.{Address, Reference}
use betta_pay_contract.Settlement.State.{State, Host}
use betta_pay_contract.Settlement.Storage.{
  read_admins, read_threshold, read_governance, read_recovery_address, assert_payments_readable,
}
use betta_pay_contract.Settlement.Merchant.{is_merchant_registered}
use betta_pay_contract.Settlement.Rules.{
  get_default_rule, get_settlement_rule, get_settlement_rule_no_bump,
}
use betta_pay_contract.Settlement.Payments.{get_payment_reference, get_payment_count}
use betta_pay_contract.Settlement.Payments.Reads.{read_authorized_sound}

-- The getters of the administration leave the storage as it is.
admin_reads :
    (l : State)
    → Ensures (read_admins l) (λ _ l'. l'.store ≡ l.store)
      × Ensures (read_threshold l) (λ _ l'. l'.store ≡ l.store)
      × Ensures (read_governance l) (λ _ l'. l'.store ≡ l.store)
      × Ensures (read_recovery_address l) (λ _ l'. l'.store ≡ l.store)
unfolding read_admins read_threshold read_governance read_recovery_address
admin_reads l = (ground arith, ground arith, ground arith, ground arith)

-- So do those of a merchant's registration and rule, and of the default rule.
merchant_reads :
    (m : Address) (l : State)
    → Ensures (is_merchant_registered m l) (λ _ l'. l'.store ≡ l.store)
      × Ensures (get_default_rule l) (λ _ l'. l'.store ≡ l.store)
      × Ensures (get_settlement_rule m l) (λ _ l'. l'.store ≡ l.store)
      × Ensures (get_settlement_rule_no_bump m l) (λ _ l'. l'.store ≡ l.store)
unfolding is_merchant_registered get_default_rule get_settlement_rule get_settlement_rule_no_bump
merchant_reads m l = (ground arith, ground arith, ground arith, ground arith)

-- So do the reads of one payment and of a merchant's count.
payment_reads :
    (h : Host) (m : Address) (r : Reference) (signers : List Address) (l : State)
    → Ensures (get_payment_reference h m r signers l) (λ _ l'. l'.store ≡ l.store)
      × Ensures (get_payment_count h m signers l) (λ _ l'. l'.store ≡ l.store)
unfolding get_payment_reference get_payment_count assert_payments_readable
payment_reads h m r signers l = (
  ground (arith, read_authorized_sound h m signers l),
  ground (arith, read_authorized_sound h m signers l),
)
