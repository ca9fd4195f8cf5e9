-- ===== src/Settlement/Payments.antt =====
-- settlement_contract/src/payments.rs: the entry points on payments.
pub mod Effect
pub mod Prune
pub mod Batch
pub mod Reads
pub mod Safety
pub mod Count
pub mod Success
use betta_pay_contract.Base.{
  ℕ, ◌+◌, ◌==◌, ltb, Bool, true, false, Option, none, some, List, [], ◌∷◌, update, if◌then◌else◌,
}
use betta_pay_contract.Base.Int.{pos, ltb_ℤ, ℤ}
use betta_pay_contract.Base.Lists.{length, is_empty}
use betta_pay_contract.Base.Dict.{Dict, get, has, set, delete}
use betta_pay_contract.Base.Ledger.{
  pure, ◌>>=◌, ◌>>◌, refuse, require, first, when, add_checked, stored, write, publish, extend_ttl,
}
use betta_pay_contract.Common.Rule.{SettlementRule}
use betta_pay_contract.Common.Env.{Env, Address, Reference, require_auth}
use betta_pay_contract.Settlement.Types.{
  FeeSplit, PaymentRecord, PaymentsPage, DataKey, invalid_payment_reference, merchant_missing,
  amount_too_small, duplicate_payment_reference, batch_too_large, max_payments_batch,
  bootstrap_default_rule, ttl_threshold, ttl_bump,
}
use betta_pay_contract.Settlement.State.{Store, Event, Act, Host}
use betta_pay_contract.Settlement.Storage.{
  assert_not_paused, verify_admins, is_merchant_registered_and_bump_ttl,
  is_merchant_registered_internal, assert_payments_readable, read_payment_count,
  increment_payment_count, decrement_payment_count,
}
use betta_pay_contract.Settlement.Fees.{
  read_min_payment_amount, read_rule_or_default, read_rule_or_default_no_bump,
}
use betta_pay_contract.Settlement.Split.{calculate_split, is_bootstrap_rule}

abbrev pub payment_of : Store → Address → Reference → Option PaymentRecord
payment_of store merchant reference = get (store.payments merchant) reference

abbrev pub with_payments : Address → (Dict PaymentRecord → Dict PaymentRecord) → Store → Store
with_payments merchant f store = record store {
  payments = update store.payments merchant (f (store.payments merchant));
}

-- The record that holds the key while the rule is read.
abbrev pub dummy_record : Address → PaymentRecord
dummy_record merchant = record {
  merchant = merchant;
  amount = pos 0;
  platform_fee_amount = pos 0;
  network_fee_amount = pos 0;
  merchant_payout_amount = pos 0;
  platform_fee_bps = 0;
  network_fee_bps = 0;
  ledger = 0;
  settlement_delay_ledger = 0;
  auto_settle = false;
  version = 1;
}

abbrev pub payment_record : Env → Address → ℤ → SettlementRule → FeeSplit → PaymentRecord
payment_record env merchant amount rule split = record {
  merchant = merchant;
  amount = amount;
  platform_fee_amount = split.platform_fee_amount;
  network_fee_amount = split.network_fee_amount;
  merchant_payout_amount = split.merchant_payout_amount;
  platform_fee_bps = rule.platform_fee_bps;
  network_fee_bps = rule.network_fee_bps;
  ledger = env.sequence;
  settlement_delay_ledger = rule.settlement_delay_ledger;
  auto_settle = rule.auto_settle;
  version = 1;
}

-- The loop of `prune_payments`, with the number removed so far.
unfoldable pub prune_each : Address → List Reference → ℕ → Act ℕ
prune_each merchant [] removed = pure removed
prune_each merchant (reference ∷ refs) removed = do
  store ← stored
  let found = has (store.payments merchant) reference
  when found (write (with_payments merchant (λ d. delete d reference)))
  next ← (if found then add_checked 32 removed 1 else pure removed)
  prune_each merchant refs next

abbrev bump_if_found : Address → Reference → Option PaymentRecord → Act (Unit {0})
bump_if_found merchant reference (some _) =
    extend_ttl (DataKey.payment merchant reference) ttl_threshold ttl_bump
bump_if_found merchant reference none = pure tt

abbrev cons_if_found : Option PaymentRecord → List PaymentRecord → List PaymentRecord
cons_if_found (some payment) records = payment ∷ records
cons_if_found none records = records

-- The loop of `get_payments`.
unfoldable pub read_each : Address → List Reference → Act (List PaymentRecord)
read_each merchant [] = pure []
read_each merchant (reference ∷ refs) = do
  store ← stored
  let found = payment_of store merchant reference
  bump_if_found merchant reference found
  records ← read_each merchant refs
  pure (cons_if_found found records)

-- `Some(cursor + refs.len())` after a full page.
abbrev cursor_after : ℕ → ℕ → Act (Option ℕ)
cursor_after cursor count =
    if count == max_payments_batch
    then (do next ← add_checked 32 cursor count; pure (some next))
    else pure none

module _ (h : Host) where
  -- An empty list of signers means that the caller acts as the merchant.
  unfoldable pub assert_read_authorized : Address → List Address → Act (Unit {0})
  assert_read_authorized merchant signers =
      if is_empty signers then require_auth h.env merchant else verify_admins h signers

  -- The rest of `store_payment_reference` when the checks are passed: the key is reserved, and then
  -- written with the split of the rule that is read.
  unfoldable pub record_payment : Address → Reference → ℤ → Act FeeSplit
  record_payment merchant reference amount = do
    write (with_payments merchant (λ d. set d reference (dummy_record merchant)))
    rule ← read_rule_or_default h merchant
    when (is_bootstrap_rule rule) (publish (Event.bootstrap_fallback bootstrap_default_rule))
    split ← calculate_split amount rule
    let payment = payment_record h.env merchant amount rule split
    write (with_payments merchant (λ d. set d reference payment))
    extend_ttl (DataKey.payment merchant reference) ttl_threshold ttl_bump
    increment_payment_count merchant
    publish (Event.payment_stored merchant reference payment)
    pure split

  unfoldable pub store_payment_reference : Address → Reference → ℤ → Act FeeSplit
  store_payment_reference merchant reference amount = do
    refuse (reference == 0) invalid_payment_reference
    assert_not_paused
    require_auth h.env merchant
    registered ← is_merchant_registered_and_bump_ttl merchant
    require registered merchant_missing
    min_amount ← read_min_payment_amount h
    refuse (ltb_ℤ amount min_amount) amount_too_small
    store ← stored
    refuse (has (store.payments merchant) reference) duplicate_payment_reference
    record_payment merchant reference amount

  unfoldable pub calculate_fee_split : Address → ℤ → Act FeeSplit
  calculate_fee_split merchant amount = do
    registered ← is_merchant_registered_internal merchant
    require registered merchant_missing
    min_amount ← read_min_payment_amount h
    refuse (ltb_ℤ amount min_amount) amount_too_small
    rule ← read_rule_or_default_no_bump h merchant
    calculate_split amount rule

  unfoldable pub prune_payment : List Address → Address → Reference → Act (Unit {0})
  prune_payment signers merchant reference = do
    assert_not_paused
    verify_admins h signers
    store ← stored
    when (has (store.payments merchant) reference) (do
      write (with_payments merchant (λ d. delete d reference))
      decrement_payment_count merchant 1
      publish (Event.payment_pruned merchant reference))

  unfoldable pub prune_payments : List Address → Address → List Reference → Act ℕ
  prune_payments signers merchant refs = do
    verify_admins h signers
    refuse (ltb max_payments_batch (length refs)) batch_too_large
    removed ← prune_each merchant refs 0
    decrement_payment_count merchant removed
    admin ← first signers
    publish (Event.payments_pruned merchant admin removed)
    pure removed

  unfoldable pub get_payment_reference :
      Address → Reference → List Address → Act (Option PaymentRecord)
  get_payment_reference merchant reference signers = do
    assert_read_authorized merchant signers
    assert_payments_readable merchant
    store ← stored
    let payment = payment_of store merchant reference
    bump_if_found merchant reference payment
    pure payment

  unfoldable pub get_payments : Address → List Reference → ℕ → List Address → Act PaymentsPage
  get_payments merchant refs cursor signers = do
    assert_read_authorized merchant signers
    assert_payments_readable merchant
    refuse (ltb max_payments_batch (length refs)) batch_too_large
    records ← read_each merchant refs
    next_cursor ← cursor_after cursor (length refs)
    pure (record { records = records; next_cursor = next_cursor })

  unfoldable pub get_payment_count : Address → List Address → Act ℕ
  get_payment_count merchant signers = do
    assert_read_authorized merchant signers
    assert_payments_readable merchant
    read_payment_count merchant
