-- ===== src/Settlement/Merchant.antt =====
-- settlement_contract/src/merchant.rs: the registry of merchants.
pub mod Effect
use betta_pay_contract.Base.{ℕ, Bool, true, false, Option, none, some, List, update, is_some}
use betta_pay_contract.Base.Lists.{contains}
use betta_pay_contract.Base.Ledger.{
  pure, ◌>>=◌, ◌>>◌, refuse, require, first, stored, write, publish, extend_ttl,
}
use betta_pay_contract.Common.Rule.{SettlementRule}
use betta_pay_contract.Common.Env.{Address, require_auth}
use betta_pay_contract.Settlement.Types.{
  DataKey, zero_address, invalid_admin, merchant_exists, merchant_missing, not_initialized,
  ttl_threshold, ttl_bump,
}
use betta_pay_contract.Settlement.State.{Store, Event, Act, Host}
use betta_pay_contract.Settlement.Storage.{
  assert_admin_and_not_paused, validate_nonzero_address, read_admins,
}
use betta_pay_contract.Settlement.Fees.{read_fallback_rule}
use betta_pay_contract.Settlement.Rules.{with_rule}

-- The loop that looks for the merchant among the admins.
unfoldable pub refuse_admin : Address → Act (Unit {0})
refuse_admin merchant = do admins ← read_admins; refuse (contains admins merchant) invalid_admin

abbrev pub with_merchant : Address → Store → Store
with_merchant merchant store = record store { merchants = update store.merchants merchant true }

abbrev pub unarchived : Address → Store → Store
unarchived merchant store = record store {
  archived_merchants = update store.archived_merchants merchant false;
}

-- The registration proper, which both paths share: the entry, its extension and the tombstone.
unfoldable pub add_merchant : Address → Act (Unit {0})
add_merchant merchant = do
  store ← stored
  refuse (store.merchants merchant) merchant_exists
  write (with_merchant merchant)
  extend_ttl (DataKey.merchant merchant) ttl_threshold ttl_bump
  write (unarchived merchant)

abbrev pub tombstoned : Address → Store → Store
tombstoned merchant store = record store {
  merchants = update store.merchants merchant false;
  archived_merchants = update store.archived_merchants merchant true;
}

module _ (h : Host) where
  abbrev drop_rule : Address → Address → Option SettlementRule → Act (Unit {0})
  drop_rule merchant actor none = pure tt
  drop_rule merchant actor (some old_rule) = do
    write (with_rule merchant none)
    fallback ← read_fallback_rule h
    publish (Event.settlement_rule_cleared merchant actor old_rule fallback)

  -- The removal proper, which both paths share.
  unfoldable pub remove_merchant : Address → Address → Act (Unit {0})
  remove_merchant merchant actor = do
    store ← stored
    require (store.merchants merchant) merchant_missing
    write (tombstoned merchant)
    extend_ttl (DataKey.archived_merchant merchant) ttl_threshold ttl_bump
    drop_rule merchant actor (store.rules merchant)
    publish (Event.merchant_unregistered merchant actor)

  unfoldable pub register_merchant : List Address → Address → Act (Unit {0})
  register_merchant signers merchant = do
    assert_admin_and_not_paused h signers
    validate_nonzero_address merchant zero_address
    admin ← first signers
    refuse_admin merchant
    require_auth h.env merchant
    publish (Event.merchant_consent merchant)
    add_merchant merchant
    publish (Event.merchant_registered merchant admin)

  unfoldable pub unregister_merchant : List Address → Address → Act (Unit {0})
  unregister_merchant signers merchant = do
    assert_admin_and_not_paused h signers
    admin ← first signers
    remove_merchant merchant admin

unfoldable pub is_merchant_registered : Address → Act Bool
is_merchant_registered merchant = do
  store ← stored
  require (is_some store.admins) not_initialized
  pure (store.merchants merchant)
