-- ===== src/Settlement/History/Quiet.antt =====
-- The entry points that leave the payments and the timelock alone.
use betta_pay_contract.Base.{
  ℕ, zero, suc, Bool, true, false, ◌≡◌, refl, Option, none, some, List, arith,
}
use betta_pay_contract.Base.Ledger.{Result, Ensures, weaken-Ensures}
use betta_pay_contract.Common.Env.{Address}
use betta_pay_contract.Common.Recovery.{RecoveryEntry, pending, undecodable}
use betta_pay_contract.Settlement.Storage.{read_schema_version}
use betta_pay_contract.Settlement.Storage.Access.{verify_admins_sound}
use betta_pay_contract.Settlement.Types.{SettlementError}
use betta_pay_contract.Settlement.State.{Store, State, Host}
use betta_pay_contract.Settlement.Rules.Effect.{
  set_settlement_rule_effect, clear_settlement_rule_effect, set_default_rule_effect,
}
use betta_pay_contract.Settlement.Merchant.Effect.{
  register_merchant_effect, unregister_merchant_effect,
}
use betta_pay_contract.Settlement.Admin.Init.{init-Initialized}
use betta_pay_contract.Settlement.Admin.Effect.{
  Recovered, Initiated, Cancelled, OfPending, OfAddress, OfAdmins, ThresholdChanged,
  execute_recovery_effect, initiate_recovery_effect, cancel_recovery_effect, transfer_admin_effect,
  change_threshold_effect, pause_effect, unpause_effect, update_governance_effect,
  update_recovery_address_effect, upgrade_effect,
}
use betta_pay_contract.Settlement.Payments.{calculate_fee_split}
use betta_pay_contract.Settlement.Rules.{get_effective_rule, get_rule_provenance}
use betta_pay_contract.Settlement.Invariant.Reads.{
  calculate_fee_split-OnlyCached, get_effective_rule-OnlyCached, get_rule_provenance-OnlyCached,
  dry_run-same,
}
use betta_pay_contract.Settlement.Invariant.Requests.{Request, handle, looked_up}
use betta_pay_contract.Settlement.Admin.{migrate, migrate_from, run_migrations}

-- The payments, the scheduled operations and their numbers are as before.
pub record Quiet (s s' : Store) : Type 0 where
  pub payments : s'.payments ≡ s.payments
  pub counts : s'.payment_counts ≡ s.payment_counts
  pub scheduled : s'.scheduled ≡ s.scheduled
  pub slots : s'.pending_operation_count ≡ s.pending_operation_count

migrate_from-Quiet :
    (left version : ℕ) (l : State)
    → Ensures (migrate_from left version l) (λ _ l'. Quiet l.store l'.store)
unfolding migrate_from
migrate_from-Quiet zero version l = record {
  payments = refl;
  counts = refl;
  scheduled = refl;
  slots = refl;
}
migrate_from-Quiet (suc left) version l = grind (arith, migrate_from-Quiet left)

module _ (h : Host) where
  Initiated-Quiet :
      (a : Address) (l l' : State)
      → OfAddress (Initiated h l.store l'.store a) l.store.recovery_address
      → Quiet l.store l'.store
  Initiated-Quiet a l l' e = at l.store.recovery_address e
    where
      at :
          (o : Option Address)
          → OfAddress (Initiated h l.store l'.store a) o
          → Quiet l.store l'.store
      at (some r) i = ground (arith, i.written)
      at none i = elim i [ ]

  Cancelled-Quiet :
      (signers : List Address) (l l' : State)
      → OfPending (Cancelled h l.store l'.store signers) l.store.pending_recovery
      → Quiet l.store l'.store
  Cancelled-Quiet signers l l' e = at l.store.pending_recovery e
    where
      at :
          (o : Option RecoveryEntry)
          → OfPending (Cancelled h l.store l'.store signers) o
          → Quiet l.store l'.store
      at (some (pending p)) i = ground (arith, i.written)
      at (some undecodable) i = elim i [ ]
      at none i = elim i [ ]

  Recovered-Quiet :
      (l l' : State)
      → OfPending (Recovered h l.store l'.store) l.store.pending_recovery
      → Quiet l.store l'.store
  Recovered-Quiet l l' e = at l.store.pending_recovery e
    where
      at :
          (o : Option RecoveryEntry)
          → OfPending (Recovered h l.store l'.store) o
          → Quiet l.store l'.store
      at (some (pending p)) i = ground (arith, i.written)
      at (some undecodable) i = elim i [ ]
      at none i = elim i [ ]

  ThresholdChanged-Quiet :
      (signers : List Address) (n : ℕ) (l l' : State)
      → OfAdmins (ThresholdChanged h l.store l'.store signers n) l.store.admins l.store.threshold
      → Quiet l.store l'.store
  ThresholdChanged-Quiet signers n l l' e = at l.store.admins l.store.threshold e
    where
      at :
          (o : Option (List Address)) (t : Option ℕ)
          → OfAdmins (ThresholdChanged h l.store l'.store signers n) o t
          → Quiet l.store l'.store
      at (some admins) (some t) i = ground (arith, i.written)
      at (some admins) none i = elim i [ ]
      at none t i = elim i [ ]

module _ (h : Host) where
  migrate-Quiet :
      (signers : List Address) (l : State)
      → Ensures (migrate h signers l) (λ _ l'. Quiet l.store l'.store)
  unfolding migrate run_migrations read_schema_version
  migrate-Quiet signers l = grind (arith, verify_admins_sound h signers, migrate_from-Quiet)

by_effect :
    (P : State → Type 0) (l : State) (r : Result SettlementError (Unit {0} × State))
    → Ensures r (λ _ l'. P l')
    → ((l' : State) → P l' → Quiet l.store l'.store)
    → Ensures r (λ _ l'. Quiet l.store l'.store)
by_effect P l r e k = weaken-Ensures _ r e λ _ l'. k l'

-- Neither a payment nor the timelock is the request's subject.
abbrev pub is_quiet : Request → Bool
is_quiet (Request.store_payment_reference_request _ _ _) = false
is_quiet (Request.prune_payment_request _ _ _) = false
is_quiet (Request.prune_payments_request _ _ _) = false
is_quiet (Request.schedule_request _ _ _) = false
is_quiet (Request.execute_request _ _) = false
is_quiet (Request.cancel_request _ _) = false
is_quiet (Request.cancel_all_request _ _) = false
is_quiet _ = true

module _ (h : Host) where
  pub handle-Quiet :
      (request : Request) (l : State)
      → is_quiet request ≡ true
      → Ensures (handle h request l) (λ _ l'. Quiet l.store l'.store)
  unfolding handle
  handle-Quiet (Request.init_request d admins n g r) l q =
      by_effect _ l _ (init-Initialized h d admins n g r l) λ l' e. ground (arith, e.written)
  handle-Quiet (Request.update_governance_request signers g) l q =
      by_effect _ l _ (update_governance_effect h signers g l) λ l' e. ground arith
  handle-Quiet (Request.update_recovery_address_request signers a) l q =
      by_effect _ l _ (update_recovery_address_effect h signers a l) λ l' e. ground arith
  handle-Quiet (Request.initiate_recovery_request a) l q =
      by_effect _ l _ (initiate_recovery_effect h a l) λ l' e. Initiated-Quiet h a l l' e
  handle-Quiet (Request.cancel_recovery_request signers) l q =
      by_effect _ l _ (cancel_recovery_effect h signers l) λ l' e. Cancelled-Quiet h signers l l' e
  handle-Quiet (Request.unpause_request signers) l q =
      by_effect _ l _ (unpause_effect h signers l) λ l' e. ground arith
  handle-Quiet (Request.migrate_request signers) l q =
      by_effect _ l _ (migrate-Quiet h signers l) λ l' e. e
  handle-Quiet Request.execute_recovery_request l q =
      by_effect _ l _ (execute_recovery_effect h l) λ l' e. Recovered-Quiet h l l' e
  handle-Quiet (Request.transfer_admin_request signers admins n) l q =
      by_effect _ l _ (transfer_admin_effect h signers admins n l)
        λ l' e. ground (arith, e.1.written)
  handle-Quiet (Request.change_threshold_request signers n) l q =
      by_effect _ l _ (change_threshold_effect h signers n l)
        λ l' e. ThresholdChanged-Quiet h signers n l l' e
  handle-Quiet (Request.pause_request signers reason) l q =
      by_effect _ l _ (pause_effect h signers reason l) λ l' e. ground arith
  handle-Quiet (Request.upgrade_request signers code) l q =
      by_effect _ l _ (upgrade_effect h signers code l) λ l' e. ground arith
  handle-Quiet (Request.register_merchant_request signers m) l q =
      by_effect _ l _ (register_merchant_effect h signers m l) λ l' e. ground (arith, e.2.written)
  handle-Quiet (Request.unregister_merchant_request signers m) l q =
      by_effect _ l _ (unregister_merchant_effect h signers m l) λ l' e. ground (arith, e.1.written)
  handle-Quiet (Request.clear_settlement_rule_request signers m) l q =
      by_effect _ l _ (clear_settlement_rule_effect h signers m l)
        λ l' e. ground (arith, e.1.written)
  handle-Quiet (Request.set_settlement_rule_request signers m r) l q =
      by_effect _ l _ (set_settlement_rule_effect h signers m r l)
        λ l' e. ground (arith, e.1.written)
  handle-Quiet (Request.set_default_rule_request signers r) l q =
      by_effect _ l _ (set_default_rule_effect h signers r l) λ l' e. ground (arith, e.1.written)
  handle-Quiet (Request.store_payment_reference_request m r amount) l q = ground arith
  handle-Quiet (Request.prune_payment_request signers m r) l q = ground arith
  handle-Quiet (Request.prune_payments_request signers m refs) l q = ground arith
  handle-Quiet (Request.schedule_request signers op delay) l q = ground arith
  handle-Quiet (Request.execute_request executor op) l q = ground arith
  handle-Quiet (Request.cancel_request signers op) l q = ground arith
  handle-Quiet (Request.cancel_all_request signers ops) l q = ground arith
  handle-Quiet (Request.calculate_fee_split_request m amount) l q =
      looked_up (λ l'. Quiet l.store l'.store) (calculate_fee_split h m amount) l
        (calculate_fee_split-OnlyCached h m amount l) λ l' e. ground arith
  handle-Quiet (Request.get_effective_rule_request m) l q =
      looked_up (λ l'. Quiet l.store l'.store) (get_effective_rule h m) l
        (get_effective_rule-OnlyCached h m l) λ l' e. ground arith
  handle-Quiet (Request.get_rule_provenance_request m) l q =
      looked_up (λ l'. Quiet l.store l'.store) (get_rule_provenance h m) l
        (get_rule_provenance-OnlyCached h m l) λ l' e. ground arith
  handle-Quiet (Request.dry_run_request op) l q =
      by_effect _ l _ (dry_run-same h op l) λ l' e. ground arith
