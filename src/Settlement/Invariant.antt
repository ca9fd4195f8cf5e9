-- ===== src/Settlement/Invariant.antt =====
-- An invariant of the settlement contract's storage under all its entry points that write.
pub mod Arms
pub mod Transitions
pub mod Reads
pub mod Requests
use betta_pay_contract.Base.{
  ℕ, zero, suc, ◌+◌, ◌-◌, ◌≤◌, ◌<◌, ◌≡◌, ◌≢◌, refl, ltb, Bool, true, false, Option, none, some,
  List, [], ◌∷◌, arith, is_some, update, ◌==◌, Bool-cases, inl, inr,
}
use betta_pay_contract.Base.Int.{ℤ}
use betta_pay_contract.Base.Lists.{length, All}
use betta_pay_contract.Base.Ledger.{
  Result, ok, Ensures, bind-Ensures, pass-Ensures, weaken-Ensures, ◌>>◌, ◌>>=◌, pure,
}
use betta_pay_contract.Common.Rule.{SettlementRule}
use betta_pay_contract.Common.Env.{Env, Address, Reference, Hash, probe_supports_interface}
use betta_pay_contract.Common.Auth.Quorum.{Quorum, IsAdminSet, require_auth_each-same}
use betta_pay_contract.Common.Recovery.{PendingRecovery, RecoveryEntry, pending, undecodable}
use betta_pay_contract.Settlement.Types.{Operation, SettlementError, EffectiveRule, FeeSplit}
use betta_pay_contract.Settlement.State.{Store, State, Act, Host}
use betta_pay_contract.Settlement.Storage.{
  read_schema_version, decrement_payment_count, verify_admins,
}
use betta_pay_contract.Settlement.Storage.Access.{
  IsApproved, verify_admins_sound, validate_admins_sound, write_admins_effect,
}
use betta_pay_contract.Settlement.Rules.{
  set_settlement_rule, clear_settlement_rule, set_default_rule,
}
use betta_pay_contract.Settlement.Rules.Effect.{
  IsBounded, RuleSet, DefaultSet, RuleCleared, set_settlement_rule_effect,
  clear_settlement_rule_effect, set_default_rule_effect,
}
use betta_pay_contract.Settlement.Merchant.{register_merchant, unregister_merchant}
use betta_pay_contract.Settlement.Merchant.Effect.{
  Registered, Unregistered, register_merchant_effect, unregister_merchant_effect,
}
use betta_pay_contract.Settlement.Payments.{
  store_payment_reference, record_payment, prune_payment, prune_payments, prune_each,
}
use betta_pay_contract.Settlement.Payments.Effect.{
  Recorded, Written, Payable, store_payment_reference-Recorded,
}
use betta_pay_contract.Settlement.Fees.Precedence.{OfRule, rule_for}
use betta_pay_contract.Settlement.Operations.{
  run_operation, run_update_governance, run_cancel_recovery, run_transfer_admin, run_upgrade,
}
use betta_pay_contract.Settlement.Operations.Effect.{
  run_set_settlement_rule_effect, run_set_default_rule_effect, run_clear_settlement_rule_effect,
  run_register_merchant_effect, run_unregister_merchant_effect,
}
use betta_pay_contract.Settlement.Timelock.{
  schedule, validate_scheduled_execution, consume_scheduled_operation, execute, cancel, cancel_each,
  cancel_all,
}
use betta_pay_contract.Settlement.Timelock.Effect.{
  Scheduled, schedule-Scheduled, cancel-consumed, consumed, consume-eq, validate-Ready,
}
use betta_pay_contract.Settlement.Admin.{
  init, update_governance, initiate_recovery, cancel_recovery, update_recovery_address,
  execute_recovery, transfer_admin, change_threshold, upgrade, pause, unpause, migrate,
  migrate_from, run_migrations,
}
use betta_pay_contract.Settlement.Admin.Init.{Initialized, init-Initialized}
use betta_pay_contract.Settlement.Admin.Effect.{
  Recovered, Initiated, Cancelled, OfPending, OfAddress, OfAdmins, Transferred, ThresholdChanged,
  execute_recovery_effect, initiate_recovery_effect, cancel_recovery_effect, transfer_admin_effect,
  change_threshold_effect, pause_effect, unpause_effect, update_governance_effect,
  update_recovery_address_effect, upgrade_effect,
}

-- Before `init` there is no admin set; after it, a valid one with its threshold.
abbrev pub AdminsValid : Option (List Address) → Option ℕ → Type 0
AdminsValid none _ = Unit
AdminsValid (some admins) (some n) = IsAdminSet admins n
AdminsValid (some admins) none = ⊥

abbrev pub PendingValid : Option RecoveryEntry → Type 0
PendingValid none = Unit
PendingValid (some (pending p)) = p.new_admin ≢ 0
PendingValid (some undecodable) = Unit

abbrev pub RuleValid : Option SettlementRule → Type 0
RuleValid none = Unit
RuleValid (some r) = IsBounded r

-- The admins are a valid set for their threshold, no pending recovery is for the zero address, and
-- every stored rule, also the default, is within its bounds.
pub record IsValid (s : Store) : Type 0 where
  pub admins : AdminsValid s.admins s.threshold
  pub recovery : PendingValid s.pending_recovery
  pub default : RuleValid s.default_rule
  pub rules : (m : Address) → RuleValid (s.rules m)

-- The parts of the storage that the condition is about are the same.
pub record SameParts (s s' : Store) : Type 0 where
  pub admins : s'.admins ≡ s.admins
  pub threshold : s'.threshold ≡ s.threshold
  pub recovery : s'.pending_recovery ≡ s.pending_recovery
  pub default : s'.default_rule ≡ s.default_rule
  pub rules : s'.rules ≡ s.rules

pub SameParts-IsValid : (s s' : Store) → SameParts s s' → IsValid s → IsValid s'
SameParts-IsValid s s' e v = record {
  admins = ground (arith, v.admins, e.admins, e.threshold);
  recovery = ground (arith, v.recovery, e.recovery);
  default = ground (arith, v.default, e.default);
  rules = λ m. ground (arith, v.rules m, e.rules);
}

pub RuleSet-IsValid :
    (h : Host) (s s' : Store) (m : Address) (r : SettlementRule)
    → RuleSet h s s' m r
    → IsValid s
    → IsValid s'
RuleSet-IsValid h s s' m r e v = record {
  admins = ground (arith, v.admins, e.written);
  recovery = ground (arith, v.recovery, e.written);
  default = ground (arith, v.default, e.written);
  rules = λ k. ground (arith, v.rules k, e.written, e.bounded);
}

pub RuleCleared-IsValid : (s s' : Store) (m : Address) → RuleCleared s s' m → IsValid s → IsValid s'
RuleCleared-IsValid s s' m e v = record {
  admins = ground (arith, v.admins, e.written);
  recovery = ground (arith, v.recovery, e.written);
  default = ground (arith, v.default, e.written);
  rules = λ k. ground (arith, v.rules k, e.written);
}

pub Unregistered-IsValid :
    (s s' : Store) (m : Address) → Unregistered s s' m → IsValid s → IsValid s'
Unregistered-IsValid s s' m e v = record {
  admins = ground (arith, v.admins, e.written);
  recovery = ground (arith, v.recovery, e.written);
  default = ground (arith, v.default, e.written);
  rules = λ k. elim (Bool-cases (k == m)) [
    | inl same ↦ ground (arith, e.rule_gone)
    | inr other ↦ ground (arith, v.rules k, e.other_rules k)
  ];
}

-- Migrations write the schema version at most.
migrate_from-SameParts :
    (left version : ℕ) (l : State)
    → Ensures (migrate_from left version l) (λ _ l'. SameParts l.store l'.store)
unfolding migrate_from
migrate_from-SameParts zero version l = record {
  admins = refl;
  threshold = refl;
  recovery = refl;
  default = refl;
  rules = refl;
}
migrate_from-SameParts (suc left) version l = grind (arith, migrate_from-SameParts left)

prune_each-SameParts :
    (m : Address) (refs : List Reference) (removed : ℕ) (l : State)
    → Ensures (prune_each m refs removed l) (λ _ l'. SameParts l.store l'.store)
unfolding prune_each
prune_each-SameParts m [] removed l = record {
  admins = refl;
  threshold = refl;
  recovery = refl;
  default = refl;
  rules = refl;
}
prune_each-SameParts m (r ∷ refs) removed l = grind (arith, prune_each-SameParts m refs)

pub Recorded-SameParts :
    (h : Host) (s s' : Store) (m : Address) (r : Reference) (amount : ℤ) (split : FeeSplit)
    → Recorded h s s' m r amount split
    → SameParts s s'
unfolding Recorded
Recorded-SameParts h s s' m r amount split e = parts (rule_for h s m) e
  where
    parts : (o : Option EffectiveRule) → OfRule (Written h s s' m r amount split) o → SameParts s s'
    parts (some x) w = ground (arith, w.frame)
    parts none w = elim w [ ]

module _ (h : Host) where
  pub init-IsValid :
      (d : Address) (admins : List Address) (n : ℕ) (g r : Address) (l : State)
      → IsValid l.store
      → Ensures (init h d admins n g r l) (λ _ l'. IsValid l'.store)
  init-IsValid d admins n g r l v =
      weaken-Ensures _ (init h d admins n g r l) (init-Initialized h d admins n g r l) λ _ l' e.
        record {
          admins = ground (arith, e.valid, e.written);
          recovery = ground (arith, v.recovery, e.written);
          default = ground (arith, v.default, e.written);
          rules = λ k. ground (arith, v.rules k, e.written);
        }

  pub prune_payment-SameParts :
      (signers : List Address) (m : Address) (r : Reference) (l : State)
      → Ensures (prune_payment h signers m r l) (λ _ l'. SameParts l.store l'.store)
  unfolding prune_payment decrement_payment_count
  prune_payment-SameParts signers m r l = ground (arith, verify_admins_sound h signers l)

  pub prune_payments-SameParts :
      (signers : List Address) (m : Address) (refs : List Reference) (l : State)
      → Ensures (prune_payments h signers m refs l) (λ _ l'. SameParts l.store l'.store)
  unfolding prune_payments decrement_payment_count
  prune_payments-SameParts signers m refs l =
      grind (arith, verify_admins_sound h signers, prune_each-SameParts m refs)

  cancel_each-SameParts :
      (operations : List Operation) (cancelled : ℕ) (l : State)
      → Ensures (cancel_each h operations cancelled l) (λ _ l'. SameParts l.store l'.store)
  unfolding cancel_each
  cancel_each-SameParts [] cancelled l = record {
    admins = refl;
    threshold = refl;
    recovery = refl;
    default = refl;
    rules = refl;
  }
  cancel_each-SameParts (op ∷ operations) cancelled l =
      grind (arith, cancel_each-SameParts operations, consume-eq h)

  pub cancel_all-SameParts :
      (signers : List Address) (operations : List Operation) (l : State)
      → Ensures (cancel_all h signers operations l) (λ _ l'. SameParts l.store l'.store)
  unfolding cancel_all
  cancel_all-SameParts signers operations l =
      grind (arith, verify_admins_sound h signers, cancel_each-SameParts operations)

  pub migrate-SameParts :
      (signers : List Address) (l : State)
      → Ensures (migrate h signers l) (λ _ l'. SameParts l.store l'.store)
  unfolding migrate run_migrations read_schema_version
  migrate-SameParts signers l = grind (arith, verify_admins_sound h signers, migrate_from-SameParts)
