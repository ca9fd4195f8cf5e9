-- ===== src/Settlement/Invariant/Arms.antt =====
-- The arms of `execute` keep the invariant of the settlement contract's storage.
use betta_pay_contract.Base.{ℕ, ◌≡◌, none, List, arith}
use betta_pay_contract.Settlement.Invariant.{
  IsValid, SameParts, SameParts-IsValid, RuleSet-IsValid, RuleCleared-IsValid, Unregistered-IsValid,
}
use betta_pay_contract.Base.Ledger.{Result, Ensures, bind-Ensures, pass-Ensures, weaken-Ensures}
use betta_pay_contract.Common.Rule.{SettlementRule}
use betta_pay_contract.Common.Env.{Address, Hash, probe_supports_interface}
use betta_pay_contract.Settlement.Types.{Operation, SettlementError}
use betta_pay_contract.Settlement.State.{Store, State, Host}
use betta_pay_contract.Settlement.Storage.{read_admins}
use betta_pay_contract.Settlement.Storage.Access.{validate_admins_sound}
use betta_pay_contract.Settlement.Rules.Effect.{DefaultSet}
use betta_pay_contract.Settlement.Merchant.Effect.{Registered}
use betta_pay_contract.Settlement.Operations.{
  run_operation, run_update_governance, run_cancel_recovery, run_transfer_admin, run_upgrade,
}
use betta_pay_contract.Settlement.Operations.Effect.{
  run_set_settlement_rule_effect, run_set_default_rule_effect, run_clear_settlement_rule_effect,
  run_register_merchant_effect, run_unregister_merchant_effect,
}
use betta_pay_contract.Settlement.Timelock.{
  validate_scheduled_execution, consume_scheduled_operation, execute,
}
use betta_pay_contract.Settlement.Timelock.Effect.{consume-eq, validate-Ready}
use betta_pay_contract.Settlement.Admin.Effect.{replace_admins_effect, Transferred}

-- What each effect means for the invariant.
pub Transferred-IsValid :
    (s s' : Store) (admins : List Address) (n : ℕ)
    → Transferred s s' admins n
    → IsValid s
    → IsValid s'
Transferred-IsValid s s' admins n e v = record {
  admins = ground (arith, e.valid, e.written);
  recovery = ground (arith, v.recovery, e.written);
  default = ground (arith, v.default, e.written);
  rules = λ k. ground (arith, v.rules k, e.written);
}

pub DefaultSet-IsValid :
    (h : Host) (s s' : Store) (r : SettlementRule) → DefaultSet h s s' r → IsValid s → IsValid s'
DefaultSet-IsValid h s s' r e v = record {
  admins = ground (arith, v.admins, e.written);
  recovery = ground (arith, v.recovery, e.written);
  default = ground (arith, e.bounded, e.written);
  rules = λ k. ground (arith, v.rules k, e.written);
}

pub Registered-IsValid : (s s' : Store) (m : Address) → Registered s s' m → IsValid s → IsValid s'
Registered-IsValid s s' m e v = SameParts-IsValid s s' (ground (arith, e.written)) v

pub cleared-IsValid :
    (s s' : Store) → s' ≡ record s { pending_recovery = none } → IsValid s → IsValid s'
cleared-IsValid s s' e v = record {
  admins = ground (arith, v.admins);
  recovery = ground arith;
  default = ground (arith, v.default);
  rules = λ k. ground (arith, v.rules k);
}

module _ (h : Host) where
  pub run_update_governance-SameParts :
      (executor g : Address) (l : State)
      → Ensures (run_update_governance h executor g l) (λ _ l'. SameParts l.store l'.store)
  unfolding run_update_governance
  run_update_governance-SameParts executor g l = ground arith

  pub run_upgrade-SameParts :
      (executor : Address) (code : Hash) (l : State)
      → Ensures (run_upgrade h executor code l) (λ _ l'. SameParts l.store l'.store)
  unfolding run_upgrade probe_supports_interface
  run_upgrade-SameParts executor code l = ground arith

  pub run_cancel_recovery_cleared :
      (executor : Address) (l : State)
      → Ensures
          (run_cancel_recovery h executor l)
          (λ _ l'. l'.store ≡ record (l.store) { pending_recovery = none })
  unfolding run_cancel_recovery
  run_cancel_recovery_cleared executor l = ground arith

  pub run_transfer_admin-Transferred :
      (admins : List Address) (n : ℕ) (l : State)
      → Ensures (run_transfer_admin h admins n l) (λ _ l'. Transferred l.store l'.store admins n)
  unfolding run_transfer_admin read_admins
  run_transfer_admin-Transferred admins n l =
      grind (arith, validate_admins_sound, replace_admins_effect)

-- A call that keeps the parts keeps the invariant, also when its result is dropped.
pub by_parts :
    {A : Type 0} (l : State) (r : Result SettlementError (A × State))
    → Ensures r (λ _ l'. SameParts l.store l'.store)
    → IsValid l.store
    → Ensures r (λ _ l'. IsValid l'.store)
by_parts l r e v = weaken-Ensures _ r e λ _ l' parts. SameParts-IsValid l.store l'.store parts v

pub by_effect :
    (P : State → Type 0) (l : State) (r : Result SettlementError (Unit {0} × State))
    → Ensures r (λ _ l'. P l')
    → ((l' : State) → P l' → IsValid l'.store)
    → Ensures r (λ _ l'. IsValid l'.store)
by_effect P l r e k = weaken-Ensures _ r e λ _ l'. k l'

module _ (h : Host) where
  -- Every arm of `execute` keeps the storage valid, whoever executes it.
  pub run_operation-IsValid :
      (executor : Address) (op : Operation) (l : State)
      → IsValid l.store
      → Ensures (run_operation h executor op l) (λ _ l'. IsValid l'.store)
  unfolding run_operation
  run_operation-IsValid executor (Operation.update_governance g) l v =
      by_parts l _ (run_update_governance-SameParts h executor g l) v
  run_operation-IsValid executor Operation.cancel_recovery l v =
      by_effect _ l _ (run_cancel_recovery_cleared h executor l)
        λ l' e. cleared-IsValid l.store l'.store e v
  run_operation-IsValid executor (Operation.transfer_admin admins n) l v =
      by_effect _ l _ (run_transfer_admin-Transferred h admins n l)
        λ l' e. Transferred-IsValid l.store l'.store admins n e v
  run_operation-IsValid executor (Operation.upgrade code) l v =
      by_parts l _ (run_upgrade-SameParts h executor code l) v
  run_operation-IsValid executor (Operation.register_merchant m) l v =
      by_effect _ l _ (run_register_merchant_effect h executor m l)
        λ l' e. Registered-IsValid l.store l'.store m e v
  run_operation-IsValid executor (Operation.unregister_merchant m) l v =
      by_effect _ l _ (run_unregister_merchant_effect h executor m l)
        λ l' e. Unregistered-IsValid l.store l'.store m e v
  run_operation-IsValid executor (Operation.set_settlement_rule m r) l v =
      by_effect _ l _ (run_set_settlement_rule_effect h executor m r l)
        λ l' e. RuleSet-IsValid h l.store l'.store m r e v
  run_operation-IsValid executor (Operation.clear_settlement_rule m) l v =
      by_effect _ l _ (run_clear_settlement_rule_effect h executor m l)
        λ l' e. RuleCleared-IsValid l.store l'.store m e v
  run_operation-IsValid executor (Operation.set_default_rule r) l v =
      by_effect _ l _ (run_set_default_rule_effect h executor r l)
        λ l' e. DefaultSet-IsValid h l.store l'.store r e v

  pub execute-IsValid :
      (executor : Address) (op : Operation) (l : State)
      → IsValid l.store
      → Ensures (execute h executor op l) (λ _ l'. IsValid l'.store)
  unfolding execute consume_scheduled_operation
  execute-IsValid executor op l v =
      bind-Ensures _ (validate_scheduled_execution h op) _ l (validate-Ready h op l) λ key l1 ready.
        pass-Ensures _ (consume_scheduled_operation key) _ l1 λ _ l2 e2.
          bind-Ensures _ (run_operation h executor op) _ l2
            (run_operation-IsValid executor op l2
              (SameParts-IsValid l.store l2.store (ground (arith, consume-eq h key l1)) v))
            λ _ l3 v3. v3
