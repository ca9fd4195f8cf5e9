-- ===== src/Settlement/Timelock/Success.antt =====
-- When an operation is scheduled and when it is executed.
use mathlib.Core.Path.{subst, sym}
use betta_pay_contract.Base.{
  ℕ, ◌+◌, ◌^◌, ◌≤◌, ◌<◌, ◌≡◌, ◌≢◌, refl, leb, not, ◌&&◌, ◌||◌, Bool, false, is_some, unwrap_or,
  Option, none, some, List, ◌∷◌, arith,
}
use betta_pay_contract.Base.Lists.{length, same}
use betta_pay_contract.Base.Dict.{get}
use betta_pay_contract.Base.Ledger.{ok, Returns, returns, bind-Returns}
use betta_pay_contract.Common.Env.{Address, Invoked, returned, failed}
use betta_pay_contract.Settlement.Types.{Operation, ScheduledOp}
use betta_pay_contract.Settlement.State.{Store, State, Host, Val}
use betta_pay_contract.Settlement.Storage.{
  assert_admin_and_not_paused, is_paused, read_governance, increment_pending_operation_count,
  decrement_pending_operation_count,
}
use betta_pay_contract.Settlement.Storage.Access.{
  IsApproved, assert_admin_sound, assert_admin_complete,
}
use betta_pay_contract.Settlement.Fees.{
  assert_governance_reachable, invoke_governance_get_fee_config,
}
use betta_pay_contract.Settlement.Operations.{run_operation}
use betta_pay_contract.Settlement.Timelock.{
  check_operation, schedule, consume_scheduled_operation, execute, validate_scheduled_execution,
  hash_of, is_cancel_recovery,
}
use betta_pay_contract.Settlement.Timelock.Effect.{
  governance_reachable-Unchanged, Ready, consumed, consume-eq,
}
use betta_pay_contract.Settlement.Timelock.Safety.{validate_returns}

module _ (h : Host) where
  -- What an execution checks is enough, if the arm of the operation returns.
  pub execute-Returns :
      (executor : Address) (op : Operation) (l : State)
      → Ready h l.store op
      → Returns (
          run_operation h executor op
            (record l { store = consumed (h.sha256 (h.to_xdr op)) l.store }))
      → Returns (execute h executor op l)
  unfolding execute consume_scheduled_operation
  execute-Returns executor op l ready runs =
      ground (arith, validate_returns h op l ready, consume-eq h (h.sha256 (h.to_xdr op)) l)

-- The slot holds the encoding of the operation, and its time has come.
abbrev slot_due : Host → Operation → Option ScheduledOp → Bool
slot_due h op (some e) = same e.operation_xdr (h.to_xdr op) && leb e.execute_at h.env.timestamp
slot_due h op none = false

-- The timelock lets the operation through: the contract is not paused, the operation's slot is due,
-- and no recovery is pending, unless it is the recovery's cancellation.
unfoldable pub lets_through : Host → Store → Operation → Bool
lets_through h s op =
    not (unwrap_or s.paused_flag false)
    && slot_due h op (get s.scheduled (hash_of h op))
    && (not (is_some s.pending_recovery) || is_cancel_recovery op)

module _ (h : Host) where
  -- An `execute` returns exactly if the contract is not paused, the operation's slot holds its very
  -- encoding, the time of execution has come, no recovery is pending or the operation cancels it,
  -- and the operation's arm returns for the executor in the storage with the slot emptied and the
  -- operation no longer counted. In every other case it panics or traps.
  pub returns-execute :
      (executor : Address) (op : Operation) (l : State)
      → returns (execute h executor op l) ≡ (
          lets_through h l.store op
          && returns
              (run_operation h executor op (record l { store = consumed (hash_of h op) l.store })))
  unfolding lets_through execute validate_scheduled_execution consume_scheduled_operation
      decrement_pending_operation_count
  returns-execute executor op l = ground arith

abbrev Answered : Invoked Val → Type 0
Answered (returned v) = Unit
Answered failed = ⊥

-- Governance is set, and answers.
abbrev pub Answers : Host → Option Address → Type 0
Answers h none = ⊥
Answers h (some governance) = Answered (h.get_fee_config governance)

-- What `schedule` asks of two kinds of operation.
abbrev pub IsSchedulable : Operation → Type 0
IsSchedulable (Operation.transfer_admin admins n) = (n ≢ 0) × (n ≤ length admins)
IsSchedulable (Operation.set_settlement_rule m r) = r.settlement_delay_ledger ≤ 100000
IsSchedulable _ = Unit

module _ (h : Host) where
  reachable-Returns :
      (l : State) → Answers h l.store.governance → Returns (assert_governance_reachable h l)
  unfolding assert_governance_reachable read_governance invoke_governance_get_fee_config
  reachable-Returns l a = ground arith

  check_operation_returns :
      (op : Operation) (l : State) → IsSchedulable op → check_operation op l ≡ ok (tt, l)
  check_operation_returns (Operation.update_governance g) l s = refl
  check_operation_returns Operation.cancel_recovery l s = refl
  check_operation_returns (Operation.transfer_admin admins n) l s = ground arith
  check_operation_returns (Operation.upgrade code) l s = refl
  check_operation_returns (Operation.register_merchant m) l s = refl
  check_operation_returns (Operation.unregister_merchant m) l s = refl
  check_operation_returns (Operation.clear_settlement_rule m) l s = refl
  check_operation_returns (Operation.set_settlement_rule m r) l s = ground arith
  check_operation_returns (Operation.set_default_rule r) l s = refl

  -- A `schedule` by at least one signer returns whenever the signers are a quorum of the stored
  -- admins, the contract is not paused, governance answers, the delay is from 7 to 30 days and
  -- does not overflow the clock, the encoding has at most 4,096 bytes, the slot is free, and a
  -- transfer of admins has a threshold that they can reach, and a rule a delay of at most 100,000
  -- ledgers.
  pub schedule-Returns :
      (signer : Address) (signers : List Address) (op : Operation) (delay : ℕ) (l : State)
      → IsApproved h l.store (signer ∷ signers)
      → is_paused l.store ≡ false
      → Answers h l.store.governance
      → 604800 ≤ delay
      → delay ≤ 2592000
      → h.env.timestamp + delay < 2 ^ 64
      → length (h.to_xdr op) ≤ 4096
      → get l.store.scheduled (h.sha256 (h.to_xdr op)) ≡ none
      → IsSchedulable op
      → Returns (schedule h (signer ∷ signers) op delay l)
  unfolding schedule increment_pending_operation_count
  schedule-Returns signer signers op delay l q u answers least most fits short free allowed =
      bind-Returns (assert_admin_and_not_paused h (signer ∷ signers)) _ l
        (assert_admin_complete h (signer ∷ signers) l q u)
        (assert_admin_sound h (signer ∷ signers) l)
        λ _ l1 approved.
          let there : Answers h l1.store.governance =
            subst (λ s. Answers h s.governance) (sym approved.2.0) answers in
          ground (
            arith,
            check_operation_returns op l1 allowed,
            reachable-Returns l1 there,
            governance_reachable-Unchanged h l1,
          )
