-- ===== src/Settlement/Timelock/Effect.antt =====
-- What the entry points of the timelock check and write.
use betta_pay_contract.Base.{
  ℕ, ◌+◌, ◌-◌, ◌==◌, ◌≤◌, ◌≡◌, refl, ltb, true, false, ◌⊎◌, Option, none, some, List, arith,
  is_some, min_u32,
}
use betta_pay_contract.Base.Lists.{length, same-eq}
use betta_pay_contract.Base.Dict.{get, set, delete}
use betta_pay_contract.Base.Ledger.{ok, Ensures, bind-Ensures, pass-Ensures, first, refuse}
use betta_pay_contract.Common.Env.{Address, Hash}
use betta_pay_contract.Settlement.Types.{
  ScheduledOp, Operation, execution_not_ready, execution_delay_too_long, payload_too_large,
  min_timelock_delay_seconds, max_timelock_delay_seconds, max_scheduled_operation_payload_len,
}
use betta_pay_contract.Settlement.State.{Store, State, Host}
use betta_pay_contract.Settlement.Storage.{
  assert_admin_and_not_paused, is_paused, operation_count, increment_pending_operation_count,
  decrement_pending_operation_count, read_governance,
}
use betta_pay_contract.Settlement.Storage.Access.{
  IsApproved, Unchanged, verify_admins_sound, assert_admin_sound,
}
use betta_pay_contract.Settlement.Fees.{
  assert_governance_reachable, invoke_governance_get_fee_config,
}
use betta_pay_contract.Settlement.Timelock.{
  is_cancel_recovery, check_operation, schedule, validate_scheduled_execution,
  consume_scheduled_operation, cancel,
}

-- A condition on the entry of a slot, which is there.
abbrev pub OfEntry : (ScheduledOp → Type 0) → Option ScheduledOp → Type 0
OfEntry P (some e) = P e
OfEntry P none = ⊥

-- What `schedule` has checked, and the storage that it leaves.
pub record Scheduled (h : Host) (s s' : Store) (signers : List Address) (op : Operation) (delay : ℕ)
    : Type 0 where
  pub approved : IsApproved h s signers
  pub unpaused : is_paused s ≡ false
  pub delay_min : 604800 ≤ delay
  pub delay_max : delay ≤ 2592000
  pub short : length (h.to_xdr op) ≤ 4096
  pub free : get s.scheduled (h.sha256 (h.to_xdr op)) ≡ none
  pub written : s' ≡ record s {
    scheduled =
        set s.scheduled
          (h.sha256 (h.to_xdr op))
          (record { operation_xdr = h.to_xdr op; execute_at = h.env.timestamp + delay });
    pending_operation_count = some (min_u32 (operation_count s + 1));
  }

-- The slot of an operation holds this very operation.
abbrev pub Holds : Host → Store → Operation → Type 0
Holds h s op =
    OfEntry (λ e. e.operation_xdr ≡ h.to_xdr op) (get s.scheduled (h.sha256 (h.to_xdr op)))

-- What an execution has checked before it runs the operation.
pub record Ready (h : Host) (s : Store) (op : Operation) : Type 0 where
  pub unpaused : is_paused s ≡ false
  pub held : Holds h s op
  pub elapsed :
      OfEntry (λ e. e.execute_at ≤ h.env.timestamp) (get s.scheduled (h.sha256 (h.to_xdr op)))
  pub no_recovery : (is_some s.pending_recovery ≡ false) ⊎ (is_cancel_recovery op ≡ true)

-- The storage with a slot emptied and the count one less, down to zero.
abbrev pub consumed : Hash → Store → Store
consumed key s = record s {
  scheduled = delete s.scheduled key;
  pending_operation_count = some (operation_count s - 1);
}

module _ (h : Host) where
  pub governance_reachable-Unchanged :
      (l : State) → Ensures (assert_governance_reachable h l) (λ _ l'. Unchanged l l')
  unfolding assert_governance_reachable read_governance invoke_governance_get_fee_config
  governance_reachable-Unchanged l = ground arith

  check_operation-same :
      (op : Operation) (l : State) → Ensures (check_operation op l) (λ _ l'. l' ≡ l)
  check_operation-same op l = ground arith

  -- A `schedule` that returns was approved by a quorum of the stored admins while the contract was
  -- not paused, with a delay from 7 to 30 days and an encoding of at most 4,096 bytes, and the
  -- operation's slot was free. It stores the encoding with the time of execution, the present plus
  -- the delay, and counts the operation; nothing else in the storage changes.
  pub schedule-Scheduled :
      (signers : List Address) (op : Operation) (delay : ℕ) (l : State)
      → Ensures
          (schedule h signers op delay l)
          (λ _ l'. Scheduled h l.store l'.store signers op delay)
  unfolding schedule increment_pending_operation_count
  schedule-Scheduled signers op delay l =
      bind-Ensures _ (assert_admin_and_not_paused h signers) _ l (assert_admin_sound h signers l)
        λ _ l1 approved. pass-Ensures _ (first signers) _ l1 λ caller l2 e2.
          pass-Ensures _ (refuse (delay == 0) execution_not_ready) _ l2 λ _ l3 e3.
            pass-Ensures _ (refuse (ltb delay min_timelock_delay_seconds) execution_not_ready) _ l3
              λ _ l4 e4.
                pass-Ensures _
                  (refuse (ltb max_timelock_delay_seconds delay) execution_delay_too_long) _ l4
                  λ _ l5 e5.
                    bind-Ensures _ (check_operation op) _ l5 (check_operation-same op l5) λ _ l6 e6.
                      pass-Ensures _
                        (refuse (ltb max_scheduled_operation_payload_len (length (h.to_xdr op)))
                          payload_too_large)
                        _ l6
                        λ _ l7 e7.
                          bind-Ensures _ (assert_governance_reachable h) _ l7
                            (governance_reachable-Unchanged l7) λ _ l8 e8. ground arith

  pub validate-Ready :
      (op : Operation) (l : State)
      → Ensures
          (validate_scheduled_execution h op l)
          (λ key l'. (key ≡ h.sha256 (h.to_xdr op)) × Ready h l.store op × (l' ≡ l))
  unfolding validate_scheduled_execution
  validate-Ready op l = grind (arith, same-eq)

  pub consume-eq :
      (key : Hash) (l : State)
      → consume_scheduled_operation key l ≡ ok (tt, record l { store = consumed key l.store })
  unfolding consume_scheduled_operation decrement_pending_operation_count
  consume-eq key l = refl

  -- A `cancel` that returns was approved by a quorum of the stored admins while the contract was
  -- not paused, and the operation was scheduled. It empties the operation's slot and takes one
  -- from the count, down to zero; nothing else in the storage changes.
  pub cancel-consumed :
      (signers : List Address) (op : Operation) (l : State)
      → Ensures (cancel h signers op l) (λ _ l'.
        IsApproved h l.store signers
        × (is_paused l.store ≡ false)
        × Holds h l.store op
        × (l'.store ≡ consumed (h.sha256 (h.to_xdr op)) l.store))
  unfolding cancel consume_scheduled_operation decrement_pending_operation_count
  cancel-consumed signers op l = grind (arith, verify_admins_sound h signers, same-eq)
