-- ===== src/Settlement/Timelock/Liveness.antt =====
-- An operation that is scheduled is executed after its delay, by anyone.
use mathlib.Core.Path.{sym, subst}
use betta_pay_contract.Base.{ℕ, ◌+◌, ◌≤◌, ◌≡◌, refl, false, none, some, List, arith, ◌∙◌, inl}
use betta_pay_contract.Base.Dict.{get, get-set}
use betta_pay_contract.Base.Ledger.{ok, Ensures, Returns}
use betta_pay_contract.Common.Env.{Env, Address}
use betta_pay_contract.Settlement.Types.{Operation, ScheduledOp}
use betta_pay_contract.Settlement.State.{Store, State, Host, later}
use betta_pay_contract.Settlement.Storage.{is_paused}
use betta_pay_contract.Settlement.Operations.{run_operation}
use betta_pay_contract.Settlement.Timelock.{schedule, execute, hash_of}
use betta_pay_contract.Settlement.Timelock.Effect.{
  Scheduled, Ready, consumed, OfEntry, schedule-Scheduled,
}
use betta_pay_contract.Settlement.Timelock.Success.{execute-Returns}

held-Ready :
    (h : Host) (op : Operation) (at : ℕ) (s : Store)
    → get s.scheduled (hash_of h op)
      ≡ some (record { operation_xdr = h.to_xdr op; execute_at = at })
    → at ≤ h.env.timestamp
    → is_paused s ≡ false
    → s.pending_recovery ≡ none
    → Ready h s op
held-Ready h op at s e due unpaused free = record {
  unpaused = unpaused;
  held = subst (OfEntry (λ o. o.operation_xdr ≡ h.to_xdr op)) (sym e) refl;
  elapsed = subst (OfEntry (λ o. o.execute_at ≤ h.env.timestamp)) (sym e) due;
  no_recovery = inl (ground arith);
}

-- If `schedule` has returned, then in every later state in which the operation's slot is as it left
-- it, the contract is not paused, no recovery is pending, and the operation runs once its slot is
-- emptied, `execute` returns for every caller from the end of the chosen delay on.
pub schedule-execute-Returns :
    (h : Host) (env : Env) (executor : Address) (signers : List Address) (op : Operation)
    (delay : ℕ) (l l' m : State)
    → schedule h signers op delay l ≡ ok (tt, l')
    → get m.store.scheduled (hash_of h op) ≡ get l'.store.scheduled (hash_of h op)
    → is_paused m.store ≡ false
    → m.store.pending_recovery ≡ none
    → h.env.timestamp + delay ≤ env.timestamp
    → Returns (
        run_operation
          (later h env)
          executor
          op
          (record m { store = consumed (hash_of h op) m.store }))
    → Returns (execute (later h env) executor op m)
schedule-execute-Returns h env executor signers op delay l l' m done slot unpaused free due runs =
    let w : Scheduled h l.store l'.store signers op delay =
      subst (λ r. Ensures r (λ _ x. Scheduled h l.store x.store signers op delay)) done
        (schedule-Scheduled h signers op delay l) in
    let entry : ScheduledOp = record {
      operation_xdr = h.to_xdr op;
      execute_at = h.env.timestamp + delay;
    } in
    let slots = get-set l.store.scheduled (hash_of h op) (hash_of h op) entry in
    execute-Returns (later h env) executor op m
      (held-Ready (later h env) op (h.env.timestamp + delay) m.store
        (slot ∙ ground (arith, w.written, slots)) due unpaused free)
      runs
