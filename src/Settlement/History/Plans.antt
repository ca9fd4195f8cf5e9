-- ===== src/Settlement/History/Plans.antt =====
-- Every operation that the timelock executes was scheduled, at least 7 days before.
use mathlib.Core.Path.{subst}
use betta_pay_contract.Base.{
  ℕ, ◌+◌, ◌≤◌, ◌==◌, ◌≡◌, refl, ◌⊎◌, Option, none, some, List, [], ◌∷◌, arith, ap, Bool-cases, inl,
  inr,
}
use betta_pay_contract.Base.Dict.{get, get-set}
use betta_pay_contract.Base.Ledger.{Result, ok, panic, trap, Ensures, weaken-Ensures}
use betta_pay_contract.Common.Env.{Address, Bytes, Hash}
use betta_pay_contract.Settlement.Types.{SettlementError, Operation, ScheduledOp}
use betta_pay_contract.Settlement.State.{State, Host}
use betta_pay_contract.Settlement.Timelock.{hash_of, execute}
use betta_pay_contract.Settlement.Timelock.Effect.{OfEntry, Scheduled}
use betta_pay_contract.Settlement.Timelock.Safety.{execute-consumed}
use betta_pay_contract.Settlement.Invariant.Requests.{Request, handle}
use betta_pay_contract.Settlement.History.Queue.{QueueStep, handle-QueueStep}
use betta_pay_contract.Settlement.History.Runs.{run, start, deployed, after}

-- The call is a `schedule` of an operation with this encoding. It returned, so that all that is
-- checked of it held and its slot was filled; it was 7 days or more before the time, and the delay
-- has passed at the time.
pub record Plans (h : Host) (request : Request) (l : State) (encoded : Bytes) (now : ℕ)
    : Type 0 where
  pub next : State
  pub signers : List Address
  pub op : Operation
  pub delay : ℕ
  pub asked : request ≡ Request.schedule_request signers op delay
  pub returned : handle h request l ≡ ok (tt, next)
  pub filled : Scheduled h l.store next.store signers op delay
  pub encoding : h.to_xdr op ≡ encoded
  pub week : h.env.timestamp + 604800 ≤ now
  pub due : h.env.timestamp + delay ≤ now

-- A slot that is taken after a call was taken before it, or the call has planned its operation.
pub data SlotOrigin (h : Host) (request : Request) (l : State) (key : Hash) (e : ScheduledOp)
    (now : ℕ) : Type 0 where
  before : get l.store.scheduled key ≡ some e → SlotOrigin h request l key e now
  planned : Plans h request l e.operation_xdr now → SlotOrigin h request l key e now

QueueStep-SlotOrigin :
    (h : Host) (request : Request) (l l' : State) (key : Hash) (e : ScheduledOp) (now : ℕ)
    → handle h request l ≡ ok (tt, l')
    → QueueStep h request l.store l'.store
    → get l'.store.scheduled key ≡ some e
    → e.execute_at ≤ now
    → SlotOrigin h request l key e now
QueueStep-SlotOrigin h request l l' key e now returned (QueueStep.shrunk sub) f due =
    SlotOrigin.before (sub.kept key e f)
QueueStep-SlotOrigin h request l l' key e now returned (QueueStep.filled signers op delay asked w) f
      due =
    let entry : ScheduledOp = record {
      operation_xdr = h.to_xdr op;
      execute_at = h.env.timestamp + delay;
    } in
    let slots = get-set l.store.scheduled (hash_of h op) key entry in
    elim (Bool-cases (key == hash_of h op)) [
      | inr other ↦ SlotOrigin.before (ground (arith, w.written, slots))
      | inl here ↦
          let same_entry : entry ≡ e = ground (arith, w.written, slots) in
          SlotOrigin.planned (record {
            next = l';
            signers = signers;
            op = op;
            delay = delay;
            asked = asked;
            returned = returned;
            filled = w;
            encoding = ap (λ x. x.operation_xdr) same_entry;
            week = ground (arith, ap (λ x. x.execute_at) same_entry, w.delay_min);
            due = ground (arith, ap (λ x. x.execute_at) same_entry);
          })
    ]

-- One of the calls plans the operation, in the storage that the calls before it leave.
abbrev pub Planned : List (Host × Request) → State → Bytes → ℕ → Type 0
Planned [] l encoded now = ⊥
Planned ((h, request) ∷ calls) l encoded now =
    Plans h request l encoded now ⊎ Planned calls (after l (handle h request l)) encoded now

after-SlotOrigin :
    (h : Host) (request : Request) (l : State) (r : Result SettlementError (Unit {0} × State))
    (key : Hash) (e : ScheduledOp) (now : ℕ)
    → handle h request l ≡ r
    → Ensures r (λ _ l'. QueueStep h request l.store l'.store)
    → get ((after l r).store.scheduled) key ≡ some e
    → e.execute_at ≤ now
    → SlotOrigin h request l key e now
after-SlotOrigin h request l (ok (_, l')) key e now same step f due =
    QueueStep-SlotOrigin h request l l' key e now same step f due
after-SlotOrigin h request l (panic _) key e now same step f due = SlotOrigin.before f
after-SlotOrigin h request l trap key e now same step f due = SlotOrigin.before f

run-Planned :
    (calls : List (Host × Request)) (l : State) (key : Hash) (e : ScheduledOp) (now : ℕ)
    → get ((run calls l).store.scheduled) key ≡ some e
    → e.execute_at ≤ now
    → (get l.store.scheduled key ≡ some e) ⊎ Planned calls l e.operation_xdr now
unfolding run
run-Planned [] l key e now f due = inl f
run-Planned ((h, request) ∷ calls) l key e now f due =
    elim (run-Planned calls (after l (handle h request l)) key e now f due) [
      | inr later_plan ↦ inr (inr later_plan)
      | inl found ↦
          elim (after-SlotOrigin h request l (handle h request l) key e now refl
            (handle-QueueStep h request l) found due) [
              | SlotOrigin.before b ↦ inl b
              | SlotOrigin.planned p ↦ inr (inl p)
            ]
    ]

deployed_free : (code key : Hash) (e : ScheduledOp) → ¬ (get (deployed code).scheduled key ≡ some e)
unfolding get
deployed_free code key e f = ground arith

plan_at_slot :
    (calls : List (Host × Request)) (code key : Hash) (encoded : Bytes) (now : ℕ)
    (o : Option ScheduledOp)
    → get ((run calls (start code)).store.scheduled) key ≡ o
    → OfEntry (λ e. e.operation_xdr ≡ encoded) o
    → OfEntry (λ e. e.execute_at ≤ now) o
    → Planned calls (start code) encoded now
plan_at_slot calls code key encoded now (some e) f same due =
    elim (run-Planned calls (start code) key e now f due) [
      | inl found ↦ elim (deployed_free code key e found) [ ]
      | inr plan ↦ subst (λ b. Planned calls (start code) b now) same plan
    ]
plan_at_slot calls code key encoded now none f same due = elim same [ ]

-- After every sequence of calls from the deployment on, an `execute` that returns runs an operation
-- that one of the calls has scheduled, with the same encoding: a `schedule` that returned and filled
-- the slot, approved by a quorum of the admins of that moment while the contract was not paused, at
-- least 7 days (604,800 seconds) before, and the delay that they chose has passed. The encoder and the hash need not be
-- injective, nor the clock monotonic.
pub execute-Planned :
    (code : Hash) (calls : List (Host × Request)) (h : Host) (executor : Address) (op : Operation)
    → Ensures
        (execute h executor op (run calls (start code)))
        (λ _ _. Planned calls (start code) (h.to_xdr op) h.env.timestamp)
execute-Planned code calls h executor op =
    let l : State = run calls (start code) in
    weaken-Ensures _ (execute h executor op l) (execute-consumed h executor op l) λ _ l' e.
      plan_at_slot calls code (hash_of h op) (h.to_xdr op) h.env.timestamp
        (get l.store.scheduled (hash_of h op)) refl e.0.held e.0.elapsed
