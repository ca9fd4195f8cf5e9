-- ===== src/Settlement/Timelock/Count.antt =====
-- The stored number of scheduled operations is the number of slots that are taken.
use mathlib.Core.Path.{subst, sym}
use betta_pay_contract.Base.{
  ℕ, ◌+◌, ◌<◌, ◌≡◌, refl, true, Option, none, some, List, arith, is_some, min_u32, u32_max,
}
use betta_pay_contract.Base.Lists.{length}
use betta_pay_contract.Base.Dict.{
  get, set, IsKeyed, set-IsKeyed, delete-IsKeyed, length-set, length-delete,
}
use betta_pay_contract.Base.Ledger.{Ensures, weaken-Ensures}
use betta_pay_contract.Common.Env.{Address, Hash}
use betta_pay_contract.Settlement.Types.{ScheduledOp, Operation}
use betta_pay_contract.Settlement.State.{Store, State, Host}
use betta_pay_contract.Settlement.Storage.{operation_count}
use betta_pay_contract.Settlement.Timelock.{schedule, execute, cancel}
use betta_pay_contract.Settlement.Timelock.Effect.{
  OfEntry, consumed, schedule-Scheduled, cancel-consumed,
}
use betta_pay_contract.Settlement.Timelock.Safety.{SameSchedule, execute-consumed}

-- The slots have distinct hashes, and their number is the stored count.
pub record IsCounted (s : Store) : Type 0 where
  pub keyed : IsKeyed s.scheduled
  pub counted : operation_count s ≡ length s.scheduled

pub consumed-IsCounted :
    (key : Hash) (s : Store)
    → IsCounted s
    → is_some (get s.scheduled key) ≡ true
    → IsCounted (consumed key s)
consumed-IsCounted key s c there = record {
  keyed = delete-IsKeyed s.scheduled key c.keyed;
  counted = ground (arith, c.counted, length-delete s.scheduled key c.keyed);
}

pub added-IsCounted :
    (key : Hash) (entry : ScheduledOp) (s : Store)
    → IsCounted s
    → length s.scheduled < u32_max
    → get s.scheduled key ≡ none
    → IsCounted (record s {
      scheduled = set s.scheduled key entry;
      pending_operation_count = some (min_u32 (operation_count s + 1));
    })
added-IsCounted key entry s c few free = record {
  keyed = set-IsKeyed s.scheduled key entry c.keyed;
  counted = ground (arith, c.counted, length-set s.scheduled key entry);
}

pub same-IsCounted : (s s' : Store) → SameSchedule s s' → IsCounted s → IsCounted s'
same-IsCounted s s' e c = record {
  keyed = subst IsKeyed (sym e.0) c.keyed;
  counted = ground (arith, c.counted);
}

pub entry_present :
    (P : ScheduledOp → Type 0) (o : Option ScheduledOp) → OfEntry P o → is_some o ≡ true
entry_present P (some e) p = refl
entry_present P none p = elim p [ ]

module _ (h : Host) where
  -- While fewer than 2^32 - 1 operations are scheduled, `schedule` keeps the stored count equal to
  -- the number of slots, with distinct hashes.
  pub schedule-IsCounted :
      (signers : List Address) (op : Operation) (delay : ℕ) (l : State)
      → IsCounted l.store
      → length l.store.scheduled < u32_max
      → Ensures (schedule h signers op delay l) (λ _ l'. IsCounted l'.store)
  schedule-IsCounted signers op delay l c few =
      weaken-Ensures _ (schedule h signers op delay l) (schedule-Scheduled h signers op delay l)
        λ _ l' s. subst IsCounted (sym s.written) (added-IsCounted _ _ l.store c few s.free)

  -- `execute` keeps the stored count equal to the number of slots, with distinct hashes.
  pub execute-IsCounted :
      (executor : Address) (op : Operation) (l : State)
      → IsCounted l.store
      → Ensures (execute h executor op l) (λ _ l'. IsCounted l'.store)
  execute-IsCounted executor op l c =
      weaken-Ensures _ (execute h executor op l) (execute-consumed h executor op l) λ _ l' e.
        same-IsCounted (consumed (h.sha256 (h.to_xdr op)) l.store) l'.store e.1 (
          consumed-IsCounted (h.sha256 (h.to_xdr op)) l.store c
            (entry_present _ (get l.store.scheduled (h.sha256 (h.to_xdr op))) e.0.held))

  -- `cancel` keeps the stored count equal to the number of slots, with distinct hashes.
  pub cancel-IsCounted :
      (signers : List Address) (op : Operation) (l : State)
      → IsCounted l.store
      → Ensures (cancel h signers op l) (λ _ l'. IsCounted l'.store)
  cancel-IsCounted signers op l c =
      weaken-Ensures _ (cancel h signers op l) (cancel-consumed h signers op l) λ _ l' e.
        subst IsCounted (sym e.3) (
          consumed-IsCounted (h.sha256 (h.to_xdr op)) l.store c
            (entry_present _ (get l.store.scheduled (h.sha256 (h.to_xdr op))) e.2))
