-- ===== src/Settlement/Invariant/Transitions.antt =====
-- Recoveries and changes of the threshold keep the invariant of the settlement contract's storage.
use betta_pay_contract.Base.{ℕ, ◌≡◌, Option, none, some, List, arith}
use betta_pay_contract.Settlement.Invariant.{IsValid, AdminsValid}
use betta_pay_contract.Common.Env.{Address}
use betta_pay_contract.Common.Recovery.{RecoveryEntry, pending, undecodable}
use betta_pay_contract.Settlement.State.{Store, State, Host}
use betta_pay_contract.Settlement.Admin.Effect.{
  Recovered, Initiated, Cancelled, OfPending, OfAddress, OfAdmins, ThresholdChanged,
}
use betta_pay_contract.Settlement.Invariant.Arms.{cleared-IsValid}

module _ (h : Host) where
  pub Initiated-IsValid :
      (a : Address) (l l' : State)
      → OfAddress (Initiated h l.store l'.store a) l.store.recovery_address
      → IsValid l.store
      → IsValid l'.store
  Initiated-IsValid a l l' e v = at l.store.recovery_address e
    where
      at : (o : Option Address) → OfAddress (Initiated h l.store l'.store a) o → IsValid l'.store
      at (some r) i = record {
        admins = ground (arith, v.admins, i.written);
        recovery = ground (arith, i.nonzero, i.written);
        default = ground (arith, v.default, i.written);
        rules = λ k. ground (arith, v.rules k, i.written);
      }
      at none i = elim i [ ]

  pub Recovered-IsValid :
      (l l' : State)
      → OfPending (Recovered h l.store l'.store) l.store.pending_recovery
      → IsValid l.store
      → IsValid l'.store
  Recovered-IsValid l l' e v = at l.store.pending_recovery e
    where
      at :
          (o : Option RecoveryEntry) → OfPending (Recovered h l.store l'.store) o → IsValid l'.store
      at (some (pending p)) i = record {
        admins = ground (arith, i.valid, i.written);
        recovery = ground (arith, i.written);
        default = ground (arith, v.default, i.written);
        rules = λ k. ground (arith, v.rules k, i.written);
      }
      at (some undecodable) i = elim i [ ]
      at none i = elim i [ ]

  pub Cancelled-IsValid :
      (signers : List Address) (l l' : State)
      → OfPending (Cancelled h l.store l'.store signers) l.store.pending_recovery
      → IsValid l.store
      → IsValid l'.store
  Cancelled-IsValid signers l l' e v = at l.store.pending_recovery e
    where
      at :
          (o : Option RecoveryEntry)
          → OfPending (Cancelled h l.store l'.store signers) o
          → IsValid l'.store
      at (some (pending p)) i = cleared-IsValid l.store l'.store i.written v
      at (some undecodable) i = elim i [ ]
      at none i = elim i [ ]

  lowered :
      (signers : List Address) (n : ℕ) (s s' : Store) (admins : Option (List Address))
      (current : Option ℕ)
      → OfAdmins (ThresholdChanged h s s' signers n) admins current
      → AdminsValid admins current
      → AdminsValid admins (some n) × (s' ≡ record s { threshold = some n })
  lowered signers n s s' (some admins) (some current) e v = (
    record {
      positive = e.positive;
      reachable = e.reachable;
      nonzero = v.nonzero;
      distinct = v.distinct;
    },
    e.written,
  )
  lowered signers n s s' (some admins) none e v = elim e [ ]
  lowered signers n s s' none current e v = elim e [ ]

  pub lowered-IsValid :
      (signers : List Address) (n : ℕ) (l l' : State)
      → OfAdmins (ThresholdChanged h l.store l'.store signers n) l.store.admins l.store.threshold
      → IsValid l.store
      → IsValid l'.store
  lowered-IsValid signers n l l' e v =
      let low = lowered signers n l.store l'.store l.store.admins l.store.threshold e v.admins in
      record {
        admins = ground (arith, low);
        recovery = ground (arith, v.recovery, low);
        default = ground (arith, v.default, low);
        rules = λ k. ground (arith, v.rules k, low);
      }
