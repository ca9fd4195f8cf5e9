-- ===== src/Settlement/History/Appointments.antt =====
-- Every recovery that the settlement contract executes was initiated, at least 7 days before.
use betta_pay_contract.Base.{
  ℕ, ◌+◌, ◌≤◌, ◌≡◌, ◌≢◌, refl, ◌⊎◌, true, Option, none, some, List, [], ◌∷◌, arith, ap, inl, inr,
  ◌∙◌,
}
use mathlib.Core.Path.{sym, subst}
use betta_pay_contract.Base.Ledger.{Result, ok, panic, trap, Ensures, weaken-Ensures}
use betta_pay_contract.Common.Env.{Address, Hash}
use betta_pay_contract.Common.Recovery.{PendingRecovery, RecoveryEntry, pending, undecodable}
use betta_pay_contract.Settlement.Types.{SettlementError}
use betta_pay_contract.Settlement.State.{Store, State, Host}
use betta_pay_contract.Settlement.Admin.{execute_recovery}
use betta_pay_contract.Settlement.Admin.Effect.{
  Recovered, Initiated, OfPending, execute_recovery_effect,
}
use betta_pay_contract.Settlement.Invariant.Requests.{Request, handle}
use betta_pay_contract.Settlement.History.Runs.{run, start, after}
use betta_pay_contract.Settlement.History.Recoveries.{RecoveryStep, handle-RecoveryStep}

-- The call is an `initiate_recovery` to the address, which is not zero, authorized by the stored
-- recovery address while no recovery was pending, 7 days or more before the time. It returned, and
-- left the recovery pending.
pub record Announces (h : Host) (request : Request) (l : State) (new_admin : Address) (now : ℕ)
    : Type 0 where
  pub next : State
  pub recovery : Address
  pub asked : request ≡ Request.initiate_recovery_request new_admin
  pub returned : handle h request l ≡ ok (tt, next)
  pub known : l.store.recovery_address ≡ some recovery
  pub agreed : h.env.authorized recovery ≡ true
  pub nonzero : new_admin ≢ 0
  pub free : l.store.pending_recovery ≡ none
  pub written :
      next.store.pending_recovery
      ≡ some (
          pending (record {
            new_admin = new_admin;
            execute_after = h.env.timestamp + 604800;
            initiated_by = recovery;
          }))
  pub week : h.env.timestamp + 604800 ≤ now

-- One of the calls initiates the recovery to the address, in the storage that the calls before it
-- leave.
abbrev pub Announced : List (Host × Request) → State → Address → ℕ → Type 0
Announced [] l new_admin now = ⊥
Announced ((h, request) ∷ calls) l new_admin now =
    Announces h request l new_admin now
    ⊎ Announced calls (after l (handle h request l)) new_admin now

-- A recovery that is pending after a call was so before it, or the call has announced it.
abbrev Origin : Host → Request → State → PendingRecovery → ℕ → Type 0
Origin h request l p now =
    (l.store.pending_recovery ≡ some (pending p)) ⊎ Announces h request l p.new_admin now

announce_origin :
    (h : Host) (request : Request) (l l' : State) (p : PendingRecovery) (a r : Address) (now : ℕ)
    → handle h request l ≡ ok (tt, l')
    → request ≡ Request.initiate_recovery_request a
    → l.store.recovery_address ≡ some r
    → Initiated h l.store l'.store a r
    → l'.store.pending_recovery ≡ some (pending p)
    → p.execute_after ≤ now
    → Announces h request l p.new_admin now
announce_origin h request l l' p a r now returned asked known i f due =
    let entry : PendingRecovery = record {
      new_admin = a;
      execute_after = h.env.timestamp + 604800;
      initiated_by = r;
    } in
    let same : entry ≡ p = ground (arith, i.written, f) in
    let to_new : a ≡ p.new_admin = ap (λ x. x.new_admin) same in
    subst (λ b. Announces h request l b now) to_new
      (record {
        next = l';
        recovery = r;
        asked = asked;
        returned = returned;
        known = known;
        agreed = i.agreed;
        nonzero = i.nonzero;
        free = i.free;
        written = ground (arith, i.written);
        week = ground (arith, ap (λ x. x.execute_after) same);
      })

step_origin :
    (h : Host) (request : Request) (l l' : State) (p : PendingRecovery) (now : ℕ)
    → handle h request l ≡ ok (tt, l')
    → RecoveryStep h request l.store l'.store
    → l'.store.pending_recovery ≡ some (pending p)
    → p.execute_after ≤ now
    → Origin h request l p now
step_origin h request l l' p now returned (RecoveryStep.kept k) f due = inl (sym k ∙ f)
step_origin h request l l' p now returned (RecoveryStep.removed d) f due = cc
step_origin h request l l' p now returned (RecoveryStep.announced a r asked known i) f due =
    inr (announce_origin h request l l' p a r now returned asked known i f due)

after_origin :
    (h : Host) (request : Request) (l : State) (r : Result SettlementError (Unit {0} × State))
    (p : PendingRecovery) (now : ℕ)
    → handle h request l ≡ r
    → Ensures r (λ _ l'. RecoveryStep h request l.store l'.store)
    → (after l r).store.pending_recovery ≡ some (pending p)
    → p.execute_after ≤ now
    → Origin h request l p now
after_origin h request l (ok (_, l')) p now same step f due =
    step_origin h request l l' p now same step f due
after_origin h request l (panic _) p now same step f due = inl f
after_origin h request l trap p now same step f due = inl f

run-Announced :
    (calls : List (Host × Request)) (l : State) (p : PendingRecovery) (now : ℕ)
    → (run calls l).store.pending_recovery ≡ some (pending p)
    → p.execute_after ≤ now
    → (l.store.pending_recovery ≡ some (pending p)) ⊎ Announced calls l p.new_admin now
unfolding run
run-Announced [] l p now f due = inl f
run-Announced ((h, request) ∷ calls) l p now f due =
    elim (run-Announced calls (after l (handle h request l)) p now f due) [
      | inr later_call ↦ inr (inr later_call)
      | inl found ↦
          elim (after_origin h request l (handle h request l) p now refl
            (handle-RecoveryStep h request l) found due) [ inl b ↦ inl b | inr a ↦ inr (inl a) ]
    ]

-- The new storage has one admin, whose recovery one of the calls has initiated.
pub record Appointed (calls : List (Host × Request)) (l : State) (s' : Store) (now : ℕ)
    : Type 0 where
  pub new_admin : Address
  pub admins : s'.admins ≡ some (new_admin ∷ [])
  pub threshold : s'.threshold ≡ some 1
  pub announced : Announced calls l new_admin now

appointment :
    (code : Hash) (calls : List (Host × Request)) (h : Host) (s' : Store) (o : Option RecoveryEntry)
    → (run calls (start code)).store.pending_recovery ≡ o
    → OfPending (Recovered h ((run calls (start code)).store) s') o
    → Appointed calls (start code) s' h.env.timestamp
appointment code calls h s' (some (pending p)) f e =
    elim (run-Announced calls (start code) p h.env.timestamp f e.elapsed) [
      | inl found ↦ cc
      | inr a ↦ record {
        new_admin = p.new_admin;
        admins = ground (arith, e.written);
        threshold = ground (arith, e.written);
        announced = a;
      }
    ]
appointment code calls h s' (some undecodable) f e = elim e [ ]
appointment code calls h s' none f e = elim e [ ]

-- After every sequence of calls from the deployment on, an `execute_recovery` of the settlement
-- contract that returns leaves a single admin with threshold 1, and one of the calls
-- has initiated the recovery to this admin, whose address is not zero, and returned: the recovery address stored at that moment had authorized it, no other recovery was
-- pending, and at least 7 days (604,800 seconds) have passed since. The clock need not be
-- monotonic.
pub settlement_recovery-Appointed :
    (code : Hash) (calls : List (Host × Request)) (h : Host)
    → Ensures
        (execute_recovery h (run calls (start code)))
        (λ _ l'. Appointed calls (start code) l'.store h.env.timestamp)
settlement_recovery-Appointed code calls h =
    let l : State = run calls (start code) in
    weaken-Ensures _ (execute_recovery h l) (execute_recovery_effect h l)
      λ _ l' e. appointment code calls h l'.store l.store.pending_recovery refl e
