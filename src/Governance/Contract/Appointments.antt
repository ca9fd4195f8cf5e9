-- ===== src/Governance/Contract/Appointments.antt =====
-- Every recovery that the governance contract executes was initiated, at least 7 days before.
use betta_pay_contract.Base.{
  ℕ, ◌+◌, ◌≤◌, ◌≡◌, refl, ◌⊎◌, true, Option, none, some, List, [], ◌∷◌, arith, ap, inl, inr, ◌∙◌,
}
use mathlib.Core.Path.{sym}
use betta_pay_contract.Base.Ledger.{Result, ok, panic, trap, Ensures, weaken-Ensures}
use betta_pay_contract.Common.Env.{Env, Address, Hash}
use betta_pay_contract.Common.Recovery.{PendingRecovery, RecoveryEntry, pending, undecodable}
use betta_pay_contract.Governance.State.{Store, State, GovernanceError}
use betta_pay_contract.Governance.Contract.{execute_recovery}
use betta_pay_contract.Governance.Contract.Invariant.{Request, handle}
use betta_pay_contract.Governance.Contract.Runs.{run, start, after}
use betta_pay_contract.Governance.Contract.Recoveries.{
  entry_at, RecoveryStep, OfPending, execute_effect, handle-RecoveryStep,
}

-- The call initiates the recovery to the address, authorized by the stored recovery address while
-- no recovery was pending, 7 days or more before the time.
pub record Announces (env : Env) (request : Request) (s : Store) (new_admin : Address) (now : ℕ)
    : Type 0 where
  pub recovery : Address
  pub asked : request ≡ Request.initiate_recovery_request new_admin
  pub known : s.recovery_address ≡ some recovery
  pub agreed : env.authorized recovery ≡ true
  pub free : s.pending_recovery ≡ none
  pub week : env.timestamp + 604800 ≤ now

-- A recovery that is pending after a call was so before it, or the call has announced it.
RecoveryStep-origin :
    (env : Env) (request : Request) (s s' : Store) (p : PendingRecovery) (now : ℕ)
    → RecoveryStep env request s s'
    → s'.pending_recovery ≡ some (pending p)
    → p.execute_after ≤ now
    → (s.pending_recovery ≡ some (pending p)) ⊎ Announces env request s p.new_admin now
RecoveryStep-origin env request s s' p now (RecoveryStep.kept k) f due = inl (sym k ∙ f)
RecoveryStep-origin env request s s' p now (RecoveryStep.dropped d) f due = cc
RecoveryStep-origin env request s s' p now (RecoveryStep.announced a r asked known ok_ free w) f
      due =
    let same : entry_at env a r ≡ p = ground (arith, w, f) in
    inr (record {
      recovery = r;
      asked = asked ∙ ap (λ x. Request.initiate_recovery_request x.new_admin) same;
      known = known;
      agreed = ok_;
      free = free;
      week = ground (arith, ap (λ x. x.execute_after) same);
    })

after-origin :
    (env : Env) (request : Request) (l : State) (r : Result GovernanceError (Unit {0} × State))
    (p : PendingRecovery) (now : ℕ)
    → Ensures r (λ _ l'. RecoveryStep env request l.store l'.store)
    → (after l r).store.pending_recovery ≡ some (pending p)
    → p.execute_after ≤ now
    → (l.store.pending_recovery ≡ some (pending p)) ⊎ Announces env request l.store p.new_admin now
after-origin env request l (ok (_, l')) p now step f due =
    RecoveryStep-origin env request l.store l'.store p now step f due
after-origin env request l (panic _) p now step f due = inl f
after-origin env request l trap p now step f due = inl f

-- One of the calls initiates the recovery to the address, in the storage that the calls before it
-- leave.
abbrev pub Announced : List (Env × Request) → State → Address → ℕ → Type 0
Announced [] l new_admin now = ⊥
Announced ((env, request) ∷ calls) l new_admin now =
    Announces env request l.store new_admin now
    ⊎ Announced calls (after l (handle env request l)) new_admin now

run-Announced :
    (calls : List (Env × Request)) (l : State) (p : PendingRecovery) (now : ℕ)
    → (run calls l).store.pending_recovery ≡ some (pending p)
    → p.execute_after ≤ now
    → (l.store.pending_recovery ≡ some (pending p)) ⊎ Announced calls l p.new_admin now
unfolding run
run-Announced [] l p now f due = inl f
run-Announced ((env, request) ∷ calls) l p now f due =
    elim (run-Announced calls (after l (handle env request l)) p now f due) [
      | inr later_call ↦ inr (inr later_call)
      | inl found ↦
          elim (after-origin env request l (handle env request l) p now
            (handle-RecoveryStep env request l) found due) [ inl b ↦ inl b | inr a ↦ inr (inl a) ]
    ]

-- The new storage has one admin, whose recovery one of the calls has initiated.
pub record Appointed (calls : List (Env × Request)) (l : State) (s' : Store) (now : ℕ)
    : Type 0 where
  pub new_admin : Address
  pub admins : s'.admins ≡ some (new_admin ∷ [])
  pub threshold : s'.threshold ≡ some 1
  pub announced : Announced calls l new_admin now

appointment :
    (code : Hash) (calls : List (Env × Request)) (s' : Store) (now : ℕ) (o : Option RecoveryEntry)
    → (run calls (start code)).store.pending_recovery ≡ o
    → s'.threshold ≡ some 1
    → OfPending (λ p. (p.execute_after ≤ now) × (s'.admins ≡ some (p.new_admin ∷ []))) o
    → Appointed calls (start code) s' now
appointment code calls s' now (some (pending p)) f t e =
    elim (run-Announced calls (start code) p now f e.0) [
      | inl found ↦ cc
      | inr a ↦ record { new_admin = p.new_admin; admins = e.1; threshold = t; announced = a }
    ]
appointment code calls s' now (some undecodable) f t e = elim e [ ]
appointment code calls s' now none f t e = elim e [ ]

-- After every sequence of calls from the deployment on, an `execute_recovery` of the governance
-- contract that returns leaves a single admin with threshold 1, and one of the calls has initiated
-- the recovery to this admin: the recovery address stored at that moment had authorized it, no
-- other recovery was pending, and at least 7 days (604,800 seconds) have passed since. The clock
-- need not be monotonic.
pub execute_recovery-Appointed :
    (code : Hash) (calls : List (Env × Request)) (env : Env)
    → Ensures
        (execute_recovery env (run calls (start code)))
        (λ _ l'. Appointed calls (start code) l'.store env.timestamp)
execute_recovery-Appointed code calls env =
    let l : State = run calls (start code) in
    weaken-Ensures _ (execute_recovery env l) (execute_effect env l)
      λ _ l' e. appointment code calls l'.store env.timestamp l.store.pending_recovery refl e.1 e.2
