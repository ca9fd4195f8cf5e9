-- ===== src/Settlement/Admin/Liveness.antt =====
-- A recovery that is initiated comes to its end unless it is cancelled.
use betta_pay_contract.Base.{ℕ, ◌+◌, ◌≤◌, ◌≡◌, ◌≢◌, Option, none, some, [], ◌∷◌, arith, ◌∙◌}
use mathlib.Core.Path.{subst}
use betta_pay_contract.Base.Ledger.{ok, Ensures, Returns}
use betta_pay_contract.Common.Env.{Env, Address}
use betta_pay_contract.Common.Recovery.{pending}
use betta_pay_contract.Settlement.State.{State, Host, later}
use betta_pay_contract.Settlement.Admin.{initiate_recovery, execute_recovery}
use betta_pay_contract.Settlement.Admin.Effect.{Initiated, OfAddress, initiate_recovery_effect}
use betta_pay_contract.Settlement.Admin.Delay.{execute_recovery_returns}

-- `execute_recovery` returns and makes the address the only admin, with threshold 1.
abbrev pub Recovers : Host → Address → State → Type 0
Recovers h new_admin l =
    Returns (execute_recovery h l)
    × Ensures (execute_recovery h l) (λ _ l'.
      (l'.store.admins ≡ some (new_admin ∷ []))
      × (l'.store.threshold ≡ some 1)
      × (l'.store.pending_recovery ≡ none))

recovers :
    (h : Host) (initiator new_admin : Address) (at : ℕ) (l : State)
    → l.store.pending_recovery
      ≡ some
          (pending (record { new_admin = new_admin; execute_after = at; initiated_by = initiator }))
    → at ≤ h.env.timestamp
    → new_admin ≢ 0
    → Recovers h new_admin l
recovers h initiator new_admin at l e due nonzero = ground (
  arith,
  execute_recovery_returns h
      (record { new_admin = new_admin; execute_after = at; initiated_by = initiator }) l e due
      nonzero,
)

-- If `initiate_recovery` has returned, then in every later state in which the pending recovery is as
-- it left it, `execute_recovery` returns at every moment from 7 days (604,800 seconds) after the
-- initiation on, whoever calls it; it makes the new address the only admin, with threshold 1, and
-- no recovery is pending any more.
pub initiate-Recovers :
    (h : Host) (env : Env) (new_admin : Address) (l l' m : State)
    → initiate_recovery h new_admin l ≡ ok (tt, l')
    → m.store.pending_recovery ≡ l'.store.pending_recovery
    → h.env.timestamp + 604800 ≤ env.timestamp
    → Recovers (later h env) new_admin m
initiate-Recovers h env new_admin l l' m done kept due = at l.store.recovery_address (
    subst
      (λ r.
        Ensures r
          (λ _ x. OfAddress (Initiated h l.store x.store new_admin) l.store.recovery_address))
      done (initiate_recovery_effect h new_admin l))
  where
    at :
        (o : Option Address)
        → OfAddress (Initiated h l.store l'.store new_admin) o
        → Recovers (later h env) new_admin m
    at (some r) i =
        recovers (later h env) r new_admin (h.env.timestamp + 604800) m
          (kept ∙ ground (arith, i.written)) due i.nonzero
    at none i = elim i [ ]
