-- ===== src/Settlement/Admin/Delay.antt =====
-- What a recovery of the admin key promises, and what it does not check.
use betta_pay_contract.Base.{
  ◌+◌, ◌≤◌, ◌<◌, ◌≡◌, ◌≢◌, false, Option, none, some, [], ◌∷◌, arith, unwrap_or,
}
use betta_pay_contract.Base.Ledger.{ok, instance_entry, Ensures, weaken-Ensures}
use betta_pay_contract.Common.Env.{Env, Address}
use betta_pay_contract.Common.Auth.{validate_set, validate_each}
use betta_pay_contract.Common.Recovery.{PendingRecovery, pending}
use betta_pay_contract.Settlement.Types.{Operation}
use betta_pay_contract.Settlement.State.{State, Event, Host, later}
use betta_pay_contract.Settlement.Storage.{
  read_pending_recovery, write_admins, validate_admins_and_threshold,
}
use betta_pay_contract.Settlement.Admin.{initiate_recovery, execute_recovery}
use betta_pay_contract.Settlement.Admin.Effect.{
  Initiated, OfPending, OfAddress, initiate_recovery_effect, execute_recovery_effect,
}
use betta_pay_contract.Settlement.Timelock.{execute, is_cancel_recovery}
use betta_pay_contract.Settlement.Timelock.Safety.{execute-consumed}

-- The storage after an initiated recovery, at the recovery address.
initiated :
    (h : Host) (new_admin : Address) (l l' : State)
    → OfAddress (Initiated h l.store l'.store new_admin) l.store.recovery_address
    → OfPending
        (λ p. (p.new_admin ≡ new_admin) × (p.execute_after ≡ h.env.timestamp + 604800))
        l'.store.pending_recovery
initiated h new_admin l l' e = at l.store.recovery_address e
  where
    at :
        (o : Option Address)
        → OfAddress (Initiated h l.store l'.store new_admin) o
        → OfPending
            (λ p. (p.new_admin ≡ new_admin) × (p.execute_after ≡ h.env.timestamp + 604800))
            l'.store.pending_recovery
    at (some a) i = ground (arith, i.written)
    at none i = elim i [ ]

module _ (h : Host) (env : Env) (new_admin : Address) (l : State) where
  -- From the storage that `initiate_recovery` leaves, `execute_recovery` does not return less than
  -- 7 days (604,800 seconds) after the initiation, whoever calls it.
  pub initiate_delay :
      env.timestamp < h.env.timestamp + 604800
      → Ensures
          (initiate_recovery h new_admin l)
          (λ _ l'. Ensures (execute_recovery (later h env) l') (λ _ _. ⊥))
  initiate_delay early =
      weaken-Ensures _ (initiate_recovery h new_admin l) (initiate_recovery_effect h new_admin l)
        λ _ l' e. refused l' (initiated h new_admin l l' e)
    where
      refused :
          (l' : State)
          → OfPending
              (λ p. (p.new_admin ≡ new_admin) × (p.execute_after ≡ h.env.timestamp + 604800))
              l'.store.pending_recovery
          → Ensures (execute_recovery (later h env) l') (λ _ _. ⊥)
      refused l' i = ground (arith, execute_recovery_effect (later h env) l')

  -- While a recovery is initiated, the timelock executes nothing but a cancellation of a recovery:
  -- from the storage that `initiate_recovery` leaves, an `execute` of another operation never
  -- returns.
  pub initiate_blocks :
      (executor : Address) (op : Operation)
      → is_cancel_recovery op ≡ false
      → Ensures
          (initiate_recovery h new_admin l)
          (λ _ l'. Ensures (execute (later h env) executor op l') (λ _ _. ⊥))
  initiate_blocks executor op other =
      weaken-Ensures _ (initiate_recovery h new_admin l) (initiate_recovery_effect h new_admin l)
        λ _ l' e.
          ground
            (arith, initiated h new_admin l l' e, execute-consumed (later h env) executor op l')

-- For every state with a pending recovery that decodes, whose time is reached and whose new admin
-- is not the zero address, `execute_recovery` returns and makes the new admin the only one, with
-- threshold 1. The registry of merchants plays no part: an address that is registered as a
-- merchant becomes the admin and stays registered.
pub execute_recovery_returns :
    (h : Host) (p : PendingRecovery) (l : State)
    → l.store.pending_recovery ≡ some (pending p)
    → p.execute_after ≤ h.env.timestamp
    → p.new_admin ≢ 0
    → execute_recovery h l
      ≡ ok (
        tt,
        record l {
          store = record (l.store) {
            admins = some (p.new_admin ∷ []);
            threshold = some 1;
            pending_recovery = none;
          };
          events =
              Event.recovery_executed (unwrap_or l.store.admins []) (p.new_admin ∷ []) ∷ l.events;
          extensions = instance_entry 50_000 100_000 ∷ l.extensions;
        },
      )
unfolding execute_recovery read_pending_recovery write_admins validate_admins_and_threshold
    validate_set validate_each
execute_recovery_returns h p l e due nonzero = ground arith
