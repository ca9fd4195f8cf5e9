-- ===== src/Settlement/Timelock/Batch.antt =====
-- The loop of `cancel_all`: what each round keeps is kept.
use betta_pay_contract.Base.{ℕ, ◌+◌, ◌≡◌, Bool, List, [], ◌∷◌, arith, if◌then◌else◌, ltb}
use mathlib.Core.Path.{subst}
use betta_pay_contract.Base.Lists.{length}
use betta_pay_contract.Base.Dict.{get}
use betta_pay_contract.Base.Ledger.{Ensures, bind-Ensures, pass-Ensures, first, refuse}
use betta_pay_contract.Common.Env.{Address}
use betta_pay_contract.Settlement.Types.{Operation, batch_too_large, max_cancel_all_batch}
use betta_pay_contract.Settlement.State.{Store, State, Host}
use betta_pay_contract.Settlement.Storage.{verify_admins, assert_not_paused}
use betta_pay_contract.Settlement.Storage.Access.{verify_admins_sound}
use betta_pay_contract.Settlement.Timelock.{cancels, hash_of, cancel_each, cancel_all}
use betta_pay_contract.Settlement.Timelock.Effect.{consumed, consume-eq}

-- The number after a round.
abbrev added : Bool → ℕ → ℕ
added hit n = if hit then n + 1 else n

module _ (h : Host) where
  -- The storage after one round.
  unfoldable pub cancelled_store : Operation → Store → Store
  cancelled_store op s =
      if cancels (h.to_xdr op) (get s.scheduled (hash_of h op))
      then consumed (hash_of h op) s
      else s

  cancelled_state : Operation → State → State
  cancelled_state op l = record l { store = cancelled_store op l.store }

  cancel_each-step :
      (P : Store → Type 0) (op : Operation) (ops : List Operation) (n : ℕ) (l : State)
      → Ensures
          (cancel_each h ops
            (added (cancels (h.to_xdr op) (get l.store.scheduled (hash_of h op))) n)
            (cancelled_state op l))
          (λ _ l'. P l'.store)
      → Ensures (cancel_each h (op ∷ ops) n l) (λ _ l'. P l'.store)
  unfolding cancel_each cancelled_state cancelled_store
  cancel_each-step P op ops n l e = ground (arith, consume-eq h (hash_of h op) l)

  cancel_each_kept :
      (P : Store → Type 0)
      → ((op : Operation) (s : Store) → P s → P (cancelled_store op s))
      → (ops : List Operation) (n : ℕ) (l : State) → P l.store
      → Ensures (cancel_each h ops n l) (λ _ l'. P l'.store)
  unfolding cancelled_state
  cancel_each_kept P keeps [] n l p = unfold cancel_each in p
  cancel_each_kept P keeps (op ∷ ops) n l p = cancel_each-step P op ops n l (
      cancel_each_kept P keeps ops
        (added (cancels (h.to_xdr op) (get l.store.scheduled (hash_of h op))) n)
        (cancelled_state op l) (keeps op l.store p))

  -- What every round keeps, `cancel_all` keeps.
  pub cancel_all_kept :
      (P : Store → Type 0) (signers : List Address) (ops : List Operation) (l : State)
      → ((op : Operation) (s : Store) → P s → P (cancelled_store op s))
      → P l.store
      → Ensures (cancel_all h signers ops l) (λ _ l'. P l'.store)
  unfolding cancel_all
  cancel_all_kept P signers ops l keeps p =
      bind-Ensures _ (verify_admins h signers) _ l (verify_admins_sound h signers l)
        λ _ l1 approved. pass-Ensures _ assert_not_paused _ l1 λ _ l2 e2.
          pass-Ensures _ (first signers) _ l2 λ caller l3 e3.
            pass-Ensures _ (refuse (ltb max_cancel_all_batch (length ops)) batch_too_large) _ l3
              λ _ l4 e4.
                let before : l.store ≡ l4.store = ground arith in
                bind-Ensures _ (cancel_each h ops 0) _ l4
                  (cancel_each_kept P keeps ops 0 l4 (subst P before p)) λ n l5 e5. e5
