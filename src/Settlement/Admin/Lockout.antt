-- ===== src/Settlement/Admin/Lockout.antt =====
-- A consequence of the signers that `change_threshold` asks for.
use betta_pay_contract.Base.{ℕ, ◌≡◌, some, List, arith}
use betta_pay_contract.Base.Lists.{length, length-le_of_subset}
use betta_pay_contract.Base.Ledger.{Ensures}
use betta_pay_contract.Common.Env.{Address}
use betta_pay_contract.Settlement.State.{State, Host}
use betta_pay_contract.Settlement.Admin.{change_threshold}
use betta_pay_contract.Settlement.Admin.Effect.{change_threshold_effect}

-- Where the stored threshold is the number of admins, `change_threshold` never returns: it asks for
-- one signer more than the threshold, and there are not so many distinct admins. So whatever the
-- signers, their authorizations and the new threshold are, the call panics or traps.
pub change_threshold_locked :
    (h : Host) (signers admins : List Address) (n : ℕ) (l : State)
    → l.store.admins ≡ some admins
    → l.store.threshold ≡ some (length admins)
    → Ensures (change_threshold h signers n l) (λ _ _. ⊥)
change_threshold_locked h signers admins n l a t =
    ground (arith, change_threshold_effect h signers n l, length-le_of_subset signers admins)
