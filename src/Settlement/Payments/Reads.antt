-- ===== src/Settlement/Payments/Reads.antt =====
-- What `get_payments` returns.
use betta_pay_contract.Base.{
  ℕ, ◌+◌, ◌≤◌, ◌==◌, ◌≡◌, true, false, none, some, List, [], ◌∷◌, arith, if◌then◌else◌,
}
use betta_pay_contract.Base.Lists.{length}
use betta_pay_contract.Base.Ledger.{Ensures}
use betta_pay_contract.Common.Env.{Address, Reference}
use betta_pay_contract.Settlement.Types.{PaymentRecord, PaymentsPage}
use betta_pay_contract.Settlement.State.{Store, State, Host}
use betta_pay_contract.Settlement.Storage.Access.{IsApproved, Unchanged, verify_admins_sound}
use betta_pay_contract.Settlement.Payments.{payment_of, assert_read_authorized}

-- The records of the references that are stored, in the order of the references.
abbrev pub records_of : Store → Address → List Reference → List PaymentRecord
records_of s m [] = []
records_of s m (r ∷ refs) = elim (payment_of s m r) [
  | some p ↦ p ∷ records_of s m refs
  | none ↦ records_of s m refs
]

-- The caller is the merchant, or a quorum of the stored admins.
abbrev pub MayRead : Host → Store → Address → List Address → Type 0
MayRead h s m [] = h.env.authorized m ≡ true
MayRead h s m (signer ∷ signers) = IsApproved h s (signer ∷ signers)

pub read_authorized_sound :
    (h : Host) (m : Address) (signers : List Address) (l : State)
    → Ensures
        (assert_read_authorized h m signers l)
        (λ _ l'. MayRead h l.store m signers × Unchanged l l')
unfolding assert_read_authorized
read_authorized_sound h m [] l = ground arith
read_authorized_sound h m (signer ∷ signers) l =
    ground (arith, verify_admins_sound h (signer ∷ signers) l)

-- What `get_payments` has checked, and the page that it returns.
pub record IsPage (h : Host) (s : Store) (m : Address) (refs : List Reference) (cursor : ℕ)
    (signers : List Address) (page : PaymentsPage) : Type 0 where
  pub allowed : MayRead h s m signers
  pub registered : s.merchants m ≡ true
  pub not_archived : s.archived_merchants m ≡ false
  pub small : length refs ≤ 100
  pub records : page.records ≡ records_of s m refs
  pub next : page.next_cursor ≡ (if length refs == 100 then some (cursor + 100) else none)
