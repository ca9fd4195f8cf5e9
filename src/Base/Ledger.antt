-- ===== src/Base/Ledger.antt =====
-- Calls of a Soroban contract. A call reads and writes the contract's storage, publishes events
-- and asks the host to extend time-to-live values; it ends with a value, with `panic_with_error!`
-- and the contract's error, or with a trap of the host or of checked arithmetic.
-- The host undoes everything that a call wrote when it panics or traps, so those carry no state.
use Prim.Native.Nat.{ℕ, ◌+◌, ◌^◌}
use mathlib.Core.Path.{◌≡◌, refl}
use mathlib.Core.Bool.{Bool, true, false}
use mathlib.Core.Option.{Option, none, some}
use mathlib.Core.List.{List, [], ◌∷◌}
use betta_pay_contract.Base.Tests.{ltb}

-- A call of `extend_ttl`: the entry (or the instance), the threshold and the bump, in ledgers.
pub data Extension (K : Type 0) : Type 0 where
  instance_entry : ℕ → ℕ → Extension K
  persistent_entry : K → ℕ → ℕ → Extension K

-- A contract's storage with what the current transaction has published and extended, latest first.
pub record Ledger (St K Ev : Type 0) : Type 0 where
  pub store : St
  pub events : List Ev
  pub extensions : List (Extension K)

pub data Result (E A : Type 0) : Type 0 where
  ok : A → Result E A
  panic : E → Result E A
  trap : Result E A

abbrev pub Call : Type 0 → Type 0 → Type 0 → Type 0
Call L E A = L → Result E (A × L)

abbrev pub pure : {L E A : Type 0} → A → Call L E A
pure a l = ok (a, l)

infixl 5 ◌>>=◌ ◌>>◌
abbrev pub ◌>>=◌ : {L E A B : Type 0} → Call L E A → (A → Call L E B) → Call L E B
◌>>=◌ m f l = elim (m l) [ ok (a, l') ↦ f a l' | panic e ↦ panic e | trap ↦ trap ]

abbrev pub ◌>>◌ : {L E B : Type 0} → Call L E (Unit {0}) → Call L E B → Call L E B
m >> k = m >>= λ _. k

-- `panic_with_error!` unless the condition holds.
abbrev pub require : {L E : Type 0} → Bool → E → Call L E (Unit {0})
require true e l = ok (tt, l)
require false e l = panic e

-- `panic_with_error!` if the condition holds.
abbrev pub refuse : {L E : Type 0} → Bool → E → Call L E (Unit {0})
refuse true e l = panic e
refuse false e l = ok (tt, l)

abbrev pub fail : {L E A : Type 0} → E → Call L E A
fail e l = panic e

-- A condition that traps when it fails.
abbrev pub expect : {L E : Type 0} → Bool → Call L E (Unit {0})
expect true l = ok (tt, l)
expect false l = trap

abbrev pub get_or_fail : {L E A : Type 0} → Option A → E → Call L E A
get_or_fail none e l = panic e
get_or_fail (some a) e l = ok (a, l)

-- `Vec::get(0).unwrap()`
abbrev pub first : {L E A : Type 0} → List A → Call L E A
first [] l = trap
first (x ∷ _) l = ok (x, l)

-- The body runs only if the condition holds.
abbrev pub when : {L E : Type 0} → Bool → Call L E (Unit {0}) → Call L E (Unit {0})
when true m l = m l
when false m l = ok (tt, l)

-- Unsigned addition of the given width under `overflow-checks`: it traps when it does not fit.
abbrev pub add_checked : {L E : Type 0} → ℕ → ℕ → ℕ → Call L E ℕ
add_checked w a b l = elim (ltb (a + b) (2 ^ w)) [ true ↦ ok (a + b, l) | false ↦ trap ]

module _ {St K Ev E : Type 0} where
  abbrev pub stored : Call (Ledger St K Ev) E St
  stored l = ok (l.store, l)

  abbrev pub write : (St → St) → Call (Ledger St K Ev) E (Unit {0})
  write f l = ok (tt, record l { store = f l.store })

  abbrev pub publish : Ev → Call (Ledger St K Ev) E (Unit {0})
  publish e l = ok (tt, record l { events = e ∷ l.events })

  abbrev pub extend_ttl : K → ℕ → ℕ → Call (Ledger St K Ev) E (Unit {0})
  extend_ttl k threshold bump l =
      ok (tt, record l { extensions = persistent_entry k threshold bump ∷ l.extensions })

  abbrev pub extend_instance_ttl : ℕ → ℕ → Call (Ledger St K Ev) E (Unit {0})
  extend_instance_ttl threshold bump l =
      ok (tt, record l { extensions = instance_entry threshold bump ∷ l.extensions })

-- What holds of a call's outcome when it returns.
abbrev pub Ensures : {L E A : Type 0} → Result E (A × L) → (A → L → Type 0) → Type 0
Ensures (ok (a, l)) P = P a l
Ensures (panic _) P = Unit
Ensures trap P = Unit

after-Ensures :
    {L E A B : Type 0} {P : A → L → Type 0} (Q : B → L → Type 0) (f : A → Call L E B)
    (r : Result E (A × L))
    → Ensures r P
    → ((a : A) (l' : L) → P a l' → Ensures (f a l') Q)
    → Ensures (elim r [ ok (a, l') ↦ f a l' | panic e ↦ panic e | trap ↦ trap ]) Q
after-Ensures Q f (ok (a, l')) q k = k a l' q
after-Ensures Q f (panic e) q k = tt
after-Ensures Q f trap q k = tt

-- The rule for a sequence: what the first part ensures is what the rest may assume.
pub bind-Ensures :
    {L E A B : Type 0} {P : A → L → Type 0} (Q : B → L → Type 0) (m : Call L E A)
    (f : A → Call L E B) (l : L)
    → Ensures (m l) P
    → ((a : A) (l' : L) → P a l' → Ensures (f a l') Q)
    → Ensures ((m >>= f) l) Q
bind-Ensures Q m f l = after-Ensures Q f (m l)

after-eq :
    {L E A B : Type 0} (Q : B → L → Type 0) (f : A → Call L E B) (r s : Result E (A × L))
    → r ≡ s
    → ((a : A) (l' : L) → r ≡ ok (a, l') → Ensures (f a l') Q)
    → Ensures (elim s [ ok (a, l') ↦ f a l' | panic e ↦ panic e | trap ↦ trap ]) Q
after-eq Q f r (ok (a, l')) e k = k a l' e
after-eq Q f r (panic _) e k = tt
after-eq Q f r trap e k = tt

-- The rule for a first part that is computed through.
pub pass-Ensures :
    {L E A B : Type 0} (Q : B → L → Type 0) (m : Call L E A) (f : A → Call L E B) (l : L)
    → ((a : A) (l' : L) → m l ≡ ok (a, l') → Ensures (f a l') Q)
    → Ensures ((m >>= f) l) Q
pass-Ensures Q m f l = after-eq Q f (m l) (m l) refl

-- A weaker condition.
pub weaken-Ensures :
    {L E A : Type 0} {P : A → L → Type 0} (Q : A → L → Type 0) (r : Result E (A × L))
    → Ensures r P
    → ((a : A) (l' : L) → P a l' → Q a l')
    → Ensures r Q
weaken-Ensures Q (ok (a, l')) p k = k a l' p
weaken-Ensures Q (panic _) p k = tt
weaken-Ensures Q trap p k = tt

-- Whether a call returns.
abbrev pub returns : {A E : Type 0} → Result E A → Bool
returns (ok _) = true
returns (panic _) = false
returns trap = false

-- A call returns.
abbrev pub Returns : {A E : Type 0} → Result E A → Type 0
Returns (ok _) = Unit
Returns (panic _) = ⊥
Returns trap = ⊥

after-Returns :
    {L E A B : Type 0} {P : A → L → Type 0} (f : A → Call L E B) (r : Result E (A × L))
    → Returns r
    → Ensures r P
    → ((a : A) (l' : L) → P a l' → Returns (f a l'))
    → Returns (elim r [ ok (a, l') ↦ f a l' | panic e ↦ panic e | trap ↦ trap ])
after-Returns f (ok (a, l')) i q k = k a l' q
after-Returns f (panic e) i q k = i
after-Returns f trap i q k = i

-- A sequence returns if its first part does and the rest does under what the first part ensures.
pub bind-Returns :
    {L E A B : Type 0} {P : A → L → Type 0} (m : Call L E A) (f : A → Call L E B) (l : L)
    → Returns (m l)
    → Ensures (m l) P
    → ((a : A) (l' : L) → P a l' → Returns (f a l'))
    → Returns ((m >>= f) l)
bind-Returns m f l = after-Returns f (m l)
