-- ===== src/Settlement/History/Runs.antt =====
-- Sequences of calls of the settlement contract from its deployment on. Each call has a host of its
-- own: another time, other authorizations. A call that panics or traps leaves the state as it was.
use betta_pay_contract.Base.{◌≡◌, refl, ◌⊎◌, inl, inr, false, none, some, List, [], ◌∷◌, arith}
use betta_pay_contract.Base.Dict.{get}
use betta_pay_contract.Base.Ledger.{Result, ok, panic, trap, Ensures, Returns}
use betta_pay_contract.Common.Env.{Address, Reference, Hash}
use betta_pay_contract.Settlement.Types.{SettlementError, PaymentRecord}
use betta_pay_contract.Settlement.State.{Store, State, Host}
use betta_pay_contract.Settlement.Payments.{payment_of}
use betta_pay_contract.Settlement.Payments.Count.{IsCounted}
use betta_pay_contract.Settlement.Invariant.{IsValid}
use betta_pay_contract.Settlement.Invariant.Requests.{Request, handle, handle-IsValid}
use betta_pay_contract.Settlement.History.Steps.{Step, handle-Step}
use betta_pay_contract.Settlement.History.Records.{Stores, Origin, Step-Origin, handle-IsCounted}

abbrev pub after : State → Result SettlementError (Unit {0} × State) → State
after l (ok (_, l')) = l'
after l (panic _) = l
after l trap = l

unfoldable pub run : List (Host × Request) → State → State
run [] l = l
run ((h, request) ∷ calls) l = run calls (after l (handle h request l))

-- The storage of a contract that is deployed with the code and not initialised.
abbrev pub deployed : Hash → Store
deployed code = record {
  admins = none;
  threshold = none;
  initializing = false;
  governance = none;
  deployer = none;
  schema_version = none;
  recovery_address = none;
  pending_recovery = none;
  paused_flag = none;
  default_rule = none;
  cached_gov_rule = none;
  pending_operation_count = none;
  wasm = code;
  merchants = λ _. false;
  archived_merchants = λ _. false;
  rules = λ _. none;
  payments = λ _. [];
  payment_counts = λ _. none;
  scheduled = [];
}

abbrev pub start : Hash → State
start code = record { store = deployed code; events = []; extensions = [] }

-- One of the calls stores the record, in the storage that the calls before it leave, and returns.
abbrev pub Made : List (Host × Request) → State → Address → Reference → PaymentRecord → Type 0
Made [] l m r p = ⊥
Made ((h, request) ∷ calls) l m r p =
    (Stores h request l.store m r p × Returns (handle h request l))
    ⊎ Made calls (after l (handle h request l)) m r p

-- What is kept by every call that returns is kept by a call.
after_kept :
    (P : State → Type 0) (l : State) (r : Result SettlementError (Unit {0} × State))
    → P l
    → Ensures r (λ _ l'. P l')
    → P (after l r)
after_kept P l (ok (_, l')) p e = e
after_kept P l (panic _) p e = p
after_kept P l trap p e = p

run_kept :
    (P : State → Type 0)
    → ((h : Host) (request : Request) (l : State)
        → P l
        → Ensures (handle h request l) (λ _ l'. P l'))
    → (calls : List (Host × Request)) (l : State) → P l
    → P (run calls l)
unfolding run
run_kept P keeps [] l p = p
run_kept P keeps ((h, request) ∷ calls) l p =
    run_kept P keeps calls (after l (handle h request l))
      (after_kept P l (handle h request l) p (keeps h request l p))

deployed-IsValid : (code : Hash) → IsValid (deployed code)
deployed-IsValid code = record { admins = tt; recovery = tt; default = tt; rules = λ k. tt }

-- After every sequence of calls of the entry points that write, the lookups of a rule that cache
-- governance's answer included, from the deployment on, the
-- settlement storage is valid, and the count of every merchant is the number of the merchant's
-- stored payments, whose references are distinct.
pub run-IsValid :
    (code : Hash) (calls : List (Host × Request)) (k : Address)
    → IsValid ((run calls (start code)).store) × IsCounted ((run calls (start code)).store) k
run-IsValid code calls k = (
  run_kept (λ l. IsValid l.store) handle-IsValid calls (start code) (deployed-IsValid code),
  run_kept (λ l. IsCounted l.store k) (λ h request l. handle-IsCounted h request l k) calls
      (start code) (record { keyed = tt; counted = refl }),
)

after-Origin :
    (h : Host) (request : Request) (l : State) (r : Result SettlementError (Unit {0} × State))
    (m : Address) (j : Reference) (p : PaymentRecord)
    → Ensures r (λ _ l'. Step h request l.store l'.store)
    → payment_of ((after l r).store) m j ≡ some p
    → (payment_of l.store m j ≡ some p) ⊎ (Stores h request l.store m j p × Returns r)
after-Origin h request l (ok (_, l')) m j p step e =
    elim (Step-Origin h request l.store l'.store m j p step e) [
      | Origin.before b ↦ inl b
      | Origin.now stores ↦ inr (stores, tt)
    ]
after-Origin h request l (panic _) m j p step e = inl e
after-Origin h request l trap m j p step e = inl e

run-Made :
    (calls : List (Host × Request)) (l : State) (m : Address) (r : Reference) (p : PaymentRecord)
    → payment_of ((run calls l).store) m r ≡ some p
    → (payment_of l.store m r ≡ some p) ⊎ Made calls l m r p
unfolding run
run-Made [] l m r p e = inl e
run-Made ((h, request) ∷ calls) l m r p e =
    elim (run-Made calls (after l (handle h request l)) m r p e) [
      | inr made ↦ inr (inr made)
      | inl found ↦
          elim (after-Origin h request l (handle h request l) m r p (handle-Step h request l)
            found) [ inl b ↦ inl b | inr stores ↦ inr (inl stores) ]
    ]

deployed_empty :
    (code : Hash) (m : Address) (r : Reference) (p : PaymentRecord)
    → ¬ (payment_of (deployed code) m r ≡ some p)
unfolding get
deployed_empty code m r p e = ground arith

-- Every payment that is stored after a sequence of calls from the deployment on was stored by one
-- of the calls, a `store_payment_reference` of the merchant's for the reference that returned
-- after all checks in the storage of that moment; and it has kept the record of that call, with the split of
-- the amount by the rule that applied then.
pub run_provenance :
    (code : Hash) (calls : List (Host × Request)) (m : Address) (r : Reference) (p : PaymentRecord)
    → payment_of ((run calls (start code)).store) m r ≡ some p
    → Made calls (start code) m r p
run_provenance code calls m r p e = elim (run-Made calls (start code) m r p e) [
  | inl found ↦ elim (deployed_empty code m r p found) [ ]
  | inr made ↦ made
]
