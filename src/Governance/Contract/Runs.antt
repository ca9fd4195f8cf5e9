-- ===== src/Governance/Contract/Runs.antt =====
-- Sequences of calls of the governance contract from its deployment on. A call that panics or traps
-- leaves the state as it was.
use betta_pay_contract.Base.{none, List, [], ◌∷◌}
use betta_pay_contract.Base.Ledger.{Result, ok, panic, trap, Ensures}
use betta_pay_contract.Common.Env.{Env, Hash}
use betta_pay_contract.Governance.State.{Store, State, GovernanceError}
use betta_pay_contract.Governance.Contract.Invariant.{
  IsValid, Request, handle, governance_handle-IsValid,
}

abbrev pub after : State → Result GovernanceError (Unit {0} × State) → State
after l (ok (_, l')) = l'
after l (panic _) = l
after l trap = l

unfoldable pub run : List (Env × Request) → State → State
run [] l = l
run ((env, request) ∷ calls) l = run calls (after l (handle env request l))

-- The storage of a contract that is deployed with the code and not initialised.
abbrev pub deployed : Hash → Store
deployed code = record {
  admins = none;
  threshold = none;
  deployer = none;
  schema_version = none;
  recovery_address = none;
  pending_recovery = none;
  paused_flag = none;
  fee_config = none;
  wasm = code;
  system_params = λ _. none;
  anchors = λ _. none;
}

abbrev pub start : Hash → State
start code = record { store = deployed code; events = []; extensions = [] }

after-IsValid :
    (l : State) (r : Result GovernanceError (Unit {0} × State))
    → IsValid l.store
    → Ensures r (λ _ l'. IsValid l'.store)
    → IsValid ((after l r).store)
after-IsValid l (ok (_, l')) v e = e
after-IsValid l (panic _) v e = v
after-IsValid l trap v e = v

run-IsValid_from :
    (calls : List (Env × Request)) (l : State) → IsValid l.store → IsValid ((run calls l).store)
unfolding run
run-IsValid_from [] l v = v
run-IsValid_from ((env, request) ∷ calls) l v =
    run-IsValid_from calls (after l (handle env request l))
      (after-IsValid l (handle env request l) v (governance_handle-IsValid env request l v))

-- After every sequence of calls of the entry points that write, from the deployment on, the
-- governance storage is valid: the admins are distinct, not zero and at least as many as their
-- threshold, which is at least 1; a pending recovery is for a non-zero address; and each fee of the
-- configuration, if there is one, is from 5 to 5,000 basis points.
pub governance_run-IsValid :
    (code : Hash) (calls : List (Env × Request)) → IsValid ((run calls (start code)).store)
governance_run-IsValid code calls =
    run-IsValid_from calls (start code) (record { admins = tt; recovery = tt; config = tt })
