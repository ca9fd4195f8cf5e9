-- ===== src/Governance/Tests.antt =====
-- The theorems on the governance contract, applied at a concrete storage.
use betta_pay_contract.Governance.Contract.Appointments.{execute_recovery-Appointed}
use betta_pay_contract.Governance.Contract.Runs.{governance_run-IsValid}
use betta_pay_contract.Base.{ℕ, ◌+◌, ◌≡◌, refl, true, some, List, [], ◌∷◌}
use betta_pay_contract.Base.Ledger.{Ensures}
use betta_pay_contract.Common.Env.{Env, returned}
use betta_pay_contract.Governance.State.{FeeConfig}
use betta_pay_contract.Common.Auth.{
  verify_quorum, verify_signers, validate_set, validate_each, require_auth_each,
}
use betta_pay_contract.Governance.Storage.{
  validate_admins_and_threshold, assert_admin_and_not_paused, verify_admins, verify_admin_auth,
  read_admins, read_threshold, read_recovery_address, read_pending_recovery,
}
use betta_pay_contract.Governance.Contract.{
  init, set_fee_config, initiate_recovery, execute_recovery,
}
use betta_pay_contract.Governance.Contract.Invariant.{IsValid, Request, handle}
use betta_pay_contract.Governance.Contract.Runs.{run, start}
use betta_pay_contract.Governance.Contract.Appointments.{Appointed}

abbrev now : ℕ
now = 1_700_000_000

abbrev env_at : ℕ → Env
env_at timestamp = record {
  timestamp = timestamp;
  sequence = 77;
  authorized = λ _. true;
  deploys = λ _. true;
  probe = λ _ _. returned true;
}

abbrev five_percent : FeeConfig
five_percent = record { platform_fee_bps = 400; network_fee_bps = 100 }

abbrev calls : List (Env × Request)
calls =
    (env_at now, Request.init_request 3 (1 ∷ []) 1 8)
    ∷ (env_at now, Request.set_fee_config_request (1 ∷ []) five_percent)
    ∷ []

-- The calls go through.
calls_config : (run calls (start 0)).store.fee_config ≡ some five_percent
unfolding run handle init set_fee_config validate_admins_and_threshold assert_admin_and_not_paused
    verify_admins verify_admin_auth read_admins read_threshold validate_set validate_each
    require_auth_each verify_quorum verify_signers
calls_config = refl

-- A recovery that is initiated and, a week later, executed.
abbrev recovery_calls : List (Env × Request)
recovery_calls =
    (env_at now, Request.init_request 3 (1 ∷ []) 1 8)
    ∷ (env_at now, Request.initiate_recovery_request 6)
    ∷ []

abbrev executed_calls : List (Env × Request)
executed_calls =
    (env_at now, Request.init_request 3 (1 ∷ []) 1 8)
    ∷ (env_at now, Request.initiate_recovery_request 6)
    ∷ (env_at (now + 604_800), Request.execute_recovery_request)
    ∷ []

executed_calls_admins : (run executed_calls (start 0)).store.admins ≡ some (6 ∷ [])
unfolding run handle init initiate_recovery execute_recovery validate_admins_and_threshold
    validate_set validate_each require_auth_each read_recovery_address read_pending_recovery
executed_calls_admins = refl

execute_recovery-Appointed_example :
    Ensures
      (execute_recovery (env_at (now + 604_800)) (run recovery_calls (start 0)))
      (λ _ l'. Appointed recovery_calls (start 0) l'.store (now + 604_800))
execute_recovery-Appointed_example =
    execute_recovery-Appointed 0 recovery_calls (env_at (now + 604_800))

governance_run-IsValid_example : IsValid ((run calls (start 0)).store)
governance_run-IsValid_example = governance_run-IsValid 0 calls
