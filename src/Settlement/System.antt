-- ===== src/Settlement/System.antt =====
-- Both contracts from their deployments on, with the governance address of the settlement contract
-- answered from the storage of the governance contract.
use betta_pay_contract.Base.{ℕ, ◌<◌, Option, none, some, List}
use betta_pay_contract.Base.Int.{pos, i128_bound}
use betta_pay_contract.Base.Ledger.{Ensures}
use betta_pay_contract.Common.Env.{Env, Address, Reference, Hash}
use betta_pay_contract.Settlement.State.{Host}
use betta_pay_contract.Settlement.Fees.Precedence.{rule_for, OfRule}
use betta_pay_contract.Settlement.Split.Conservation.{Fair}
use betta_pay_contract.Settlement.Payments.{store_payment_reference}
use betta_pay_contract.Settlement.Invariant.Requests as Settlement
use betta_pay_contract.Settlement.History.Runs as SettlementRuns
use betta_pay_contract.Settlement.Governed.{Linked, ConfigBounded, store_payment-Fair}
use betta_pay_contract.Governance.State as Governance
use betta_pay_contract.Governance.Contract.Invariant as GovernanceInvariant
use betta_pay_contract.Governance.Contract.Runs as GovernanceRuns

config-ConfigBounded :
    (s : Governance.Store) → GovernanceInvariant.IsValid s → ConfigBounded s.fee_config
config-ConfigBounded s v = bounded s.fee_config v.config
  where
    bounded :
        (o : Option Governance.FeeConfig) → GovernanceInvariant.ConfigValid o → ConfigBounded o
    bounded none b = b
    bounded (some c) b = b

-- After every two sequences of calls of the settlement and of the governance contract, from their
-- deployments on, with the governance address answered from the governance storage of that moment:
-- every split that `store_payment_reference` returns for an amount of zero or more in the range of
-- `i128` is fair at the rates of the rule that applies. No part is negative, the parts add up to
-- the amount, each fee is its exact share rounded up, the network's cut to what the platform
-- leaves, and the payout is less than two units below the exact rest.
pub run_store_payment-Fair :
    (code governance_code : Hash) (calls : List (Host × Settlement.Request))
    (governance_calls : List (Env × GovernanceInvariant.Request)) (h : Host) (m : Address)
    (r : Reference) (amount : ℕ)
    → Linked h
        ((SettlementRuns.run calls (SettlementRuns.start code)).store)
        ((GovernanceRuns.run governance_calls (GovernanceRuns.start governance_code)).store)
    → amount < i128_bound
    → Ensures
        (store_payment_reference h m r
          (pos amount)
          (SettlementRuns.run calls (SettlementRuns.start code)))
        (λ split _.
          OfRule
            (λ rule. Fair amount rule.platform_fee_bps rule.network_fee_bps split)
            (rule_for h ((SettlementRuns.run calls (SettlementRuns.start code)).store) m))
run_store_payment-Fair code governance_code calls governance_calls h m r amount link fits =
    let g = (GovernanceRuns.run governance_calls (GovernanceRuns.start governance_code)).store in
    let l = SettlementRuns.run calls (SettlementRuns.start code) in
    store_payment-Fair h g m r amount l (SettlementRuns.run-IsValid code calls m).0 link
      (config-ConfigBounded g
        (GovernanceRuns.governance_run-IsValid governance_code governance_calls))
      fits
