-- ===== src/Settlement/Errors/Agreement.antt =====
-- The error codes of the two contracts together.
use betta_pay_contract.Base.{◌≡◌, refl, true, some, sym}
use mathlib.Core.Path.{subst}
use betta_pay_contract.Common.Codes.{find_code, settlement_range_start}
use betta_pay_contract.Common.Codes.Collisions.{all_below, assert_no_code_collisions_agree}
use betta_pay_contract.Settlement.Types.{SettlementError}
use betta_pay_contract.Governance.State.{GovernanceError}
use betta_pay_contract.Settlement.Errors as Settlement
use betta_pay_contract.Governance.Errors as Governance
use betta_pay_contract.Settlement.Errors.Registered as SettlementRegistered
use betta_pay_contract.Governance.Errors.Registered as GovernanceRegistered

governance_below : all_below settlement_range_start Governance.error_table ≡ true
unfolding Governance.error_table Governance.error_code
governance_below = refl

-- If an error of the governance contract and one of the settlement contract have the same code,
-- they have the same name.
pub error_codes_agree :
    (error : GovernanceError) (other : SettlementError)
    → Governance.error_code error ≡ Settlement.error_code other
    → Governance.error_name error ≡ Settlement.error_name other
error_codes_agree error other e =
    assert_no_code_collisions_agree Governance.error_table Settlement.error_table 200 300
      (Governance.error_code error) (Governance.error_name error) (Settlement.error_name other)
      GovernanceRegistered.error_table_passes SettlementRegistered.error_table_passes
      governance_below (GovernanceRegistered.find_code-error_table error)
      (subst (λ code. find_code Settlement.error_table code ≡ some (Settlement.error_name other))
        (sym e) (SettlementRegistered.find_code-error_table other))
