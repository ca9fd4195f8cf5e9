-- ===== src/Settlement/Tests/Registry.antt =====
-- The theorems on error codes and event topics, applied to the contracts' own tables.
use betta_pay_contract.Settlement.Errors.Agreement.{error_codes_agree}
use betta_pay_contract.Common.Codes.Collisions.{assert_no_code_collisions_agree}
use betta_pay_contract.Common.Codes.Gaps.{contains-find_code_gaps}
use Prim.Native.String.{String}
use betta_pay_contract.Base.{◌==◌, leb, ◌≡◌, refl, ◌&&◌, not, true, some, [], ◌∷◌}
use betta_pay_contract.Base.Lists.{contains}
use betta_pay_contract.Common.Codes.{
  find_code, find_code_gaps, gaps_between, collect_gaps, dedup, dedup_after, sort, codes_from,
}
use betta_pay_contract.Common.Codes.Gaps.{some_code}
use betta_pay_contract.Common.Codes.Collisions.{all_below}
use betta_pay_contract.Settlement.Types as Types
use betta_pay_contract.Governance.State as GovernanceState
use betta_pay_contract.Settlement.Errors as Settlement
use betta_pay_contract.Governance.Errors as Governance
use betta_pay_contract.Settlement.Errors.Registered as SettlementRegistered
use betta_pay_contract.Governance.Errors.Registered as GovernanceRegistered

-- The numbers 301 and 305 are free in the settlement contract's range.
settlement_gaps : find_code_gaps Settlement.error_table 300 ≡ 301 ∷ 305 ∷ []
unfolding find_code_gaps gaps_between collect_gaps dedup dedup_after sort codes_from
    Settlement.error_table Settlement.error_code
settlement_gaps = refl

governance_below : all_below 300 Governance.error_table ≡ true
unfolding Governance.error_table Governance.error_code
governance_below = refl

governance_paused : find_code Governance.error_table 5 ≡ some "Paused"
unfolding Governance.error_table Governance.error_code Governance.error_name
governance_paused = refl

settlement_paused : find_code Settlement.error_table 5 ≡ some "Paused"
unfolding Settlement.error_table Settlement.error_code Settlement.error_name
settlement_paused = refl

same_code :
    Governance.error_code GovernanceState.GovernanceError.paused
    ≡ Settlement.error_code Types.SettlementError.paused
unfolding Governance.error_code Settlement.error_code
same_code = refl

-- The theorems.

error_codes_agree_example :
    Governance.error_name GovernanceState.GovernanceError.paused
    ≡ Settlement.error_name Types.SettlementError.paused
error_codes_agree_example =
    error_codes_agree GovernanceState.GovernanceError.paused Types.SettlementError.paused same_code

assert_no_code_collisions_agree_example : ◌≡◌ {A = String} "Paused" "Paused"
assert_no_code_collisions_agree_example =
    assert_no_code_collisions_agree Governance.error_table Settlement.error_table 200 300 5 "Paused"
      "Paused" GovernanceRegistered.error_table_passes SettlementRegistered.error_table_passes
      governance_below governance_paused settlement_paused

contains-find_code_gaps_example : contains (find_code_gaps Settlement.error_table 300) 305 ≡ (
    some_code (λ c. leb 300 c && leb c 305) Settlement.error_table
    && some_code (λ c. leb 300 c && leb 305 c) Settlement.error_table
    && not (some_code (λ c. leb 300 c && 305 == c) Settlement.error_table))
contains-find_code_gaps_example = contains-find_code_gaps Settlement.error_table 300 305
