-- ===== src/Settlement/Invariant/Reads.antt =====
-- The entry points that look up a rule write the cached governance rule at most, and `dry_run` writes
-- nothing.
use betta_pay_contract.Base.{◌≡◌, arith}
use betta_pay_contract.Base.Int.{ℤ}
use betta_pay_contract.Base.Ledger.{Ensures, bind-Ensures, weaken-Ensures}
use betta_pay_contract.Common.Env.{Address}
use betta_pay_contract.Settlement.Types.{Operation}
use betta_pay_contract.Settlement.State.{State, Host}
use betta_pay_contract.Settlement.Fees.Frame.{OnlyCached, read_rule_no_bump-OnlyCached}
use betta_pay_contract.Settlement.Fees.Precedence.{read_effective_rule_for}
use betta_pay_contract.Settlement.Payments.{calculate_fee_split}
use betta_pay_contract.Settlement.Payments.Effect.{calculate_fee_split_quote}
use betta_pay_contract.Settlement.Rules.{get_effective_rule, get_rule_provenance}
use betta_pay_contract.Settlement.Timelock.{dry_run, validate_scheduled_execution}
use betta_pay_contract.Settlement.Timelock.Effect.{validate-Ready}
use betta_pay_contract.Settlement.Invariant.{SameParts}

pub OnlyCached-SameParts : (l l' : State) → OnlyCached l l' → SameParts l.store l'.store
OnlyCached-SameParts l l' e = ground arith

module _ (h : Host) where
  pub calculate_fee_split-OnlyCached :
      (m : Address) (amount : ℤ) (l : State)
      → Ensures (calculate_fee_split h m amount l) (λ _ l'. OnlyCached l l')
  calculate_fee_split-OnlyCached m amount l =
      weaken-Ensures _ (calculate_fee_split h m amount l) (calculate_fee_split_quote h m amount l)
        λ _ l' e. e.3

  pub get_effective_rule-OnlyCached :
      (m : Address) (l : State) → Ensures (get_effective_rule h m l) (λ _ l'. OnlyCached l l')
  unfolding get_effective_rule
  get_effective_rule-OnlyCached m l = read_rule_no_bump-OnlyCached h m l

  pub get_rule_provenance-OnlyCached :
      (m : Address) (l : State) → Ensures (get_rule_provenance h m l) (λ _ l'. OnlyCached l l')
  unfolding get_rule_provenance
  get_rule_provenance-OnlyCached m l = ground (arith, read_effective_rule_for h m l)

  pub dry_run-same : (op : Operation) (l : State) → Ensures (dry_run h op l) (λ _ l'. l' ≡ l)
  unfolding dry_run
  dry_run-same op l =
      bind-Ensures _ (validate_scheduled_execution h op) _ l (validate-Ready h op l) λ _ l' e. e.2
