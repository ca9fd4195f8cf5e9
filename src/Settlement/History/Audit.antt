-- ===== src/Settlement/History/Audit.antt =====
-- A stored record can be checked from itself: its parts are the split of its amount at its rates.
use mathlib.Core.Path.{subst, sym}
use betta_pay_contract.Base.{
  ℕ, ◌+◌, ◌-◌, ◌^◌, ◌<◌, ◌≡◌, inl, inr, some, List, [], ◌∷◌, arith, ap, ◌∙◌,
}
use betta_pay_contract.Base.Int.{ℤ, pos, i128_bound}
use betta_pay_contract.Common.Env.{Address, Reference, Hash}
use betta_pay_contract.Common.Rule.{SettlementRule}
use betta_pay_contract.Settlement.Types.{FeeSplit, PaymentRecord}
use betta_pay_contract.Settlement.State.{State, Host}
use betta_pay_contract.Settlement.Split.Spec.{
  platform_share, network_share, split_spec, calculate_split-eq,
}
use betta_pay_contract.Settlement.Payments.{payment_of, payment_record}
use betta_pay_contract.Settlement.Payments.Effect.{IsSplit}
use betta_pay_contract.Settlement.Invariant.Requests.{Request, handle}
use betta_pay_contract.Settlement.History.Runs.{run, start, after, Made, run_provenance}

-- The record is the merchant's, each part is the share of the amount at the record's rates, and the
-- parts add up to the amount.
pub record IsAudited (m : Address) (p : PaymentRecord) (amount : ℕ) : Type 0 where
  pub owner : p.merchant ≡ m
  pub platform : p.platform_fee_amount ≡ pos (platform_share amount p.platform_fee_bps)
  pub network :
      p.network_fee_amount ≡ pos (network_share amount p.platform_fee_bps p.network_fee_bps)
  pub payout :
      p.merchant_payout_amount
      ≡ pos (
          amount
          - platform_share amount p.platform_fee_bps
          - network_share amount p.platform_fee_bps p.network_fee_bps)
  pub total :
      platform_share amount p.platform_fee_bps
        + network_share amount p.platform_fee_bps p.network_fee_bps
        + (amount
            - platform_share amount p.platform_fee_bps
            - network_share amount p.platform_fee_bps p.network_fee_bps)
      ≡ amount

split_found :
    (amount : ℕ) (rule : SettlementRule) (split : FeeSplit) (l : State)
    → rule.platform_fee_bps < 2 ^ 32
    → rule.network_fee_bps < 2 ^ 32
    → amount < i128_bound
    → IsSplit (pos amount) rule split
    → split ≡ split_spec amount rule.platform_fee_bps rule.network_fee_bps
split_found amount rule split l hp hq fits e =
    ground (arith, calculate_split-eq amount rule l hp hq fits, e l)

shares_total :
    (amount p q : ℕ)
    → platform_share amount p
        + network_share amount p q
        + (amount - platform_share amount p - network_share amount p q)
      ≡ amount
shares_total amount p q = ground arith

written-IsAudited :
    (h : Host) (m : Address) (p : PaymentRecord) (amount : ℕ) (a : ℤ) (rule : SettlementRule)
    (split : FeeSplit) (l : State)
    → p ≡ payment_record h.env m a rule split
    → p.amount ≡ pos amount
    → IsSplit a rule split
    → p.platform_fee_bps < 2 ^ 32
    → p.network_fee_bps < 2 ^ 32
    → amount < i128_bound
    → IsAudited m p amount
written-IsAudited h m p amount a rule split l w e shared hp hq fits =
    let given : a ≡ pos amount = sym (ap (λ x. x.amount) w) ∙ e in
    let found : split ≡ split_spec amount rule.platform_fee_bps rule.network_fee_bps =
      split_found amount rule split l (subst (λ x. x.platform_fee_bps < 2 ^ 32) w hp)
        (subst (λ x. x.network_fee_bps < 2 ^ 32) w hq) fits
        (subst (λ x. IsSplit x rule split) given shared) in
    record {
      owner = ap (λ x. x.merchant) w;
      platform = ground (arith, w, found);
      network = ground (arith, w, found);
      payout = ground (arith, w, found);
      total = shares_total amount p.platform_fee_bps p.network_fee_bps;
    }

Made-IsAudited :
    (calls : List (Host × Request)) (l : State) (m : Address) (r : Reference) (p : PaymentRecord)
    (amount : ℕ)
    → p.amount ≡ pos amount
    → p.platform_fee_bps < 2 ^ 32
    → p.network_fee_bps < 2 ^ 32
    → amount < i128_bound
    → Made calls l m r p
    → IsAudited m p amount
Made-IsAudited [] l m r p amount e hp hq fits made = elim made [ ]
Made-IsAudited ((h, request) ∷ calls) l m r p amount e hp hq fits (inl (s, _)) =
    written-IsAudited h m p amount s.amount s.effective.rule s.split l s.written e s.shared hp hq
      fits
Made-IsAudited ((h, request) ∷ calls) l m r p amount e hp hq fits (inr made) =
    Made-IsAudited calls (after l (handle h request l)) m r p amount e hp hq fits made

-- After every sequence of calls from the deployment on, every stored payment with an amount of zero
-- or more in the range of `i128` and rates in the range of `u32` can be checked from its record,
-- whatever governance has answered when it was stored: it is the merchant's, the platform's part
-- is the amount's fee at the recorded platform rate, rounded up and at most the amount; the
-- network's is the fee at the recorded network rate, rounded up and at most what the platform
-- leaves; the payout is the rest; and the three add up to the amount.
pub run-IsAudited :
    (code : Hash) (calls : List (Host × Request)) (m : Address) (r : Reference) (p : PaymentRecord)
    (amount : ℕ)
    → payment_of ((run calls (start code)).store) m r ≡ some p
    → p.amount ≡ pos amount
    → amount < i128_bound
    → p.platform_fee_bps < 2 ^ 32
    → p.network_fee_bps < 2 ^ 32
    → IsAudited m p amount
run-IsAudited code calls m r p amount stored e fits hp hq =
    Made-IsAudited calls (start code) m r p amount e hp hq fits
      (run_provenance code calls m r p stored)
