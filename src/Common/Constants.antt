-- ===== src/Common/Constants.antt =====
-- bettapay_common/src/constants.rs, and the recovery record of bettapay_common/src/events.rs.
use betta_pay_contract.Base.{ℕ, ◌*◌}

abbrev pub bps_denominator : ℕ
bps_denominator = 10_000

abbrev pub min_fee_bps : ℕ
min_fee_bps = 5

abbrev pub max_fee_bps : ℕ
max_fee_bps = 5_000

abbrev pub ledgers_per_day : ℕ
ledgers_per_day = 17_280

abbrev pub ttl_threshold_ledgers : ℕ
ttl_threshold_ledgers = ledgers_per_day * 14

abbrev pub ttl_bump_ledgers : ℕ
ttl_bump_ledgers = ledgers_per_day * 30

abbrev pub recovery_delay_seconds : ℕ
recovery_delay_seconds = 7 * 24 * 60 * 60

abbrev pub pause_reason_none : ℕ
pause_reason_none = 0

abbrev pub max_pause_reason : ℕ
max_pause_reason = 99

-- The threshold and bump of short-lived instance reads, which both contracts declare.
abbrev pub read_instance_ttl_threshold : ℕ
read_instance_ttl_threshold = 50_000

abbrev pub read_instance_ttl_bump : ℕ
read_instance_ttl_bump = 100_000
