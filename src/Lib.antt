-- ===== src/Lib.antt =====
-- The BettaPay contracts: settlement_contract splits payments of registered merchants into fees and
-- payout and keeps the records, under an admin set with a quorum, a recovery address and a
-- timelock; governance_contract keeps the fee configuration that bounds the settlement rules, system
-- parameters and anchors; bettapay_common is the code that both share.
--
-- How the parts interact. A settlement entry point checks authorization and pause against the
-- storage, asks the governance contract for its fee configuration or a parameter by a call across
-- contracts, writes the storage and publishes events. An operation can also be scheduled by the
-- admins and executed by anyone after its delay; the arms of `execute` repeat the direct entry points
-- without a check of the caller.
--
-- Files.
--   Base          the shared helpers: Lists, Int (i128 with its range), Dict (storage by key), Ledger
--                 (a call's result and state, with `Ensures` and its rules), Tests (Boolean tests).
--   Common        bettapay_common/src: Constants, Rule (types.rs), Env (the host: clock,
--                 authorizations, the upgrade probe of upgrade.rs), Auth (the quorum and admin set
--                 checks of both contracts' storage code), Recovery and Topics (events.rs), Codes
--                 (error_codes.rs) with Gaps and Collisions.
--   Settlement    settlement_contract/src: Types (types.rs, errors.rs, policy.rs), Errors (the codes of
--                 errors.rs), Topics (the events), State (the storage, one field for each kind of
--                 DataKey), Storage and Fees (storage.rs), Split and Payments (payments.rs), Rules
--                 (settlement.rs), Merchant (merchant.rs), Admin, Operations and Timelock (admin.rs),
--                 Getters. Children named Effect, Prune, Frame, Access, Batch, Reads, Init hold what
--                 an operation checks and writes; Spec, Conservation, Bounds, Precedence, Safety,
--                 Delay, Lockout, Count what is promised of it, Success when it returns, Liveness and
--                 Migration that it comes to its end. Invariant and Paused run over all requests
--                 (Invariant/Requests), and Readers over the entry points that only read. History has
--                 sequences of calls: Quiet and Frame (calls that leave a part alone), Steps, Queue,
--                 Stays and Recoveries (the abstract steps on the payments, on the timelock's slots
--                 and on the pending recovery), Records, Runs, Plans, Slots, Audit and Appointments
--                 (what holds of every run from the deployment on). Governed, System and
--                 Errors/Agreement join the two contracts. TopicRegistry looks up the topics of both.
--                 Tests has the runs at concrete inputs.
--   Governance    governance_contract/src/lib.rs: State, Errors, Topics, Storage, Contract with
--                 Effect, Invariant, Recoveries and, on sequences of calls, Runs and Appointments;
--                 Getters.
--
-- How code corresponds. A function of the source is a definition of the same name; a timelocked arm
-- `_set_default_rule` is `run_set_default_rule`. A call takes the state of the ledger (storage, events
-- and requests to extend time-to-live, latest first) and returns a value with the next state,
-- or panics with the contract's error, or traps where the host stops it (a missing authorization,
-- `unwrap` of nothing, overflow under `overflow-checks`). A call that does not return leaves no
-- state, as the host rolls it back. Two parts of the source that are the same text in a direct and
-- a timelocked entry point are one helper here (write_rule, write_default, add_merchant,
-- remove_merchant, replace_admins).
--
-- Numbers. u32, u64 and counters are natural numbers with their checked or saturating operations
-- written out; i128 is an integer with checked operations against the bound 2^127. Loops are
-- recursion on the list or on the versions left, so none needs fuel. Addresses, references and
-- hashes are only compared and are numbers; the zero address and the zero reference are 0.
--
-- Parameters. The XDR encoder, SHA-256, the authorizations of a call, the answers of the contract at
-- the governance address and of an upgrade probe belong to the host (Host and Env). Nothing is assumed
-- of them, but in Governed that the governance address answers from a governance storage, with a
-- struct as a map by the names of its fields. The host forbids re-entrance, so a call across contracts
-- changes no settlement storage.
--
-- Sequences of calls. The requests of a sequence are the entry points that write, in any order. For
-- the settlement contract these include calculate_fee_split, get_effective_rule and
-- get_rule_provenance, which cache governance's rule, and dry_run besides; the others only read. Each
-- call of a sequence has a host of its own, so time, authorizations and the answers of other
-- contracts are free from call to call. A call that panics or traps leaves the state as it was. An
-- upgrade records the hash of the new code, and the calls after it are still those of this code.
--
-- Not modelled. The archival of entries whose time-to-live ends (only the requests to extend it are
-- recorded), and the encoding of values: an event's layout lists the types of its values, and a
-- symbol is its text. An entry of the recovery that does not decode is modelled, as both contracts
-- read it.
pub mod Base
pub mod Common
pub mod Settlement
pub mod Governance
