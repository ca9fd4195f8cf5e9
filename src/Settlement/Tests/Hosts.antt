-- ===== src/Settlement/Tests/Hosts.antt =====
-- A host whose governance answers with a ceiling of 5,000 basis points for each fee, and storages
-- to
-- run the settlement contract on.
use betta_pay_contract.Base.{ℕ, ◌+◌, ◌*◌, ◌==◌, true, false, none, some, [], ◌∷◌}
use betta_pay_contract.Common.Rule.{SettlementRule}
use betta_pay_contract.Common.Env.{Env, Hash, Bytes, returned}
use betta_pay_contract.Common.Recovery.{pending}
use betta_pay_contract.Settlement.Types.{Operation}
use betta_pay_contract.Settlement.State.{Store, State, Host, u32_value, map_value}

-- Everybody has authorized the call, and every code deploys and supports the interface.
abbrev pub env_at : ℕ → Env
env_at timestamp = record {
  timestamp = timestamp;
  sequence = 77;
  authorized = λ _. true;
  deploys = λ _. true;
  probe = λ _ _. returned true;
}

abbrev pub fee_rule : ℕ → ℕ → SettlementRule
fee_rule platform network = record {
  platform_fee_bps = platform;
  network_fee_bps = network;
  settlement_delay_ledger = 10;
  auto_settle = true;
}

-- An encoding of the operations that the runs use.
abbrev encode : Operation → Bytes
encode (Operation.update_governance g) = 1 ∷ g ∷ []
encode Operation.cancel_recovery = 2 ∷ []
encode (Operation.transfer_admin admins n) = 3 ∷ n ∷ admins
encode (Operation.upgrade code) = 4 ∷ code ∷ []
encode (Operation.register_merchant m) = 5 ∷ m ∷ []
encode (Operation.unregister_merchant m) = 6 ∷ m ∷ []
encode (Operation.clear_settlement_rule m) = 7 ∷ m ∷ []
encode (Operation.set_settlement_rule m r) = 8 ∷ m ∷ r.platform_fee_bps ∷ r.network_fee_bps ∷ []
encode (Operation.set_default_rule r) = 9 ∷ r.platform_fee_bps ∷ r.network_fee_bps ∷ []

abbrev digest : Bytes → Hash
digest [] = 7
digest (b ∷ bytes) = b + 31 * digest bytes

abbrev pub host_at : ℕ → Host
host_at timestamp = record {
  env = env_at timestamp;
  get_fee_config = λ _.
      returned (
        map_value
          (("network_fee_bps", u32_value 5000) ∷ ("platform_fee_bps", u32_value 5000) ∷ []));
  get_system_param = λ _ _. returned none;
  to_xdr = encode;
  sha256 = digest;
}

abbrev pub now : ℕ
now = 1_700_000_000

abbrev pub host : Host
host = host_at now

-- Admins 1 and 2 with threshold 1, governance 9, recovery address 8, merchant 5.
abbrev pub ready_store : Store
ready_store = record {
  admins = some (1 ∷ 2 ∷ []);
  threshold = some 1;
  initializing = false;
  governance = some 9;
  deployer = some 3;
  schema_version = some 1;
  recovery_address = some 8;
  pending_recovery = none;
  paused_flag = none;
  default_rule = none;
  cached_gov_rule = none;
  pending_operation_count = none;
  wasm = 0;
  merchants = λ m. m == 5;
  archived_merchants = λ _. false;
  rules = λ m. none;
  payments = λ _. [];
  payment_counts = λ _. none;
  scheduled = [];
}

abbrev pub state_of : Store → State
state_of store = record { store = store; events = []; extensions = [] }

abbrev pub ready : State
ready = state_of ready_store

-- The storage of a contract that is not yet initialised.
abbrev pub fresh : State
fresh = state_of (record ready_store {
  admins = none;
  threshold = none;
  governance = none;
  deployer = none;
  schema_version = none;
  recovery_address = none;
})

-- An operation whose delay is over.
abbrev pub op : Operation
op = Operation.register_merchant 6

abbrev pub scheduled : State
scheduled = state_of (record ready_store {
  scheduled = (digest (encode op), record { operation_xdr = encode op; execute_at = now }) ∷ [];
  pending_operation_count = some 1;
})

-- A recovery whose delay is over; the new admin is merchant 5.
abbrev pub recovering : State
recovering = state_of (record ready_store {
  pending_recovery =
      some (pending (record { new_admin = 5; execute_after = now; initiated_by = 8 }));
})
