-- ===== src/Core.antt =====
-- core/account.go, core/transaction.go, core/block.go and params/static_config.go: the data of the
-- chain. A `time.Time` is the number of nanoseconds since its zero value; a `*big.Int` field that
-- the code tests for nil is an `Option ℤ`.
pub mod Account
use sharded_blockchain_dashb.Base.{ℕ, Bool, false, Option, none, some, List, [], ◌==◌}
use sharded_blockchain_dashb.Base.Keyed.{Bytes}
use sharded_blockchain_dashb.Base.Int.{ℤ}

-- utils/utils_address.go
abbrev pub Address : Type 0
Address = Bytes

abbrev pub Time : Type 0
Time = ℕ

-- `Time.IsZero`
abbrev pub is_zero : Time → Bool
is_zero t = t == 0

pub record AccountState : Type 0 where
  pub ac_address : Address
  pub nonce : ℕ
  pub balance : ℤ
  pub storage_root : Bytes
  pub code_hash : Bytes

-- the literal `&core.AccountState{Nonce: n, Balance: b}`
abbrev pub fresh_account : ℕ → ℤ → AccountState
fresh_account n b = record {
  ac_address = [];
  nonce = n;
  balance = b;
  storage_root = [];
  code_hash = [];
}

pub record Transaction : Type 0 where
  pub sender : Address
  pub recipient : Address
  pub nonce : ℕ
  pub signature : Bytes
  pub value : Option ℤ
  pub tx_hash : Bytes
  pub time : Time
  pub txnum : ℕ
  pub relayed : Bool
  pub has_broker : Bool
  pub sender_is_broker : Bool
  pub original_sender : Address
  pub final_recipient : Address
  pub raw_tx_hash : Bytes

-- the literal at the head of `NewTransaction`
abbrev pub bare_transaction : Address → Address → Option ℤ → ℕ → Transaction
bare_transaction sender recipient value nonce = record {
  sender = sender;
  recipient = recipient;
  nonce = nonce;
  signature = [];
  value = value;
  tx_hash = [];
  time = 0;
  txnum = 0;
  relayed = false;
  has_broker = false;
  sender_is_broker = false;
  original_sender = [];
  final_recipient = [];
  raw_tx_hash = [];
}

pub record BlockHeader : Type 0 where
  pub parent_block_hash : Bytes
  pub state_root : Bytes
  pub tx_root : Bytes
  pub number : ℕ
  pub time : Time
  pub miner : ℕ
  pub all_state_root : Bytes
  pub tx_num : ℕ

-- `Header` is a pointer, nil in `new(core.Block)`
pub record Block : Type 0 where
  pub header : Option BlockHeader
  pub body : List Transaction
  pub hash : Bytes

abbrev pub new_block : BlockHeader → List Transaction → Block
new_block bh bb = record { header = some bh; body = bb; hash = [] }

-- `new(core.Block)`
abbrev pub zero_block : Block
zero_block = record { header = none; body = []; hash = [] }

pub record ChainConfig : Type 0 where
  pub chain_id : ℕ
  pub node_id : ℕ
  pub shard_id : ℕ
  pub nodes_per_shard : ℕ
  pub shard_nums : ℕ
  pub block_size : ℕ
  pub block_interval : ℕ
  pub inject_speed : ℕ
  pub max_relay_block_size : ℕ
