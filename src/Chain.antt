-- ===== src/Chain.antt =====
-- chain/blockchain.go: the state of a `BlockChain`. Its operations are in the modules below.
pub mod Partition
pub mod Status
pub mod Ledger
pub mod Refines
pub mod Commit
pub mod Audit
pub mod Blocks
pub mod Runs
pub mod Accounts
mod Tests
use sharded_blockchain_dashb.Base.{ℕ, ◌^◌, Bool}
use sharded_blockchain_dashb.Base.Dict.{Dict}
use sharded_blockchain_dashb.Base.Int.{ℤ, pos}
use sharded_blockchain_dashb.Core.{Address, AccountState, Block, ChainConfig}
use sharded_blockchain_dashb.Pool.{TxPool}
use sharded_blockchain_dashb.Backend.{Backend}

-- the package variables of params that the chain reads
pub record Globals : Type 0 where
  pub shard_num : ℕ
  pub init_balance : ℤ
  pub virtual_init_balance : ℤ

-- the values that the source gives them
abbrev pub defaults : Globals
defaults = record { shard_num = 4; init_balance = pos (10 ^ 45); virtual_init_balance = pos 0 }

pub record BlockChain (lib : Backend) : Type 0 where
  pub trie_db : lib.TrieDb
  pub chain_config : ChainConfig
  pub current_block : Block
  pub storage : lib.Bolt
  pub txpool : TxPool
  pub partition_map : Dict Address ℕ
  pub all_state_map_tx : Dict Address AccountState
  pub flag : Bool
