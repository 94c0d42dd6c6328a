-- ===== src/Query.antt =====
-- query/query_block.go and query/query_accountstate.go: reads of a node's blocks by scanning the
-- block bucket. The files of the disk are a function from a name to a database; a file that is not
-- there is an empty database.
pub mod Scans
pub mod Tests
use sharded_blockchain_dashb.Base.{ℕ, Option, none, some, List, [], ◌∷◌, ◌==◌, if◌then◌else◌}
use sharded_blockchain_dashb.Base.Keyed.{Bytes}
use sharded_blockchain_dashb.Base.Outcome.{Outcome, ret, ◌>>=◌, deref}
use sharded_blockchain_dashb.Core.{
  Address, AccountState, Transaction, Block, zero_block, ChainConfig,
}
use sharded_blockchain_dashb.Codec.{decode_b}
use sharded_blockchain_dashb.Backend.{Backend}
use sharded_blockchain_dashb.Storage.{
  database_name, block_bucket, new_storage, get_newest_block_hash, get_block,
}

abbrev pub query_config : ℕ → ℕ → ChainConfig
query_config shard_id node_id = record {
  chain_id = shard_id;
  node_id = node_id;
  shard_id = shard_id;
  nodes_per_shard = 0;
  shard_nums = 0;
  block_size = 0;
  block_interval = 0;
  inject_speed = 0;
  max_relay_block_size = 0;
}

module _ (lib : Backend) (disk : Bytes → lib.Bolt) where
  unfoldable pub init_storage : ℕ → ℕ → Outcome lib.Bolt
  init_storage shard_id node_id =
      new_storage lib (disk (database_name (query_config shard_id node_id)))

module _ (lib : Backend) where
  -- the scan of `QueryBlocks`; `DecodeB` panics where it cannot decode
  unfoldable pub decode_all : List (Bytes × lib.Blob) → Outcome (List Block)
  decode_all [] = ret []
  decode_all ((k, v) ∷ kvs) = do res ← decode_b lib v; blocks ← decode_all kvs; ret (res ∷ blocks)

  -- the scan for a number: a later block takes the place of an earlier one
  unfoldable pub find_number : ℕ → Block → List (Bytes × lib.Blob) → Outcome Block
  find_number number block [] = ret block
  find_number number block ((k, v) ∷ kvs) = do
    res ← decode_b lib v
    header ← deref res.header
    find_number number (if header.number == number then res else block) kvs

module _ (lib : Backend) (disk : Bytes → lib.Bolt) where
  unfoldable pub query_blocks : ℕ → ℕ → Outcome (List Block)
  query_blocks shard_id node_id = do
    db ← init_storage lib disk shard_id node_id
    decode_all lib (lib.entries db block_bucket)

  unfoldable pub query_block : ℕ → ℕ → ℕ → Outcome Block
  query_block shard_id node_id number = do
    db ← init_storage lib disk shard_id node_id
    find_number lib number zero_block (lib.entries db block_bucket)

  -- `none` is a nil block. A node without a newest hash asks for the block of the nil hash.
  unfoldable pub query_newest_block : ℕ → ℕ → Outcome (Option Block)
  query_newest_block shard_id node_id = do
    db ← init_storage lib disk shard_id node_id
    get_block lib db (elim (get_newest_block_hash lib db) [ none ↦ [] | some hash ↦ hash ])

  unfoldable pub query_block_txs : ℕ → ℕ → ℕ → Outcome (List Transaction)
  query_block_txs shard_id node_id number = do
    db ← init_storage lib disk shard_id node_id
    block ← find_number lib number zero_block (lib.entries db block_bucket)
    ret block.body

  unfoldable pub query_block_hash : ℕ → ℕ → ℕ → Outcome Bytes
  query_block_hash shard_id node_id number = do
    db ← init_storage lib disk shard_id node_id
    block ← find_number lib number zero_block (lib.entries db block_bucket)
    header ← deref block.header
    ret header.state_root

-- `QueryAccountState` and `QueryAllAccountStates` find nothing.
abbrev pub query_account_state : ℕ → ℕ → Address → Option AccountState
query_account_state shard_id node_id address = none

abbrev pub query_all_account_states : ℕ → ℕ → List (Address × AccountState)
query_all_account_states shard_id node_id = []
