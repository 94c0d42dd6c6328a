-- ===== src/Storage.antt =====
-- storage/storage.go: the blocks of a node in three buckets of a bolt database. A query returns
-- `none` for its error; a database error makes the writers panic.
pub mod Laws
mod Tests
use sharded_blockchain_dashb.Base.{Option, none, some, ◌++◌}
use sharded_blockchain_dashb.Base.Keyed.{Bytes}
use sharded_blockchain_dashb.Base.Text.{codes, itoa}
use sharded_blockchain_dashb.Base.Outcome.{Outcome, ret, ◌>>=◌, deref}
use sharded_blockchain_dashb.Core.{Block, BlockHeader, ChainConfig}
use sharded_blockchain_dashb.Codec.{encode_bh, encode_b, decode_bh, decode_b}
use sharded_blockchain_dashb.Backend.{Backend}

abbrev pub block_bucket : Bytes
block_bucket = codes "block"

abbrev pub block_header_bucket : Bytes
block_header_bucket = codes "blockHeader"

abbrev pub newest_block_hash_bucket : Bytes
newest_block_hash_bucket = codes "newestBlockHash"

-- the only key of its bucket
abbrev pub only_newest_block : Bytes
only_newest_block = codes "OnlyNewestBlock"

-- the name of the database's file, below "./record/"
unfoldable pub database_name : ChainConfig → Bytes
database_name cc = itoa cc.shard_id ++ (codes "_" ++ (itoa cc.node_id ++ codes "_database"))

module _ (lib : Backend) where
  -- the buckets that `NewStorage` makes in the database that it opened
  unfoldable pub new_storage : lib.Bolt → Outcome lib.Bolt
  new_storage db = do
    db1 ← deref (lib.create_bucket db block_bucket)
    db2 ← deref (lib.create_bucket db1 block_header_bucket)
    deref (lib.create_bucket db2 newest_block_hash_bucket)

  unfoldable pub update_newest_block : lib.Bolt → Bytes → Outcome lib.Bolt
  update_newest_block db newest =
      deref (lib.put db newest_block_hash_bucket only_newest_block (lib.of_bytes newest))

  unfoldable pub add_block_header : lib.Bolt → Bytes → Option BlockHeader → Outcome lib.Bolt
  add_block_header db blockhash bh = do
    header ← deref bh
    enc ← encode_bh lib header
    deref (lib.put db block_header_bucket blockhash enc)

  unfoldable pub add_block : lib.Bolt → Block → Outcome lib.Bolt
  add_block db b = do
    enc ← encode_b lib b
    db1 ← deref (lib.put db block_bucket b.hash enc)
    db2 ← add_block_header db1 b.hash b.header
    update_newest_block db2 b.hash

  unfoldable pub get_block_header : lib.Bolt → Bytes → Outcome (Option BlockHeader)
  get_block_header db bhash = elim (lib.read db block_header_bucket bhash) [
    | none ↦ ret none
    | some enc ↦ (do header ← decode_bh lib enc; ret (some header))
  ]

  unfoldable pub get_block : lib.Bolt → Bytes → Outcome (Option Block)
  get_block db bhash = elim (lib.read db block_bucket bhash) [
    | none ↦ ret none
    | some enc ↦ (do block ← decode_b lib enc; ret (some block))
  ]

  unfoldable pub get_newest_block_hash : lib.Bolt → Option Bytes
  get_newest_block_hash db = elim (lib.read db newest_block_hash_bucket only_newest_block) [
    | none ↦ none
    | some enc ↦ some (lib.to_bytes enc)
  ]
