-- ===== src/Storage/Tests.antt =====
-- The storage's properties over the sample backend.
use sharded_blockchain_dashb.Base.Keyed.{bytes_is_eq}
use sharded_blockchain_dashb.Base.{◌≡◌, refl, some, [], ◌∷◌, arith}
use sharded_blockchain_dashb.Base.Keyed.{bytes_eq}
use sharded_blockchain_dashb.Base.Dict.{lookup}
use sharded_blockchain_dashb.Base.Outcome.{ret}
use sharded_blockchain_dashb.Core.{Block, BlockHeader}
use sharded_blockchain_dashb.Backend.Sample.{sample, InBuckets, Buckets, zeros, Contents}
use sharded_blockchain_dashb.Backend.Sample.Laws.{sample_bolt, sample_gob}
use sharded_blockchain_dashb.Storage.{
  block_bucket, block_header_bucket, newest_block_hash_bucket, add_block,
}
use sharded_blockchain_dashb.Storage.Laws.{IsOpen, Fits, Adds, add_block_lem}

abbrev empty : Buckets
empty = []

abbrev no_contents : Contents
no_contents = []

abbrev opened : Buckets
opened =
    (block_bucket, no_contents)
    ∷ (block_header_bucket, no_contents)
    ∷ (newest_block_hash_bucket, no_contents)
    ∷ []

abbrev head : BlockHeader
head = record {
  parent_block_hash = zeros 32;
  state_root = [];
  tx_root = [];
  number = 1;
  time = 7;
  miner = 0;
  all_state_root = [];
  tx_num = 0;
}

abbrev first : Block
first = record { header = some head; body = []; hash = 1 ∷ zeros 31 }

opened-IsOpen : IsOpen sample opened
unfolding InBuckets lookup bytes_eq
opened-IsOpen = record {
  blocks = (no_contents, refl);
  headers = (no_contents, refl);
  newest = (no_contents, refl);
}

first-Fits : Fits sample first head
first-Fits = record {
  header_is = refl;
  hash_some = omega arith;
  hash_short = omega arith;
  block_small = λ enc e. ground (arith, e);
  header_small = λ enc e. ground (arith, e);
  hash_small = omega arith;
}

add_block_lem_example :
    (db : Buckets) × (add_block sample opened first ≡ ret db) × Adds sample opened db first head
add_block_lem_example =
    add_block_lem sample sample_bolt sample_gob opened first head opened-IsOpen first-Fits
