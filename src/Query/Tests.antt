-- ===== src/Query/Tests.antt =====
-- The queries over the sample backend, on a node with two blocks of the same number.
use sharded_blockchain_dashb.Base.{ℕ, ◌≡◌, refl, some, [], ◌∷◌, arith}
use sharded_blockchain_dashb.Base.Keyed.{Bytes, bytes_eq, bytes_is_eq}
use sharded_blockchain_dashb.Base.Dict.{lookup, insert}
use sharded_blockchain_dashb.Base.Outcome.{ret}
use sharded_blockchain_dashb.Core.{BlockHeader}
use sharded_blockchain_dashb.Backend.Sample.{
  Buckets, sample, InBuckets, zeros, block, header, raw, as_block, entries, found_entries,
  create_bucket, or_create, put, put_found,
}
use sharded_blockchain_dashb.Backend.Sample.Laws.{sample_bolt, sample_gob}
use sharded_blockchain_dashb.Storage.{
  block_bucket, block_header_bucket, newest_block_hash_bucket, only_newest_block, add_block,
  add_block_header, update_newest_block, new_storage,
}
use sharded_blockchain_dashb.Storage.Laws.{IsOpen, Fits}
use sharded_blockchain_dashb.Query.{init_storage, query_newest_block}
use sharded_blockchain_dashb.Query.Scans.{
  Filled, block_of, Decodes, none_left, next_pair, Answers, queries_lem,
  query_newest_block-add_block,
}

abbrev pub head : ℕ → BlockHeader
head miner = record {
  parent_block_hash = zeros 32;
  state_root = 5 ∷ [];
  tx_root = [];
  number = 4;
  time = 9;
  miner = miner;
  all_state_root = [];
  tx_num = 0;
}

abbrev pub one : Filled
one = record { head = head 1; body = []; hash = 1 ∷ [] }

abbrev pub two : Filled
two = record { head = head 2; body = []; hash = 2 ∷ [] }

abbrev before : Buckets
before =
    (block_bucket, (one.hash, block (block_of one)) ∷ [])
    ∷ (block_header_bucket, (one.hash, header one.head) ∷ [])
    ∷ (newest_block_hash_bucket, (only_newest_block, raw one.hash) ∷ [])
    ∷ []

abbrev pub after : Buckets
after =
    (block_bucket, (one.hash, block (block_of one)) ∷ (two.hash, block (block_of two)) ∷ [])
    ∷ (block_header_bucket, (one.hash, header one.head) ∷ (two.hash, header two.head) ∷ [])
    ∷ (newest_block_hash_bucket, (only_newest_block, raw two.hash) ∷ [])
    ∷ []

-- every file is the same database
abbrev pub disk : Bytes → Buckets
disk name = after

pub reopened : init_storage sample disk 0 0 ≡ ret after
unfolding init_storage new_storage create_bucket or_create lookup bytes_eq
reopened = refl

pub after-Decodes : Decodes sample (entries after block_bucket) (one ∷ two ∷ [])
unfolding entries found_entries lookup bytes_eq as_block
after-Decodes =
    next_pair one.hash (block (block_of one)) ((two.hash, block (block_of two)) ∷ []) one (two ∷ [])
      refl (next_pair two.hash (block (block_of two)) [] two [] refl none_left)

queries_lem_example : Answers sample disk 0 0 (one ∷ two ∷ [])
queries_lem_example = queries_lem sample disk 0 0 after (one ∷ two ∷ []) reopened after-Decodes

before-IsOpen : IsOpen sample before
unfolding InBuckets lookup bytes_eq
before-IsOpen = record {
  blocks = ((one.hash, block (block_of one)) ∷ [], refl);
  headers = ((one.hash, header one.head) ∷ [], refl);
  newest = ((only_newest_block, raw one.hash) ∷ [], refl);
}

two-Fits : Fits sample (block_of two) two.head
two-Fits = record {
  header_is = refl;
  hash_some = omega arith;
  hash_short = omega arith;
  block_small = λ enc e. ground (arith, e);
  header_small = λ enc e. ground (arith, e);
  hash_small = omega arith;
}

two_added : add_block sample before (block_of two) ≡ ret after
unfolding add_block add_block_header update_newest_block put put_found insert lookup bytes_eq
two_added = refl

newest_is_two : query_newest_block sample disk 0 0 ≡ ret (some (block_of two))
newest_is_two =
    query_newest_block-add_block sample sample_bolt sample_gob disk 0 0 before (block_of two)
      two.head before-IsOpen two-Fits two_added
