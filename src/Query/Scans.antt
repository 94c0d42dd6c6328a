-- ===== src/Query/Scans.antt =====
-- What the scans find, over a bucket whose values decode to blocks.
use sharded_blockchain_dashb.Base.{
  ℕ, ◌≡◌, refl, sym, none, some, List, [], ◌∷◌, ◌==◌, if◌then◌else◌, map, Option, Bool-cases, inl,
  inr, ap, ◌∙◌, keep, arith,
}
use sharded_blockchain_dashb.Base.Keyed.{Bytes}
use sharded_blockchain_dashb.Base.Outcome.{ret, ret-injective, panic, deref, ◌>>=◌}
use sharded_blockchain_dashb.Core.{Transaction, Block, BlockHeader, zero_block}
use sharded_blockchain_dashb.Backend.{Backend, BoltLaws, GobLaws}
use sharded_blockchain_dashb.Storage.{
  block_bucket, add_block, database_name, newest_block_hash_bucket, only_newest_block, get_block,
  get_newest_block_hash,
}
use sharded_blockchain_dashb.Storage.Laws.{IsOpen, Fits, new_storage_lem, add_block_lem}
use sharded_blockchain_dashb.Query.{
  query_config, init_storage, decode_all, find_number, query_blocks, query_block,
  query_newest_block, query_block_txs, query_block_hash,
}

-- A block with its header.
pub record Filled : Type 0 where
  pub head : BlockHeader
  pub body : List Transaction
  pub hash : Bytes

abbrev pub block_of : Filled → Block
block_of b = record { header = some b.head; body = b.body; hash = b.hash }

-- The pairs of a bucket decode to these blocks, in this order.
pub data Decodes (lib : Backend) : List (Bytes × lib.Blob) → List Filled → Type 0 where
  none_left : Decodes lib [] []
  next_pair :
      (k : Bytes) (v : lib.Blob) (kvs : List (Bytes × lib.Blob)) (b : Filled) (bs : List Filled)
      → lib.decode_block v ≡ some (block_of b)
      → Decodes lib kvs bs
      → Decodes lib ((k, v) ∷ kvs) (b ∷ bs)

abbrev pub last {ℓ} : {A : Type ℓ} → List A → Option A
last [] = none
last (x ∷ xs) = elim (last xs) [ none ↦ some x | some y ↦ some y ]

-- the last block of a number
abbrev pub numbered : ℕ → List Filled → Option Filled
numbered number bs = last (keep (λ b. b.head.number == number) bs)

abbrev pub block_or : Block → Option Filled → Block
block_or block none = block
block_or block (some b) = block_of b

numbered_step :
    (number : ℕ) (block : Block) (b : Filled) (bs : List Filled)
    → block_or (if b.head.number == number then block_of b else block) (numbered number bs)
      ≡ block_or block (numbered number (b ∷ bs))
numbered_step number block b bs = elim (Bool-cases (b.head.number == number)) [
  | inl same ↦ ground arith
  | inr other ↦ ground arith
]

module _ (lib : Backend) where
  decode_all_lem :
      (kvs : List (Bytes × lib.Blob)) (bs : List Filled)
      → Decodes lib kvs bs
      → decode_all lib kvs ≡ ret (map block_of bs)
  unfolding decode_all
  decode_all_lem _ _ none_left = refl
  decode_all_lem _ _ (next_pair k v kvs b bs p d) = rw (p, decode_all_lem kvs bs d)

  find_number_lem :
      (number : ℕ) (block : Block) (kvs : List (Bytes × lib.Blob)) (bs : List Filled)
      → Decodes lib kvs bs
      → find_number lib number block kvs ≡ ret (block_or block (numbered number bs))
  unfolding find_number
  find_number_lem number block _ _ none_left = refl
  find_number_lem number block _ _ (next_pair k v kvs b bs p d) = rw p (
      find_number_lem number (if b.head.number == number then block_of b else block) kvs bs d
      ∙ ap ret (numbered_step number block b bs))

-- What a node answers, when its block bucket holds these blocks.
pub record Answers (lib : Backend) (disk : Bytes → lib.Bolt) (shard_id node_id : ℕ)
    (bs : List Filled) : Type 0 where
  pub all_blocks : query_blocks lib disk shard_id node_id ≡ ret (map block_of bs)
  pub block_is :
      (number : ℕ)
      → query_block lib disk shard_id node_id number
        ≡ ret (block_or zero_block (numbered number bs))
  pub txs_are :
      (number : ℕ)
      → query_block_txs lib disk shard_id node_id number
        ≡ ret (elim (numbered number bs) [ none ↦ [] | some b ↦ b.body ])
  pub hash_is :
      (number : ℕ)
      → query_block_hash lib disk shard_id node_id number
        ≡ elim (numbered number bs) [ none ↦ panic | some b ↦ ret b.head.state_root ]

body_of :
    (found : Option Filled)
    → (block_or zero_block found).body ≡ elim found [ none ↦ [] | some b ↦ b.body ]
body_of none = refl
body_of (some b) = refl

root_of :
    (found : Option Filled)
    → (deref (block_or zero_block found).header >>= λ header. ret header.state_root)
      ≡ elim found [ none ↦ panic | some b ↦ ret b.head.state_root ]
root_of none = refl
root_of (some b) = refl

-- On a node whose storage opens, with a block bucket that holds blocks with headers: `QueryBlocks`
-- gives all of them in the order of the bucket; `QueryBlock` and `QueryBlockTxs` give the last one
-- with the number asked for, or an empty block and no transactions; `QueryBlockHash` gives the state
-- root of that block, and panics when no block has the number.
pub queries_lem :
    (lib : Backend) (disk : Bytes → lib.Bolt) (shard_id node_id : ℕ) (db : lib.Bolt)
    (bs : List Filled)
    → init_storage lib disk shard_id node_id ≡ ret db
    → Decodes lib (lib.entries db block_bucket) bs
    → Answers lib disk shard_id node_id bs
unfolding query_blocks query_block query_block_txs query_block_hash
queries_lem lib disk shard_id node_id db bs o d =
    let find : (number : ℕ)
        → find_number lib number zero_block (lib.entries db block_bucket)
          ≡ ret (block_or zero_block (numbered number bs)) =
      λ number. find_number_lem lib number zero_block (lib.entries db block_bucket) bs d in
    record {
      all_blocks = rw (query_blocks, o) (decode_all_lem lib (lib.entries db block_bucket) bs d);
      block_is = λ number. rw (query_block, o) (find number);
      txs_are =
          λ number. rw (query_block_txs, o, find number) (ap ret (body_of (numbered number bs)));
      hash_is = λ number. rw (query_block_hash, o, find number) (root_of (numbered number bs));
    }

module _ (lib : Backend) (db db' : lib.Bolt)
    (reads : (b k : Bytes) → lib.read db' b k ≡ lib.read db b k) where
  get_newest_block_hash_same : get_newest_block_hash lib db' ≡ get_newest_block_hash lib db
  unfolding get_newest_block_hash
  get_newest_block_hash_same =
      rw (get_newest_block_hash, reads newest_block_hash_bucket only_newest_block)

  get_block_same : (k : Bytes) → get_block lib db' k ≡ get_block lib db k
  unfolding get_block
  get_block_same k = rw (get_block, reads block_bucket k)

-- `QueryNewestBlock` gives back the block that `AddBlock` stored last, from the file that it left:
-- the next open changes no stored value.
pub query_newest_block-add_block :
    (lib : Backend) (bolt : BoltLaws lib) (gob : GobLaws lib) (disk : Bytes → lib.Bolt)
    (shard_id node_id : ℕ) (db : lib.Bolt) (b : Block) (h : BlockHeader)
    → IsOpen lib db
    → Fits lib b h
    → add_block lib db b ≡ ret (disk (database_name (query_config shard_id node_id)))
    → query_newest_block lib disk shard_id node_id ≡ ret (some b)
unfolding query_newest_block init_storage
query_newest_block-add_block lib bolt gob disk shard_id node_id db b h o f e =
    let file = disk (database_name (query_config shard_id node_id)) in
    let (db1, added, adds) = add_block_lem lib bolt gob db b h o f in
    let same : db1 ≡ file = ret-injective (sym added ∙ e) in
    let (db2, opened, _, reads) = new_storage_lem lib bolt gob file in
    let newest : get_newest_block_hash lib db2 ≡ some b.hash =
      get_newest_block_hash_same lib file db2 reads
      ∙ ap (get_newest_block_hash lib) (sym same)
      ∙ adds.newest_is in
    let block : get_block lib db2 b.hash ≡ ret (some b) =
      get_block_same lib file db2 reads b.hash
      ∙ ap (λ d. get_block lib d b.hash) (sym same)
      ∙ adds.block_is in
    rw (query_newest_block, init_storage, opened, newest) block
