-- ===== src/Backend.antt =====
-- What the chain takes from other packages: the state trie and its database (go-ethereum), gob
-- encoding, SHA-256 (the Go library), and the bolt database. Each is a parameter with the documented
-- behaviour that the code relies on.
pub mod Sample
use sharded_blockchain_dashb.Base.{
  ℕ, ◌<◌, ◌≤◌, ◌&&◌, ◌≡◌, ◌≢◌, Option, none, some, List, if◌then◌else◌, length,
}
use sharded_blockchain_dashb.Base.Keyed.{Bytes, bytes_eq}
use sharded_blockchain_dashb.Core.{AccountState, Transaction, BlockHeader, Block}

pub record Backend : Type 1 where
  -- encoded values, kept abstract
  pub Blob : Type 0
  pub size : Blob → ℕ
  -- `AccountState.Encode`, `Transaction.Encode`, `BlockHeader.Encode`, `Block.Encode`: gob, `none` is
  -- an error; and the decoders
  pub encode_state : AccountState → Option Blob
  pub decode_state : Blob → Option AccountState
  pub encode_tx : Transaction → Option Blob
  pub decode_tx : Blob → Option Transaction
  pub encode_header : BlockHeader → Option Blob
  pub decode_header : Blob → Option BlockHeader
  pub encode_block : Block → Option Blob
  pub decode_block : Blob → Option Block
  -- a byte slice as a value in a bucket
  pub of_bytes : Bytes → Blob
  pub to_bytes : Blob → Bytes
  pub sha256 : Blob → Bytes
  -- `trie.Trie`: `NewEmpty`, `Get`, `Update`, `Hash`, `Commit`
  pub Trie : Type 0
  pub NodeSet : Type 0
  pub new_empty : Trie
  pub get : Trie → Bytes → Option Blob
  pub update : Trie → Bytes → Blob → Trie
  pub hash : Trie → Bytes
  pub commit : Trie → Bytes × NodeSet
  -- the trie differs from the one that was opened
  pub IsDirty : Trie → Type 0
  -- `common.BytesToHash`
  pub bytes_to_hash : Bytes → Bytes
  -- `trie.Database` over the disk: `trie.New`, `Update`, `Commit`, and a new one over the same disk
  pub TrieDb : Type 0
  pub open_trie : TrieDb → Bytes → Option Trie
  pub stage : TrieDb → NodeSet → Option TrieDb
  pub flush : TrieDb → Bytes → Option TrieDb
  pub reopen : TrieDb → TrieDb
  -- the bolt database: `CreateBucketIfNotExists`, `Put` and `Get` on a bucket, where `none` of the
  -- first two is an error or a bucket that is not there, and the pairs in the order of `ForEach`
  pub Bolt : Type 0
  pub HasBucket : Bolt → Bytes → Type 0
  pub create_bucket : Bolt → Bytes → Option Bolt
  pub put : Bolt → Bytes → Bytes → Blob → Option Bolt
  pub read : Bolt → Bytes → Bytes → Option Blob
  pub entries : Bolt → Bytes → List (Bytes × Blob)

-- The laws of the encodings and of a trie in memory.
pub record TrieLaws (lib : Backend) : Type 0 where
  pub state_round_trip :
      (s : AccountState)
      → (b : lib.Blob) × (lib.encode_state s ≡ some b)
        × (lib.decode_state b ≡ some s)
        × (0 < lib.size b)
  -- an update by an empty value deletes, so the law speaks of the others
  pub get-update :
      (t : lib.Trie) (k : Bytes) (b : lib.Blob) (j : Bytes)
      → 0 < lib.size b
      → lib.get (lib.update t k b) j ≡ (if bytes_eq k j then some b else lib.get t j)

-- `b` opens at `root`, and holds what `t` holds.
pub record OpensAs (lib : Backend) (db : lib.TrieDb) (root : Bytes) (t : lib.Trie) : Type 0 where
  pub opened : lib.Trie
  pub opens : lib.open_trie db root ≡ some opened
  pub holds : (k : Bytes) → lib.get opened k ≡ lib.get t k

-- A root opens to the same contents in the running node and after a restart.
pub record Holds (lib : Backend) (db : lib.TrieDb) (root : Bytes) (t : lib.Trie) : Type 0 where
  pub running : OpensAs lib db root t
  pub restarted : OpensAs lib (lib.reopen db) root t

-- The laws of the trie database. `stage` keeps the nodes of a changed trie in memory, `flush` writes
-- those that a root reaches to the disk. A root stands for one content: Keccak-256 has no collisions.
pub record DatabaseLaws (lib : Backend) : Type 0 where
  pub stage_lem :
      (db : lib.TrieDb) (t : lib.Trie)
      → lib.IsDirty t
      → (db' : lib.TrieDb) × (lib.stage db (lib.commit t).1 ≡ some db')
        × OpensAs lib db' (lib.commit t).0 t
  -- to stage is no disk write, and other roots open as before
  pub reopen-stage :
      (db : lib.TrieDb) (t : lib.Trie) {db' : lib.TrieDb}
      → lib.stage db (lib.commit t).1 ≡ some db'
      → lib.reopen db' ≡ lib.reopen db
  pub stage_other :
      (db : lib.TrieDb) (t : lib.Trie) (root : Bytes) {db' : lib.TrieDb}
      → lib.stage db (lib.commit t).1 ≡ some db'
      → (lib.commit t).0 ≢ root
      → lib.open_trie db' root ≡ lib.open_trie db root
  -- a root that opens can be flushed, and is then on the disk
  pub flush_lem :
      (db : lib.TrieDb) (root : Bytes) (t : lib.Trie)
      → OpensAs lib db root t
      → (db' : lib.TrieDb) × (lib.flush db root ≡ some db') × Holds lib db' root t
  -- to flush a root that is on the disk changes nothing there, and every root opens as before
  pub flush_again :
      (db : lib.TrieDb) (root : Bytes) (t : lib.Trie)
      → lib.open_trie db root ≡ some t
      → lib.open_trie (lib.reopen db) root ≡ some t
      → (db' : lib.TrieDb) × (lib.flush db root ≡ some db')
        × (lib.reopen db' ≡ lib.reopen db)
        × ((r : Bytes) → lib.open_trie db' r ≡ lib.open_trie db r)
  -- a hash of a trie is not changed by the conversion
  pub bytes_to_hash-commit : (t : lib.Trie) → lib.bytes_to_hash (lib.commit t).0 ≡ (lib.commit t).0
  -- a hash is not changed by the conversion
  pub bytes_to_hash_idem :
      (b : Bytes) → lib.bytes_to_hash (lib.bytes_to_hash b) ≡ lib.bytes_to_hash b
  -- a new database over the disk holds what the disk holds
  pub reopen_idem : (db : lib.TrieDb) → lib.reopen (lib.reopen db) ≡ lib.reopen db
  -- the root of the empty trie opens in every database
  pub open_empty :
      (db : lib.TrieDb) → OpensAs lib db (lib.bytes_to_hash (lib.hash lib.new_empty)) lib.new_empty
  pub get-new_empty : (k : Bytes) → lib.get lib.new_empty k ≡ none

-- Keys and values within the limits of bolt: a key of 1 to 32768 bytes, a value below 2^31 - 1.
abbrev pub IsStorable : (lib : Backend) → Bytes → lib.Blob → Type 0
IsStorable lib k v = (0 < length k) × (length k ≤ 32768) × (lib.size v < 2147483647)

-- The laws of the bolt database.
pub record BoltLaws (lib : Backend) : Type 0 where
  pub create_bucket_lem :
      (db : lib.Bolt) (bucket : Bytes)
      → 0 < length bucket
      → (db' : lib.Bolt) × (lib.create_bucket db bucket ≡ some db')
        × lib.HasBucket db' bucket
        × ((b : Bytes) → lib.HasBucket db b → lib.HasBucket db' b)
        × ((b k : Bytes) → lib.read db' b k ≡ lib.read db b k)
  pub put_lem :
      (db : lib.Bolt) (bucket k : Bytes) (v : lib.Blob)
      → lib.HasBucket db bucket
      → IsStorable lib k v
      → (db' : lib.Bolt) × (lib.put db bucket k v ≡ some db')
        × ((b : Bytes) → lib.HasBucket db b → lib.HasBucket db' b)
        × ((b j : Bytes)
            → lib.read db' b j
              ≡ (if bytes_eq bucket b && bytes_eq k j then some v else lib.read db b j))

-- The laws of what is stored: headers, blocks and byte slices.
pub record GobLaws (lib : Backend) : Type 0 where
  pub header_round_trip :
      (h : BlockHeader)
      → (b : lib.Blob) × (lib.encode_header h ≡ some b) × (lib.decode_header b ≡ some h)
  pub block_round_trip :
      (k : Block) → (b : lib.Blob) × (lib.encode_block k ≡ some b) × (lib.decode_block b ≡ some k)
  pub encode_tx_total : (tx : Transaction) → (b : lib.Blob) × (lib.encode_tx tx ≡ some b)
  pub to_bytes-of_bytes : (b : Bytes) → lib.to_bytes (lib.of_bytes b) ≡ b
  pub length-sha256 : (b : lib.Blob) → length (lib.sha256 b) ≡ 32
