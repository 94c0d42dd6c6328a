-- ===== src/Backend/Sample.antt =====
-- A backend that keeps its values as they are: it shows that the laws can hold together.
pub mod Laws
use sharded_blockchain_dashb.Base.Keyed.{bytes_is_eq}
use sharded_blockchain_dashb.Base.{◌+◌, length}
use sharded_blockchain_dashb.Base.{ℕ, zero, suc, ◌≡◌, Option, none, some, [], ◌∷◌, ◌++◌}
use sharded_blockchain_dashb.Base.Keyed.{Bytes}
use sharded_blockchain_dashb.Base.Dict.{Dict, lookup, insert}
use sharded_blockchain_dashb.Core.{AccountState, Transaction, BlockHeader, Block}
use sharded_blockchain_dashb.Backend.{Backend}

pub data Blob : Type 0 where
  state : AccountState → Blob
  tx : Transaction → Blob
  header : BlockHeader → Blob
  block : Block → Blob
  raw : Bytes → Blob

-- a number of bytes that grows with the block and with the bytes
abbrev pub size_of : Blob → ℕ
size_of (state s) = 1
size_of (tx t) = 1
size_of (header h) = 1
size_of (block b) = 1 + length b.body
size_of (raw bytes) = 1 + length bytes

unfoldable pub as_state : Blob → Option AccountState
as_state (state s) = some s
as_state _ = none

unfoldable pub as_tx : Blob → Option Transaction
as_tx (tx t) = some t
as_tx _ = none

unfoldable pub as_header : Blob → Option BlockHeader
as_header (header s) = some s
as_header _ = none

unfoldable pub as_block : Blob → Option Block
as_block (block s) = some s
as_block _ = none

unfoldable pub as_raw : Blob → Bytes
as_raw (raw s) = s
as_raw _ = []

abbrev pub Contents : Type 0
Contents = Dict Bytes Blob

-- one byte for the root, and the keys
abbrev pub flat_keys : Contents → Bytes
flat_keys [] = []
flat_keys ((k, _) ∷ m) = 1 ∷ (k ++ flat_keys m)

pub record Nodes : Type 0 where
  pub root : Bytes
  pub contents : Contents

pub record TrieDb : Type 0 where
  pub memory : Dict Bytes Contents
  pub disk : Dict Bytes Contents

abbrev pub or_disk : Option Contents → Option Contents → Option Contents
or_disk none d = d
or_disk (some c) d = some c

unfoldable pub open_trie : TrieDb → Bytes → Option Contents
open_trie db [] = some []
open_trie db (x ∷ r) = or_disk (lookup (x ∷ r) db.memory) (lookup (x ∷ r) db.disk)

unfoldable pub stage : TrieDb → Nodes → Option TrieDb
stage db ns = some (record db { memory = insert ns.root ns.contents db.memory })

unfoldable pub flush_found : TrieDb → Bytes → Option Contents → Option TrieDb
flush_found db root none = some db
flush_found db root (some c) = some (record db { disk = insert root c db.disk })

unfoldable pub flush : TrieDb → Bytes → Option TrieDb
flush db [] = some db
flush db (x ∷ r) = flush_found db (x ∷ r) (lookup (x ∷ r) db.memory)

unfoldable pub reopen : TrieDb → TrieDb
reopen db = record db { memory = [] }

-- buckets, each with its pairs
abbrev pub Buckets : Type 0
Buckets = Dict Bytes Contents

unfoldable pub InBuckets : Buckets → Bytes → Type 0
InBuckets db b = (c : Contents) × (lookup b db ≡ some c)

unfoldable pub or_create : Buckets → Bytes → Option Contents → Buckets
or_create db b none = insert b [] db
or_create db b (some c) = db

unfoldable pub create_bucket : Buckets → Bytes → Option Buckets
create_bucket db b = some (or_create db b (lookup b db))

unfoldable pub put_found : Buckets → Bytes → Bytes → Blob → Option Contents → Option Buckets
put_found db b k v none = none
put_found db b k v (some c) = some (insert b (insert k v c) db)

unfoldable pub put : Buckets → Bytes → Bytes → Blob → Option Buckets
put db b k v = put_found db b k v (lookup b db)

unfoldable pub read_found : Bytes → Option Contents → Option Blob
read_found k none = none
read_found k (some c) = lookup k c

unfoldable pub read : Buckets → Bytes → Bytes → Option Blob
read db b k = read_found k (lookup b db)

unfoldable pub found_entries : Option Contents → Contents
found_entries none = []
found_entries (some c) = c

unfoldable pub entries : Buckets → Bytes → Contents
entries db b = found_entries (lookup b db)

abbrev pub zeros : ℕ → Bytes
zeros zero = []
zeros (suc n) = 0 ∷ zeros n

-- 32 bytes that tell headers of different heights apart
unfoldable pub digest : Blob → Bytes
digest (header h) = h.number ∷ zeros 31
digest _ = zeros 32

abbrev pub sample : Backend
sample = record {
  Blob = Blob;
  size = size_of;
  encode_state = λ s. some (state s);
  decode_state = as_state;
  encode_tx = λ t. some (tx t);
  decode_tx = as_tx;
  encode_header = λ h. some (header h);
  decode_header = as_header;
  encode_block = λ b. some (block b);
  decode_block = as_block;
  of_bytes = raw;
  to_bytes = as_raw;
  sha256 = digest;
  Trie = Contents;
  NodeSet = Nodes;
  new_empty = [];
  get = λ t k. lookup k t;
  update = λ t k v. insert k v t;
  hash = λ t. flat_keys t;
  commit = λ t. (flat_keys t, record { root = flat_keys t; contents = t });
  IsDirty = λ _. Unit;
  bytes_to_hash = λ b. b;
  TrieDb = TrieDb;
  open_trie = open_trie;
  stage = stage;
  flush = flush;
  reopen = reopen;
  Bolt = Buckets;
  HasBucket = InBuckets;
  create_bucket = create_bucket;
  put = put;
  read = read;
  entries = entries;
}
