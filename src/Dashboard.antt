-- ===== src/Dashboard.antt =====
-- main.go: the dashboard's store of block views, and what it answers from it. The text of a time is
-- a parameter `format_time`, since it depends on the machine's time zone.
pub mod Sorted
pub mod Ordered
pub mod Newest
pub mod Genesis
pub mod Names
pub mod Choose
pub mod Flat
pub mod Users
pub mod Store
pub mod Transactions
mod Tests
use sharded_blockchain_dashb.Base.{
  ℕ, ◌+◌, ◌-◌, ◌*◌, ◌%◌, ◌^◌, Bool, true, false, ◌&&◌, Option, none, some, List, [], ◌∷◌, ◌++◌, ltb,
  leb, ◌==◌, if◌then◌else◌, length, take, drop, map,
}
use sharded_blockchain_dashb.Base.Space.{trim_space}
use sharded_blockchain_dashb.Base.Keyed.{Bytes, bytes_eq, bytes_is_eq}
use sharded_blockchain_dashb.Base.Dict.{Dict, lookup, insert}
use sharded_blockchain_dashb.Base.Text.{codes, hex_encode}
use sharded_blockchain_dashb.Base.Int.{ℤ, pos, negsuc, ltb_ℤ, uint64}
use sharded_blockchain_dashb.Base.Outcome.{Outcome, ret, ◌>>=◌}
use sharded_blockchain_dashb.Core.{Time, Block, BlockHeader}
use sharded_blockchain_dashb.Backend.{Backend}
use sharded_blockchain_dashb.Query

pub record BlockView : Type 0 where
  pub height : ℕ
  pub tx_count : ℕ
  pub hash : Bytes
  pub hash_short : Bytes
  pub parent_hash : Bytes
  pub timestamp : Bytes
  pub timestamp_raw : ℤ
  pub is_latest : Bool

pub record IndexedBlock : Type 0 where
  pub view : BlockView
  pub height : ℕ

-- without the path of the file
pub record ShardStore : Type 0 where
  pub id : ℤ
  pub latest_height : ℕ
  pub latest_hash : Bytes
  pub blocks : List BlockView
  pub by_hash : Dict Bytes IndexedBlock

unfoldable pub short_hash : Bytes → Bytes
short_hash hash =
    if leb (length hash) 12
    then hash
    else take 6 hash ++ (codes "..." ++ drop (length hash - 6) hash)

-- the Unix epoch, in nanoseconds since the zero time
abbrev pub unix_epoch : ℕ
unix_epoch = 62135596800000000000

-- 64 bits as a signed integer
abbrev pub signed : ℕ → ℤ
signed n = if ltb n (2 ^ 63) then pos n else negsuc (2 ^ 64 - n - 1)

-- `Time.UnixNano`, which wraps around; 4 * 2 ^ 64 is above the epoch
unfoldable pub unix_nano : Time → ℤ
unix_nano t = signed ((t + (4 * 2 ^ 64 - unix_epoch)) % 2 ^ 64)

-- `strings.ToLower` on ASCII
abbrev pub lower : ℕ → ℕ
lower c = if leb b'A' c && leb c b'Z' then c + 32 else c

abbrev pub to_lower : Bytes → Bytes
to_lower s = map lower s

abbrev pub view_of : (Time → Bytes) → Block → BlockHeader → BlockView
view_of format_time b header =
    let hash = hex_encode b.hash in
    record {
      height = header.number;
      tx_count = length b.body;
      hash = hash;
      hash_short = short_hash hash;
      parent_hash = hex_encode header.parent_block_hash;
      timestamp = format_time header.time;
      timestamp_raw = unix_nano header.time;
      is_latest = false;
    }

-- the loop over the blocks: a block without a header is passed over
unfoldable pub views_of : (Time → Bytes) → List Block → List BlockView
views_of format_time [] = []
views_of format_time (b ∷ bs) =
    let rest = views_of format_time bs in
    elim b.header [ none ↦ rest | some header ↦ view_of format_time b header ∷ rest ]

-- the index that the same loop fills, in the order of the blocks
unfoldable pub index_views : Dict Bytes IndexedBlock → List BlockView → Dict Bytes IndexedBlock
index_views index [] = index
index_views index (v ∷ vs) =
    index_views (insert (to_lower v.hash) (record { view = v; height = v.height }) index) vs

-- `<` on strings
unfoldable pub bytes_ltb : Bytes → Bytes → Bool
bytes_ltb [] [] = false
bytes_ltb [] (y ∷ ys) = true
bytes_ltb (x ∷ xs) [] = false
bytes_ltb (x ∷ xs) (y ∷ ys) = let rest = bytes_ltb xs ys in if x == y then rest else ltb x y

-- the order of `sort.Slice`
unfoldable pub view_less : BlockView → BlockView → Bool
view_less a b = if a.height == b.height then bytes_ltb a.hash b.hash else ltb a.height b.height

-- `sort.Slice`, which may place views that are equal in height and hash in either order
unfoldable pub insert_view : BlockView → List BlockView → List BlockView
insert_view v [] = v ∷ []
insert_view v (w ∷ ws) =
    let rest = insert_view v ws in if view_less w v then w ∷ rest else v ∷ w ∷ ws

unfoldable pub sort_views : List BlockView → List BlockView
sort_views [] = []
sort_views (v ∷ vs) = insert_view v (sort_views vs)

-- `loadShardBlocksFromQuery`: always the database of node 0
unfoldable pub load_shard_blocks :
    (lib : Backend)
    → (Bytes → lib.Bolt)
    → (Time → Bytes)
    → ℤ
    → Outcome (List BlockView × Dict Bytes IndexedBlock)
load_shard_blocks lib disk format_time shard_id = do
  blocks ← Query.query_blocks lib disk (uint64 shard_id) 0
  let views = views_of format_time blocks
  ret (sort_views views, index_views [] views)

-- the loop for the latest height and hash
unfoldable pub latest_of : ℕ → Bytes → List BlockView → ℕ × Bytes
latest_of height hash [] = (height, hash)
latest_of height hash (v ∷ vs) =
    let newer = leb height v.height in
    latest_of (if newer then v.height else height) (if newer then v.hash else hash) vs

abbrev pub mark : ℕ → Bytes → BlockView → BlockView
mark height hash v = record v { is_latest = v.height == height && bytes_eq hash v.hash }

-- the store, once the latest height and hash are known
abbrev pub store_with : ℤ → List BlockView → Dict Bytes IndexedBlock → ℕ × Bytes → ShardStore
store_with id blocks index latest = record {
  id = id;
  latest_height = latest.0;
  latest_hash = latest.1;
  blocks = map (mark latest.0 latest.1) blocks;
  by_hash = index;
}

unfoldable pub store_of : ℤ → List BlockView → Dict Bytes IndexedBlock → ShardStore
store_of id blocks index = store_with id blocks index (latest_of 0 [] blocks)

-- the body of the loop of `loadShardStores`, for one shard
unfoldable pub load_shard :
    (lib : Backend) → (Bytes → lib.Bolt) → (Time → Bytes) → ℤ → Outcome ShardStore
load_shard lib disk format_time shard_id = do
  loaded ← load_shard_blocks lib disk format_time shard_id
  ret (store_of shard_id loaded.0 loaded.1)

-- the last element of a list
abbrev pub last_or : BlockView → List BlockView → BlockView
last_or v [] = v
last_or v (w ∷ ws) = last_or w ws

-- `chainStore.QueryNewestBlock` on a shard that is there
unfoldable pub newest_view : List BlockView → Option BlockView
newest_view [] = none
newest_view (v ∷ vs) = some (last_or v vs)

-- `chainStore.QueryBlock` on a shard that is there
unfoldable pub find_view : ShardStore → Bytes → Option IndexedBlock
find_view s hash = lookup (to_lower (trim_space hash)) s.by_hash

-- the loops of `chainStore.Snapshot`: the transactions, and the earliest time, where a raw time of 0
-- is passed over
unfoldable pub total_txs : List BlockView → ℕ
total_txs [] = 0
total_txs (v ∷ vs) = v.tx_count + total_txs vs

abbrev pub is_zero_raw : ℤ → Bool
is_zero_raw (pos n) = n == 0
is_zero_raw (negsuc n) = false

abbrev pub earlier : Option ℤ → ℤ → ℤ
earlier none ts = ts
earlier (some genesis) ts = if ltb_ℤ ts genesis then ts else genesis

unfoldable pub earliest : Option ℤ → List BlockView → Option ℤ
earliest genesis [] = genesis
earliest genesis (v ∷ vs) =
    earliest
      (if is_zero_raw v.timestamp_raw then genesis else some (earlier genesis v.timestamp_raw)) vs
