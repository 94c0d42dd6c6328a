-- ===== src/Dashboard/Store.antt =====
-- main.go, `chainStore`: the stores of all shards, and what the dashboard answers from them. The size
-- of the directory and the listings that the disk gives are arguments, `none` for an error. Go goes
-- through a map in no fixed order; here it is the order of the list.
pub mod Snapshots
pub mod Order
pub mod AnyOrder
use sharded_blockchain_dashb.Base.Int.{int_eq}
use sharded_blockchain_dashb.Base.{
  ℕ, ◌+◌, Bool, Option, none, some, List, [], ◌∷◌, ◌++◌, if◌then◌else◌, length, map,
}
use sharded_blockchain_dashb.Base.Keyed.{Bytes}
use sharded_blockchain_dashb.Base.Dict.{Dict, lookup, insert}
use sharded_blockchain_dashb.Base.Text.{codes, itoa}
use sharded_blockchain_dashb.Base.Int.{ℤ, pos, negsuc, ltb_ℤ}
use sharded_blockchain_dashb.Base.Outcome.{Outcome, ret, ◌>>=◌}
use sharded_blockchain_dashb.Core.{Time}
use sharded_blockchain_dashb.Backend.{Backend}
use sharded_blockchain_dashb.Dashboard.{
  BlockView, IndexedBlock, ShardStore, load_shard, newest_view, find_view, total_txs, earliest,
}
use sharded_blockchain_dashb.Dashboard.Choose.{choose_shard_databases}
use sharded_blockchain_dashb.Dashboard.Users.{load_user_count}

pub record ChainStore : Type 0 where
  pub size_bytes : ℕ
  pub user_count : ℕ
  pub shards : Dict ℤ ShardStore

pub record ShardView : Type 0 where
  pub id : ℤ
  pub label : Bytes
  pub block_count : ℕ
  pub latest_height : ℕ
  pub latest_hash : Bytes
  pub blocks : List BlockView

-- without the texts that the clock and the time zone give, and with the genesis time as it is found
pub record StatView : Type 0 where
  pub blockchain_size_bytes : ℕ
  pub total_transactions : ℕ
  pub genesis : Option ℤ
  pub user_count : ℕ
  pub shard_count : ℕ
  pub block_count : ℕ

module _ (lib : Backend) (disk : Bytes → lib.Bolt) (format_time : Time → Bytes) where
  -- the loop over the chosen files
  unfoldable pub load_each : Dict ℤ ShardStore → Dict ℤ Bytes → Outcome (Dict ℤ ShardStore)
  load_each shards [] = ret shards
  load_each shards ((shard_id, path) ∷ chosen) = do
    s ← load_shard lib disk format_time shard_id
    load_each (insert shard_id s shards) chosen

  unfoldable pub load_shard_stores :
      Option (List (Bytes × Bool)) → Outcome (Option (Dict ℤ ShardStore))
  unfolding load_each
  load_shard_stores entries = elim (choose_shard_databases entries) [
    | none ↦ ret none
    | some chosen ↦ (do shards ← load_each [] chosen; ret (some shards))
  ]

abbrev pub store_or : ℕ → ℕ → Option (Dict ℤ ShardStore) → Option ChainStore
store_or size users none = none
store_or size users (some shards) =
    some (record { size_bytes = size; user_count = users; shards = shards })

module _ (lib : Backend) (disk : Bytes → lib.Bolt) (format_time : Time → Bytes) where
  unfoldable pub new_chain_store :
      Option ℕ
      → Option (List (Bool × Option Bytes))
      → Option (List (Bytes × Bool))
      → Outcome (Option ChainStore)
  new_chain_store none logs entries = ret none
  new_chain_store (some size) logs entries = load_user_count logs >>= λ users. elim users [
    | none ↦ ret none
    | some n ↦ (do
      shards ← load_shard_stores lib disk format_time entries
      ret (store_or size n shards))
  ]

-- `fmt.Sprintf("Shard %d", id)`
abbrev pub shard_label : ℤ → Bytes
shard_label (pos n) = codes "Shard " ++ itoa n
shard_label (negsuc n) = codes "Shard -" ++ itoa (n + 1)

abbrev pub shard_view : ℤ → ShardStore → ShardView
shard_view id s = record {
  id = id;
  label = shard_label id;
  block_count = length s.blocks;
  latest_height = s.latest_height;
  latest_hash = s.latest_hash;
  blocks = s.blocks;
}

-- `sort.Ints` of the keys, each with its store: the keys of a map are distinct
unfoldable pub insert_shard : ℤ × ShardStore → Dict ℤ ShardStore → Dict ℤ ShardStore
insert_shard e [] = e ∷ []
insert_shard e (d ∷ ds) =
    let rest = insert_shard e ds in if ltb_ℤ d.0 e.0 then d ∷ rest else e ∷ d ∷ ds

unfoldable pub sort_shards : Dict ℤ ShardStore → Dict ℤ ShardStore
sort_shards [] = []
sort_shards (e ∷ es) = insert_shard e (sort_shards es)

unfoldable pub query_shards : ChainStore → List ShardView
unfolding sort_shards
query_shards s = map (λ e. shard_view e.0 e.1) (sort_shards s.shards)

unfoldable pub query_shard_blocks : ChainStore → ℤ → Option (List BlockView)
query_shard_blocks s id = elim (lookup id s.shards) [ none ↦ none | some store ↦ some store.blocks ]

-- `none` where the shard is missing or has no block
unfoldable pub query_newest : ChainStore → ℤ → Option BlockView
query_newest s id = elim (query_shard_blocks s id) [
  | none ↦ none
  | some blocks ↦ newest_view blocks
]

unfoldable pub query_indexed : ChainStore → ℤ → Bytes → Option IndexedBlock
query_indexed s id hash = elim (lookup id s.shards) [
  | none ↦ none
  | some store ↦ find_view store hash
]

-- the loops of `Snapshot`, over the shards
pub record Totals : Type 0 where
  pub txs : ℕ
  pub blocks : ℕ
  pub genesis : Option ℤ

unfoldable pub add_shard : Totals → List ShardView → Totals
add_shard t [] = t
add_shard t (v ∷ vs) =
    add_shard
      (record {
        txs = t.txs + total_txs v.blocks;
        blocks = t.blocks + length v.blocks;
        genesis = earliest t.genesis v.blocks;
      })
      vs

abbrev pub no_totals : Totals
no_totals = record { txs = 0; blocks = 0; genesis = none }

-- `Snapshot`: the statistics and the shards
unfoldable pub snapshot : ChainStore → StatView × List ShardView
unfolding query_shards add_shard
snapshot s =
    let shards = query_shards s in
    let t = add_shard no_totals shards in
    (
      record {
        blockchain_size_bytes = s.size_bytes;
        total_transactions = t.txs;
        genesis = t.genesis;
        user_count = s.user_count;
        shard_count = length shards;
        block_count = t.blocks;
      },
      shards,
    )
