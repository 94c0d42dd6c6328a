-- ===== src/Dashboard/Tests/Store.antt =====
-- The properties of the dashboard's store, on small directories and stores.
use sharded_blockchain_dashb.Base.Int.{int_eq}
use sharded_blockchain_dashb.Base.Keyed.{bytes_is_eq}
use sharded_blockchain_dashb.Base.{◌≡◌, refl, Bool, true, false, Option, none, some, List, [], ◌∷◌}
use sharded_blockchain_dashb.Base.Keyed.{Bytes, bytes_eq}
use sharded_blockchain_dashb.Base.Dict.{Dict, lookup, insert}
use sharded_blockchain_dashb.Base.Text.{codes}
use sharded_blockchain_dashb.Base.Int.{ℤ, pos}
use sharded_blockchain_dashb.Base.Outcome.{ret}
use sharded_blockchain_dashb.Backend.Sample.{sample}
use sharded_blockchain_dashb.Query.Tests.{one, two, after, disk, reopened, after-Decodes}
use sharded_blockchain_dashb.Base.Space.{trim_left, trim_right}
use sharded_blockchain_dashb.Dashboard.{BlockView, ShardStore, find_view, total_txs}
use sharded_blockchain_dashb.Dashboard.Names.{
  parse_database_name, trim_suffix, split_at, atoi, digits_fold,
}
use sharded_blockchain_dashb.Dashboard.Choose.{
  choose_shard_databases, choose_entries, choose_entry, has_suffix, parse_node_from_path,
}
use sharded_blockchain_dashb.Dashboard.Choose.Lowest.{
  IsLowest, candidates, choose_shard_databases_lem,
}
use sharded_blockchain_dashb.Dashboard.Users.{load_user_count, find_address}
use sharded_blockchain_dashb.Dashboard.Users.Distinct.{Counts, all_rows, load_user_count_lem}
use sharded_blockchain_dashb.Dashboard.Store.{
  ChainStore, query_indexed, sort_shards, insert_shard, snapshot,
}
use sharded_blockchain_dashb.Dashboard.Store.Snapshots.{Describes, snapshot_lem}
use sharded_blockchain_dashb.Dashboard.Transactions.{TransactionView, query_block_transactions}
use sharded_blockchain_dashb.Dashboard.Transactions.Pages.{
  Shows, body_of, query_block_transactions_lem,
}

abbrev listing : List (Bytes × Bool)
listing =
    (codes "0_2_database", false)
    ∷ (codes "0_1_database", false)
    ∷ (codes "1_0_database", true)
    ∷ (codes "ldb", true)
    ∷ []

choose_shard_databases_lem_example :
    (chosen : Dict ℤ Bytes) × (choose_shard_databases (some listing) ≡ some chosen)
    × ((s : ℤ) → IsLowest s (lookup s chosen) (candidates s listing))
choose_shard_databases_lem_example = choose_shard_databases_lem listing

listing_chosen : choose_shard_databases (some listing) ≡ some ((pos 0, codes "0_1_database") ∷ [])
unfolding choose_shard_databases choose_entries choose_entry has_suffix parse_node_from_path
    parse_database_name trim_suffix split_at atoi digits_fold bytes_eq lookup insert
listing_chosen = refl

abbrev logs : List (Bool × Option Bytes)
logs = (false, none) ∷ (true, some []) ∷ []

load_user_count_lem_example : Counts (all_rows logs) (load_user_count (some logs))
load_user_count_lem_example = load_user_count_lem logs

address_found : find_address (codes "x\"00ff00ff00ff00ff00ff11\"") ≡ codes "00ff00ff00ff00ff00ff11"
unfolding find_address
address_found = refl

abbrev view : BlockView
view = record {
  height = 4;
  tx_count = 3;
  hash = codes "02";
  hash_short = codes "02";
  parent_hash = [];
  timestamp = [];
  timestamp_raw = pos 8;
  is_latest = true;
}

abbrev shard : ℤ → ShardStore
shard id = record {
  id = id;
  latest_height = 4;
  latest_hash = codes "02";
  blocks = view ∷ [];
  by_hash = (codes "02", record { view = view; height = 4 }) ∷ [];
}

abbrev store : ChainStore
store = record {
  size_bytes = 100;
  user_count = 7;
  shards = (pos 1, shard (pos 1)) ∷ (pos 0, shard (pos 0)) ∷ [];
}

snapshot_lem_example :
    Describes store (snapshot store).0 (snapshot store).1 (sort_shards store.shards)
snapshot_lem_example = snapshot_lem store

store_total : (snapshot store).0.total_transactions ≡ 6
unfolding snapshot sort_shards insert_shard total_txs
store_total = refl

known : query_indexed store (pos 0) (codes " 02 ") ≡ some (record { view = view; height = 4 })
unfolding query_indexed find_view trim_left trim_right lookup bytes_eq
known = refl

query_block_transactions_lem_example :
    (page : List TransactionView) × (query_block_transactions sample disk store
        (pos 0)
        (codes " 02 ")
      ≡ ret page)
    × Shows page (body_of 4 (one ∷ two ∷ []))
query_block_transactions_lem_example =
    query_block_transactions_lem sample disk store (pos 0) (codes " 02 ") after (one ∷ two ∷ [])
      (record { view = view; height = 4 }) known reopened after-Decodes
