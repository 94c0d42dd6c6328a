-- ===== src/Dashboard/Tests.antt =====
-- The dashboard's properties on a shard with two blocks.
mod Store
mod Flat
mod AnyOrder
use sharded_blockchain_dashb.Base.Text.{codes}
use sharded_blockchain_dashb.Base.{arith, ◌≡◌, refl, [], ◌∷◌, length, none, some, false, List}
use sharded_blockchain_dashb.Base.Keyed.{Bytes, bytes_eq}
use sharded_blockchain_dashb.Base.Int.{ℤ, pos, negsuc}
use sharded_blockchain_dashb.Base.Outcome.{ret}
use sharded_blockchain_dashb.Core.{Time}
use sharded_blockchain_dashb.Backend.Sample.{sample}
use sharded_blockchain_dashb.Query.Tests.{one, two, after, disk, reopened, after-Decodes}
use sharded_blockchain_dashb.Storage.{database_name}
use sharded_blockchain_dashb.Query.{query_config}
use sharded_blockchain_dashb.Dashboard.Names.{
  parse_database_name, trim_suffix, split_at, atoi, digits_fold, parse_database_name-database_name,
}
use sharded_blockchain_dashb.Dashboard.{
  BlockView, ShardStore, load_shard, total_txs, unix_nano, earliest,
}
use sharded_blockchain_dashb.Dashboard.Newest.{Shows, load_shard_lem}

abbrev no_text : Time → Bytes
no_text t = []

load_shard_lem_example :
    (s : ShardStore) × (v : BlockView) × (load_shard sample disk no_text (pos 0) ≡ ret s)
    × Shows s v
    × (length s.blocks ≡ 2)
    × (total_txs s.blocks ≡ 0)
load_shard_lem_example =
    load_shard_lem sample disk no_text (pos 0) after one (two ∷ []) reopened after-Decodes

abbrev at_time : ℤ → BlockView
at_time ts = record {
  height = 1;
  tx_count = 0;
  hash = [];
  hash_short = [];
  parent_hash = [];
  timestamp = [];
  timestamp_raw = ts;
  is_latest = false;
}

abbrev timeline : List BlockView
timeline = at_time (pos 5) ∷ at_time (pos 0) ∷ at_time (pos 3) ∷ []

earliest_runs : earliest none timeline ≡ some (pos 3)
unfolding earliest
earliest_runs = refl

-- The raw time of a header with the zero time is not 0.
unix_nano_zero : unix_nano 0 ≡ negsuc 6795364578871345151
unfolding unix_nano
unix_nano_zero = refl

parse_database_name-database_name_example :
    parse_database_name (database_name (query_config 3 12)) ≡ some (pos 3, pos 12)
parse_database_name-database_name_example =
    parse_database_name-database_name (query_config 3 12) (omega arith) (omega arith)

-- A name with a sign is read too.
parse_database_name_signed : parse_database_name (codes "-1_0_database") ≡ some (negsuc 0, pos 0)
unfolding parse_database_name trim_suffix split_at atoi digits_fold bytes_eq
parse_database_name_signed = refl
