-- ===== src/Chain/Partition.antt =====
-- `MapInfo`, `Update_PartitionMap`, `Get_PartitionMap` and `Get_shard` of chain/blockchain.go: the
-- shard of an account. Each runs under the map's lock, so it is one step on the map.
mod Table
use sharded_blockchain_dashb.Base.Keyed.{bytes_is_eq}
use sharded_blockchain_dashb.Base.{ℕ, none, some, [], ◌∷◌}
use sharded_blockchain_dashb.Base.Dict.{Dict, lookup, insert}
use sharded_blockchain_dashb.Base.Outcome.{Outcome, ret}
use sharded_blockchain_dashb.Core.{Address}
use sharded_blockchain_dashb.Address.{addr2shard}
use Table.{shard_data}

-- the loop of `MapInfo`: later rows win
unfoldable pub fill_map : Dict Address ℕ → Dict Address ℕ → Dict Address ℕ
fill_map m [] = m
fill_map m ((account, shard) ∷ rows) = fill_map (insert account shard m) rows

unfoldable pub map_info : Dict Address ℕ
unfolding shard_data fill_map
map_info = fill_map [] shard_data

unfoldable pub update_partition_map : Dict Address ℕ → Address → ℕ → Dict Address ℕ
update_partition_map m key val = insert key val m

unfoldable pub get_partition_map : ℕ → Dict Address ℕ → Address → Outcome ℕ
get_partition_map shard_num m key = elim (lookup key m) [
  | none ↦ addr2shard shard_num key
  | some shard ↦ ret shard
]

unfoldable pub get_shard : ℕ → Address → Outcome ℕ
get_shard shard_num key = addr2shard shard_num key
