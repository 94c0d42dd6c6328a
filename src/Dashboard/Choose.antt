-- ===== src/Dashboard/Choose.antt =====
-- main.go, `chooseShardDatabases`: the database file that stands for each shard. `entries` is the
-- listing of the record directory: the name of each entry, and whether it is a directory. A path of
-- the map is the directory joined with a name of the listing, so the name is kept for it.
pub mod Lowest
use sharded_blockchain_dashb.Base.Int.{int_eq}
use sharded_blockchain_dashb.Base.{
  ◌-◌, ◌^◌, Bool, ◌||◌, not, Option, none, some, List, [], ◌∷◌, if◌then◌else◌, length, drop,
}
use sharded_blockchain_dashb.Base.Keyed.{Bytes, bytes_eq}
use sharded_blockchain_dashb.Base.Dict.{Dict, lookup, insert}
use sharded_blockchain_dashb.Base.Text.{codes}
use sharded_blockchain_dashb.Base.Int.{ℤ, pos, ltb_ℤ}
use sharded_blockchain_dashb.Dashboard.Names.{parse_database_name}

-- `strings.HasSuffix`
unfoldable pub has_suffix : Bytes → Bytes → Bool
has_suffix s suffix = bytes_eq (drop (length s - length suffix) s) suffix

unfoldable pub parse_node_from_path : Bytes → ℤ
parse_node_from_path name = elim (parse_database_name name) [
  | none ↦ pos (2 ^ 30)
  | some parsed ↦ parsed.1
]

-- the entry of shard `shard_id` and node `node_id` against the entry chosen so far
abbrev pub choose_for : Dict ℤ Bytes → Bytes → ℤ → ℤ → Option Bytes → Dict ℤ Bytes
choose_for chosen name shard_id node_id none = insert shard_id name chosen
choose_for chosen name shard_id node_id (some current) =
    if ltb_ℤ node_id (parse_node_from_path current) then insert shard_id name chosen else chosen

-- the body of the loop
unfoldable pub choose_entry : Dict ℤ Bytes → Bytes × Bool → Dict ℤ Bytes
choose_entry chosen (name, is_dir) =
    if is_dir || not (has_suffix name (codes "_database"))
    then chosen
    else elim (parse_database_name name) [
      | none ↦ chosen
      | some parsed ↦ choose_for chosen name parsed.0 parsed.1 (lookup parsed.0 chosen)
    ]

unfoldable pub choose_entries : Dict ℤ Bytes → List (Bytes × Bool) → Dict ℤ Bytes
choose_entries chosen [] = chosen
choose_entries chosen (e ∷ es) = choose_entries (choose_entry chosen e) es

-- `none` is an error of the directory
unfoldable pub choose_shard_databases : Option (List (Bytes × Bool)) → Option (Dict ℤ Bytes)
unfolding choose_entries
choose_shard_databases none = none
choose_shard_databases (some entries) = some (choose_entries [] entries)
