-- ===== src/Dashboard/Tests/Flat.antt =====
-- `parseShardDatabase` on small files.
use sharded_blockchain_dashb.Base.{
  ℕ, zero, suc, ◌+◌, ◌≡◌, refl, Option, none, some, List, [], ◌∷◌, ◌++◌, length, All, ◌==◌,
  if◌then◌else◌, arith, drop, true, ◌*◌, ◌^◌, map,
}
use sharded_blockchain_dashb.Base.Keyed.{Bytes, nat_eq}
use sharded_blockchain_dashb.Base.Maps.{AreDistinct, SameMap}
use sharded_blockchain_dashb.Base.Dict.{Dict, lookup, insert}
use sharded_blockchain_dashb.Base.Text.{codes}
use sharded_blockchain_dashb.Core.{Time}
use sharded_blockchain_dashb.LevelDb.{little_endian}
use sharded_blockchain_dashb.Probe.Search.{index_of, needle}
use sharded_blockchain_dashb.Dashboard.{BlockView, IndexedBlock}
use sharded_blockchain_dashb.Dashboard.Users.{has_prefix}
use sharded_blockchain_dashb.Dashboard.Ordered.{AreInOrder, view_sum}
use sharded_blockchain_dashb.Dashboard.Flat.{
  LiteBlock, parse_shard_database, scan_flat, find_block, extract_timestamp, count_values,
  best_value, time_of, Candidate, entry_view,
}
use sharded_blockchain_dashb.Dashboard.Flat.Frequent.{IsMostFrequent, extract_timestamp_lem}
use sharded_blockchain_dashb.Dashboard.Flat.Ends.{ReadsPast, FromFile, parse_shard_database_lem}

abbrev block : LiteBlock
block = record {
  header = record {
    parent_block_hash = [];
    state_root = [];
    tx_root = [];
    number = 4;
    time = 9;
    miner = 0;
  };
  body = [];
  hash = 7 ∷ [];
}

-- a decoder that takes every "B" for the first of the block's six bytes
abbrev decode_b : Bytes → Option (LiteBlock × ℕ)
decode_b [] = none
decode_b (c ∷ s) = if c == 66 then some (block, 6) else none

abbrev no_text : Time → Bytes
no_text t = []

abbrev flat : Bytes
flat = codes "Block" ++ 1 ∷ []

-- the only name begins at place 0
only_name : (at : ℕ) → has_prefix (drop at flat) needle ≡ true → at ≡ 0
unfolding has_prefix
only_name zero h = refl
only_name (suc zero) h = cc
only_name (suc (suc zero)) h = cc
only_name (suc (suc (suc zero))) h = cc
only_name (suc (suc (suc (suc zero)))) h = cc
only_name (suc (suc (suc (suc (suc zero))))) h = cc
only_name (suc (suc (suc (suc (suc (suc zero)))))) h = cc
only_name (suc (suc (suc (suc (suc (suc (suc n))))))) h = cc

flat-ReadsPast : ReadsPast decode_b flat
flat-ReadsPast zero at consumed block before near named read =
    ground (arith, only_name at named, read)
flat-ReadsPast (suc start) at consumed block before near named read =
    absurd (omega (arith, only_name at named, before))

parse_shard_database_lem_example :
    (views : List BlockView) × (seen : Dict Bytes IndexedBlock) × (parse_shard_database decode_b
        no_text 7 flat
      ≡ some (views, seen))
    × (length views ≡ length seen)
    × AreInOrder views
    × ((f : BlockView → ℕ) → view_sum f views ≡ view_sum f (map (entry_view decode_b no_text) seen))
    × All (FromFile decode_b no_text flat) seen
parse_shard_database_lem_example = parse_shard_database_lem decode_b no_text flat flat-ReadsPast

-- a decoder that reads a block from one byte, a 2
abbrev decode_two : Bytes → Option (LiteBlock × ℕ)
decode_two [] = none
decode_two (c ∷ s) = if c == 2 then some (block, 1) else none

abbrev short_block : Bytes
short_block = 2 ∷ flat

-- A block that ends before the name, at place 1, sends the search back to place 1 each time.
turns_back :
    (fuel : ℕ) (seen : Dict Bytes IndexedBlock)
    → scan_flat decode_two no_text fuel short_block 1 seen ≡ none
unfolding scan_flat find_block index_of has_prefix
turns_back zero seen = refl
turns_back (suc fuel) seen = turns_back fuel _

-- a time of the year 2023 behind a byte
abbrev stamped_bytes : Bytes
stamped_bytes = 5 ∷ 0 ∷ 0 ∷ 0 ∷ 0 ∷ 0 ∷ 0 ∷ 0 ∷ 24 ∷ []

stamped-time : extract_timestamp stamped_bytes ≡ 62135596800000000000 + 24 * 2 ^ 56
unfolding extract_timestamp count_values best_value lookup insert little_endian
stamped-time = refl

extract_timestamp_lem_example :
    IsMostFrequent stamped_bytes (extract_timestamp stamped_bytes)
    × ((given : Dict ℕ Candidate)
        → AreDistinct given
        → SameMap (count_values 0 stamped_bytes []) given
        → time_of (best_value none given) ≡ extract_timestamp stamped_bytes)
extract_timestamp_lem_example = extract_timestamp_lem stamped_bytes
