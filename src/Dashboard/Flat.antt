-- ===== src/Dashboard/Flat.antt =====
-- main.go, `parseShardDatabase` and `extractTimestamp`: a reader of the blocks in the bytes of a bolt
-- file, without bolt. gob is an argument: the value and how many bytes it read, or `none` for an error.
pub mod Ends
pub mod Timestamp
pub mod Best
pub mod Frequent
use sharded_blockchain_dashb.Base.{
  ℕ, zero, suc, ◌+◌, ◌-◌, ◌*◌, Bool, true, false, ◌&&◌, ◌||◌, Option, none, some, List, [], ◌∷◌,
  ltb, ◌==◌, if◌then◌else◌, length, take, drop, map,
}
use sharded_blockchain_dashb.Base.Keyed.{Bytes, nat_eq, bytes_is_eq}
use sharded_blockchain_dashb.Base.Dict.{Dict, lookup, insert}
use sharded_blockchain_dashb.Base.Text.{hex_encode}
use sharded_blockchain_dashb.Core.{Time, is_zero}
use sharded_blockchain_dashb.LevelDb.{little_endian}
use sharded_blockchain_dashb.Probe.Search.{index_of, needle}
use sharded_blockchain_dashb.Dashboard.{
  BlockView, IndexedBlock, short_hash, unix_epoch, unix_nano, sort_views,
}
use sharded_blockchain_dashb.Dashboard.Transactions.{LiteTx}

pub record LiteBlockHeader : Type 0 where
  pub parent_block_hash : Bytes
  pub state_root : Bytes
  pub tx_root : Bytes
  pub number : ℕ
  pub time : Time
  pub miner : ℕ

pub record LiteBlock : Type 0 where
  pub header : LiteBlockHeader
  pub body : List (Option LiteTx)
  pub hash : Bytes

-- how often a value was seen, and where first
pub record Candidate : Type 0 where
  pub count : ℕ
  pub at : ℕ

-- the years 2020 to 2026
abbrev pub min_unix_nano : ℕ
min_unix_nano = 1577836800 * 1000000000

abbrev pub max_unix_nano : ℕ
max_unix_nano = 1798761600 * 1000000000

abbrev pub seen_again : ℕ → Option Candidate → Candidate
seen_again i none = record { count = 1; at = i }
seen_again i (some c) = record { count = c.count + 1; at = c.at }

abbrev pub count_value : ℕ → ℕ → Dict ℕ Candidate → Dict ℕ Candidate
count_value i v counts =
    if ltb v min_unix_nano || ltb max_unix_nano v
    then counts
    else insert v (seen_again i (lookup v counts)) counts

-- the first loop, from place `i`; the last seven places have no eight bytes
unfoldable pub count_values : ℕ → Bytes → Dict ℕ Candidate → Dict ℕ Candidate
count_values i [] counts = counts
count_values i (c ∷ s) counts = count_values (i + 1) s (
    if ltb (length (c ∷ s)) 8
    then counts
    else count_value i (little_endian (take 8 (c ∷ s))) counts)

abbrev pub beats : Candidate → Candidate → Bool
beats c best = ltb best.count c.count || ((c.count == best.count) && ltb c.at best.at)

abbrev pub better : ℕ × Candidate → Option (ℕ × Candidate) → Option (ℕ × Candidate)
better c none = some c
better (v, c) (some (w, best)) = if beats c best then some (v, c) else some (w, best)

-- the second loop
unfoldable pub best_value : Option (ℕ × Candidate) → Dict ℕ Candidate → Option (ℕ × Candidate)
best_value best [] = best
best_value best (c ∷ cs) = best_value (better c best) cs

abbrev pub time_of : Option (ℕ × Candidate) → Time
time_of none = 0
time_of (some (v, c)) = unix_epoch + v

unfoldable pub extract_timestamp : Bytes → Time
extract_timestamp bytes = time_of (best_value none (count_values 0 bytes []))

-- where a block was found: its start, the number of its bytes, and the block
pub record Found : Type 0 where
  pub start : ℕ
  pub consumed : ℕ
  pub block : LiteBlock

module _ (decode : Bytes → Option (LiteBlock × ℕ)) where
  -- what is decoded at `start`, unless it is passed over
  abbrev pub accept : Bytes → ℕ → Option (LiteBlock × ℕ) → Option Found
  accept file start none = none
  accept file start (some (block, consumed)) =
      if (length block.hash == 0) || (consumed == 0) || ltb (length file) (start + consumed)
      then none
      else some (record { start = start; consumed = consumed; block = block })

  -- the loop over `back`, the number of rounds left
  unfoldable pub find_block : ℕ → Bytes → ℕ → Option Found
  find_block zero file at = none
  find_block (suc back) file at =
      let rest = find_block back file at in
      let here = accept file (at - back) (decode (drop (at - back) file)) in
      if ltb at back then rest else elim here [ none ↦ rest | some found ↦ some found ]

module _ (format_time : Time → Bytes) where
  abbrev pub time_in : Bytes → Found → Time
  time_in file found =
      if is_zero found.block.header.time
      then extract_timestamp (take found.consumed (drop found.start file))
      else found.block.header.time

  abbrev pub index_found : Bytes → Found → IndexedBlock
  index_found file found =
      let header = found.block.header in
      let hash = hex_encode found.block.hash in
      let ts = time_in file found in
      record {
        view = record {
          height = header.number;
          tx_count = length found.block.body;
          hash = hash;
          hash_short = short_hash hash;
          parent_hash = hex_encode header.parent_block_hash;
          timestamp = format_time ts;
          timestamp_raw = unix_nano ts;
          is_latest = false;
        };
        height = header.number;
      }

  -- a block of a hash that was seen replaces it where it has more transactions or is higher
  abbrev pub newer : IndexedBlock → Option IndexedBlock → Bool
  newer b none = true
  newer b (some old) = ltb old.view.tx_count b.view.tx_count || ltb old.view.height b.view.height

  abbrev pub put_found : Dict Bytes IndexedBlock → IndexedBlock → Dict Bytes IndexedBlock
  put_found seen b = if newer b (lookup b.view.hash seen) then insert b.view.hash b seen else seen

module _ (decode : Bytes → Option (LiteBlock × ℕ)) (format_time : Time → Bytes) where
  abbrev pub put_if_found : Bytes → Dict Bytes IndexedBlock → Option Found → Dict Bytes IndexedBlock
  put_if_found file seen none = seen
  put_if_found file seen (some found) =
      put_found format_time seen (index_found format_time file found)

  -- where the search goes on behind the name at `at`
  abbrev pub behind : ℕ → Option Found → ℕ
  behind at none = at + length needle
  behind at (some found) = found.start + found.consumed

  -- the loop over `idx`; `none` is a loop longer than the fuel
  unfoldable pub scan_flat :
      ℕ → Bytes → ℕ → Dict Bytes IndexedBlock → Option (Dict Bytes IndexedBlock)
  scan_flat zero file idx seen = none
  scan_flat (suc fuel) file idx seen =
      if ltb idx (length file)
      then elim (index_of needle (drop idx file)) [
        | none ↦ some seen
        | some i ↦
            (let found = find_block decode 41 file (i + idx) in
              scan_flat fuel file (behind (i + idx) found) (put_if_found file seen found))
      ]
      else some seen

  abbrev pub entry_view : Bytes × IndexedBlock → BlockView
  entry_view (hash, b) = b.view

  abbrev pub with_views :
      Option (Dict Bytes IndexedBlock) → Option (List BlockView × Dict Bytes IndexedBlock)
  with_views none = none
  with_views (some seen) = some (sort_views (map entry_view seen), seen)

  unfoldable pub parse_shard_database :
      ℕ → Bytes → Option (List BlockView × Dict Bytes IndexedBlock)
  unfolding scan_flat
  parse_shard_database fuel file = with_views (scan_flat fuel file 0 [])
