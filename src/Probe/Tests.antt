-- ===== src/Probe/Tests.antt =====
-- cmd/probe on small files.
use sharded_blockchain_dashb.Base.{
  ℕ, ◌≡◌, ◌≤◌, refl, true, false, Option, none, some, List, [], ◌∷◌, ◌++◌, length, All, ◌==◌,
  if◌then◌else◌,
}
use sharded_blockchain_dashb.Base.Keyed.{Bytes, bytes_eq}
use sharded_blockchain_dashb.Base.Text.{codes, hex_encode}
use sharded_blockchain_dashb.Base.Outcome.{ret}
use sharded_blockchain_dashb.LevelDb
use sharded_blockchain_dashb.LevelDb.{uvarint, cut_string, little_endian}
use sharded_blockchain_dashb.Dashboard.Users.{has_prefix}
use sharded_blockchain_dashb.Probe
use sharded_blockchain_dashb.Dashboard.{bytes_ltb}
use sharded_blockchain_dashb.Probe.Listing.{
  insert_row, sort_rows, first_rows, node_path, Left, cut_short, describe_row, list_file,
  list_shards, debug_known_offset, run_probe,
}
use sharded_blockchain_dashb.Probe.{
  Row, rows_scanned, log_rows, block_rows, take_record, batch_rows, read_row_value, printable,
  describe_value,
}
use sharded_blockchain_dashb.Probe.Search.{
  LiteBlock, LiteBlockHeader, Sample, block_at, inspect_flat_database, inspect, look_back, index_of,
}
use sharded_blockchain_dashb.Probe.Same.{mapped, forget_scan, parse_level_db_log_same}
use sharded_blockchain_dashb.Probe.Search.Samples.{Decoded, inspect_flat_database_lem}

-- one full record, whose batch stores "ok" under the key 171, 65
abbrev log : Bytes
log =
    0
    ∷ 0
    ∷ 0
    ∷ 0
    ∷ 19
    ∷ 0
    ∷ 1
    ∷ 0
    ∷ 0
    ∷ 0
    ∷ 0
    ∷ 0
    ∷ 0
    ∷ 0
    ∷ 7
    ∷ 1
    ∷ 0
    ∷ 0
    ∷ 0
    ∷ 1
    ∷ 2
    ∷ 171
    ∷ 65
    ∷ 2
    ∷ codes "ok"

log_run :
    Probe.parse_level_db_log log
    ≡ ret (
        rows_scanned (record {
          offset = 26;
          fragment = [];
          rows = record { key = codes "\\xabA"; hex = codes "ab41"; value = codes "ok" } ∷ [];
        }))
unfolding Probe.parse_level_db_log log_rows block_rows take_record Probe.parse_batch batch_rows
    read_row_value Probe.read_var_string uvarint cut_string little_endian hex_encode printable
log_run = refl

parse_level_db_log_same_example :
    mapped forget_scan (Probe.parse_level_db_log log) ≡ LevelDb.parse_level_db_log log
parse_level_db_log_same_example = parse_level_db_log_same log

abbrev header : LiteBlockHeader
header = record { parent_block_hash = []; state_root = []; tx_root = []; number = 4; miner = 0 }

abbrev block : LiteBlock
block = record { header = header; body = []; hash = 7 ∷ [] }

-- a decoder that takes every "B" for the block
abbrev decode_b : Bytes → Option (LiteBlock × ℕ)
decode_b [] = none
decode_b (c ∷ s) = if c == 66 then some (block, 6) else none

abbrev decode_none : Bytes → Option (LiteBlockHeader × ℕ)
decode_none s = none

abbrev flat : Bytes
flat = 1 ∷ 2 ∷ codes "Block" ++ 1 ∷ 3 ∷ []

flat_run : inspect_flat_database decode_b decode_none flat ≡ some (block_at 2 6 block ∷ [])
unfolding inspect_flat_database inspect look_back index_of has_prefix
flat_run = refl

inspect_flat_database_lem_example :
    (samples : List Sample) × (inspect_flat_database decode_b decode_none flat ≡ some samples)
    × All (Decoded decode_b decode_none flat) samples
    × (length samples ≤ 10)
inspect_flat_database_lem_example = inspect_flat_database_lem decode_b decode_none flat

described : (describe_value (λ v. none) (1 ∷ 65 ∷ [])).text ≡ codes "\\x01A"
unfolding printable
described = refl

abbrev row_of : ℕ → Row
row_of c = record { key = c ∷ []; hex = hex_encode (c ∷ []); value = [] }

-- The rows are shown by rising key.
rows_sorted :
    first_rows (row_of 200 ∷ row_of 18 ∷ row_of 33 ∷ []) ≡ row_of 18 ∷ row_of 33 ∷ row_of 200 ∷ []
unfolding first_rows sort_rows insert_row bytes_ltb hex_encode
rows_sorted = refl

abbrev left_block : Bytes → Left
left_block s = record { failed = true; block = block; unread = 0 }

abbrev one_log : Bytes → Option Bytes
one_log path = if bytes_eq path (node_path (codes "n1")) then some log else none

abbrev no_json : Bytes → Option Bytes
no_json s = none

-- A file of the directory is passed over, a log that is missing ends the program.
cut_run :
    run_probe no_json left_block decode_b decode_none one_log
      (some ((codes "x", false) ∷ (codes "n1", true) ∷ (codes "n2", true) ∷ []))
    ≡ ret (
        cut_short (
          record {
            path = codes "record/ldb/n1/n0/000001.log";
            rows =
                describe_row no_json one_log
                  (record { key = codes "\\xabA"; hex = codes "ab41"; value = codes "ok" })
                ∷ [];
          }
          ∷ record { path = codes "record/ldb/n2/n0/000001.log"; rows = [] }
          ∷ []))
unfolding run_probe list_shards list_file first_rows sort_rows insert_row bytes_eq
    Probe.parse_level_db_log log_rows block_rows take_record Probe.parse_batch batch_rows
    read_row_value Probe.read_var_string uvarint cut_string little_endian hex_encode printable
cut_run = refl

-- Behind the end of the file nothing is shown of the known offset.
known_run : debug_known_offset left_block (some log) 26 ≡ none
unfolding debug_known_offset
known_run = refl
