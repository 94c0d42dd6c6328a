-- ===== src/LevelDb/Tests.antt =====
-- The log reader's properties on small files.
use sharded_blockchain_dashb.Base.{
  ℕ, ◌≡◌, ◌≢◌, refl, take, drop, List, [], ◌∷◌, arith, false, length,
}
use sharded_blockchain_dashb.Base.Keyed.{Bytes}
use sharded_blockchain_dashb.Base.Text.{codes, hex_encode}
use sharded_blockchain_dashb.Base.Outcome.{ret, panic}
use sharded_blockchain_dashb.LevelDb.{
  uvarint, read_var_string, parse_batch, parse_level_db_log, scanned, out_of_fuel, Batch, LogState,
  parse_rows, read_value, cut_string, little_endian, scan_log, scan_block, use_record, add_batch,
}
use sharded_blockchain_dashb.LevelDb.Bounds.{AreBytes, read_var_string_lem}
use sharded_blockchain_dashb.LevelDb.Batches.{Entry, store, delete, put_entries, put_batch}
use sharded_blockchain_dashb.LevelDb.Batches.Logs.{
  Logged, put_log, logged_rows, parse_level_db_log-put_log,
}
use sharded_blockchain_dashb.LevelDb.Batches.Blocks.{Piece, LogBlock, put_blocks}
use sharded_blockchain_dashb.LevelDb.Batches.Cut.{
  whole, first, middle, last, all_read, parse_level_db_log-put_blocks,
}
use sharded_blockchain_dashb.LevelDb.Log.{parse_level_db_log_ends}

-- a length of 2 ^ 64 - 1
abbrev corrupt : Bytes
corrupt = 255 ∷ 255 ∷ 255 ∷ 255 ∷ 255 ∷ 255 ∷ 255 ∷ 255 ∷ 255 ∷ 1 ∷ []

corrupt-AreBytes : AreBytes corrupt
corrupt-AreBytes = ground arith

read_var_string_lem_example : read_var_string corrupt 0 ≡ panic
unfolding uvarint
read_var_string_lem_example =
    read_var_string_lem corrupt 0 18446744073709551615 10 corrupt-AreBytes (omega arith)
      (omega arith) refl

abbrev seq : Bytes
seq = 0 ∷ 0 ∷ 0 ∷ 0 ∷ 0 ∷ 0 ∷ 0 ∷ 7 ∷ []

abbrev work : List Entry
work = store (171 ∷ 16 ∷ []) (codes "ok") ∷ delete (1 ∷ []) ∷ []

abbrev work_rows : Batch
work_rows = record {
  rows =
      record { key_hex = codes "ab10"; value = codes "ok" }
      ∷ record { key_hex = codes "01"; value = [] }
      ∷ [];
  failed = false;
}

-- one full record of 22 bytes
abbrev log : Bytes
unfolding put_entries
log = 0 ∷ 0 ∷ 0 ∷ 0 ∷ 22 ∷ 0 ∷ 1 ∷ put_batch seq work

parse_level_db_log_ends_example : parse_level_db_log log ≢ ret out_of_fuel
parse_level_db_log_ends_example = parse_level_db_log_ends log

log_run :
    parse_level_db_log log
    ≡ ret (scanned (record { offset = 29; fragment = []; rows = work_rows.rows }))
unfolding parse_level_db_log scan_log scan_block use_record add_batch parse_batch parse_rows
    read_value read_var_string uvarint cut_string little_endian hex_encode put_entries
log_run = refl

abbrev two_batches : List Logged
two_batches =
    record { checksum = 1 ∷ 2 ∷ 3 ∷ 4 ∷ []; seq = seq; work = work }
    ∷ record { checksum = 0 ∷ 0 ∷ 0 ∷ 0 ∷ []; seq = seq; work = delete (9 ∷ []) ∷ [] }
    ∷ []

two_batches_read :
    parse_level_db_log (put_log two_batches)
    ≡ ret (
        scanned (record {
          offset = length (put_log two_batches);
          fragment = [];
          rows = logged_rows two_batches;
        }))
unfolding put_entries
two_batches_read =
    parse_level_db_log-put_log two_batches
      ((refl, refl, omega arith), ((refl, refl, omega arith), tt)) (omega arith)

abbrev cut_batch : Logged
cut_batch = record { checksum = 0 ∷ 0 ∷ 0 ∷ 0 ∷ []; seq = seq; work = work }

abbrev small_batch : Logged
small_batch = record { checksum = 1 ∷ 2 ∷ 3 ∷ 4 ∷ []; seq = seq; work = delete (9 ∷ []) ∷ [] }

abbrev part : ℕ → Bytes → Piece
part kind payload = record { checksum = 0 ∷ 0 ∷ 0 ∷ 0 ∷ []; kind = kind; payload = payload }

-- one batch in three records, the next in one, and three bytes left over
abbrev one_block : LogBlock
unfolding put_entries
one_block = record {
  pieces =
      part 2 (take 5 (put_batch seq work))
      ∷ part 3 (take 9 (drop 5 (put_batch seq work)))
      ∷ part 4 (drop 14 (put_batch seq work))
      ∷ part 1 (put_batch seq small_batch.work)
      ∷ [];
  pad = 0 ∷ 0 ∷ 0 ∷ [];
}

parse_level_db_log-put_blocks_example :
    (t : LogState) × (parse_level_db_log (put_blocks (one_block ∷ [])) ≡ ret (scanned t))
    × (t.rows ≡ logged_rows (cut_batch ∷ small_batch ∷ []))
unfolding put_entries
parse_level_db_log-put_blocks_example =
    parse_level_db_log-put_blocks (one_block ∷ []) (cut_batch ∷ small_batch ∷ [])
      (
        (
          (refl, omega arith, omega arith),
          (
            (refl, omega arith, omega arith),
            ((refl, omega arith, omega arith), ((refl, omega arith, omega arith), tt)),
          ),
        ),
        omega arith,
        omega arith,
        omega arith,
      )
      (first refl (
        middle refl (
          last cut_batch refl refl ((refl, refl, omega arith), omega arith)
            (whole small_batch refl refl ((refl, refl, omega arith), omega arith) all_read))))
