-- ===== src/Probe/Listing.antt =====
-- cmd/probe/main.go, `main`: what it prints of each log and of the database file, as values. `files`
-- gives the bytes of the file at a path, `none` for an error; JSON and gob are arguments.
pub mod Lowest
use sharded_blockchain_dashb.Base.{
  ℕ, ◌-◌, Bool, true, false, Option, none, some, List, [], ◌∷◌, ◌++◌, if◌then◌else◌, length, map,
  take, drop, leb,
}
use sharded_blockchain_dashb.Base.Keyed.{Bytes}
use sharded_blockchain_dashb.Base.Text.{codes}
use sharded_blockchain_dashb.Base.Outcome.{Outcome, ret, ◌>>=◌}
use sharded_blockchain_dashb.Dashboard.{bytes_ltb}
use sharded_blockchain_dashb.Probe.{
  Row, Description, describe_value, smaller, RowScan, rows_scanned, rows_eof, rows_out_of_fuel,
  parse_level_db_log,
}
use sharded_blockchain_dashb.Probe.Search.{
  LiteBlock, LiteBlockHeader, Sample, inspect_flat_database,
}

-- `sort.Slice` by the key in hex, which may place rows of one key in either order
unfoldable pub insert_row : Row → List Row → List Row
insert_row r [] = r ∷ []
insert_row r (q ∷ qs) =
    let rest = insert_row r qs in if bytes_ltb q.hex r.hex then q ∷ rest else r ∷ q ∷ qs

unfoldable pub sort_rows : List Row → List Row
sort_rows [] = []
sort_rows (r ∷ rs) = insert_row r (sort_rows rs)

unfoldable pub first_rows : List Row → List Row
unfolding sort_rows
first_rows rows = take (smaller (length rows) 20) (sort_rows rows)

-- what is printed of one log; a log that cannot be read has no rows
pub record Section : Type 0 where
  pub path : Bytes
  pub rows : List (Row × Description)

-- the logs, up to the one that `log.Fatal` ends the program at, if there is one
pub record Listing : Type 0 where
  pub sections : List Section
  pub fatal : Bool

abbrev pub put_section : Section → Listing → Listing
put_section s l = record l { sections = s ∷ l.sections }

abbrev pub fatal_at : Bytes → Listing
fatal_at path = record { sections = record { path = path; rows = [] } ∷ []; fatal = true }

abbrev pub node_path : Bytes → Bytes
node_path name = codes "record/ldb/" ++ name ++ codes "/n0/000001.log"

-- `debugKnownOffset`: whether gob failed, and what it left in the block, whose time is not read
pub record Known : Type 0 where
  pub failed : Bool
  pub header : LiteBlockHeader
  pub body : ℕ
  pub consumed : ℕ

pub record Left : Type 0 where
  pub failed : Bool
  pub block : LiteBlock
  pub unread : ℕ

-- `log.Fatal` on the directory, or on a log; else also the blocks that the search in the database file
-- finds, `none` where the file cannot be read, and the value at the known offset
pub data Report : Type 0 where
  no_directory : Report
  cut_short : List Section → Report
  full_report : List Section → Option (Option (List Sample)) → Option Known → Report

module _ (indented : Bytes → Option Bytes) (files : Bytes → Option Bytes) where
  abbrev pub describe_row : Row → Row × Description
  describe_row r = (r, describe_value indented r.value)

  -- the answer of the log reader, and the logs behind it
  abbrev pub list_rows : Bytes → Outcome Listing → RowScan → Outcome Listing
  list_rows path rest rows_eof = ret (fatal_at path)
  list_rows path rest rows_out_of_fuel = ret (fatal_at path)
  list_rows path rest (rows_scanned s) = rest >>= λ l.
      ret (put_section (record { path = path; rows = map describe_row (first_rows s.rows) }) l)

  unfoldable pub list_file : Bytes → Outcome Listing → Option Bytes → Outcome Listing
  list_file path rest none = ret (fatal_at path)
  list_file path rest (some file) = parse_level_db_log file >>= list_rows path rest

  -- the loop over the shards: a name, and whether it is a directory
  unfoldable pub list_shards : List (Bytes × Bool) → Outcome Listing
  list_shards [] = ret (record { sections = []; fatal = false })
  list_shards ((name, is_dir) ∷ shards) =
      let rest = list_shards shards in
      let here = list_file (node_path name) rest (files (node_path name)) in
      if is_dir then here else rest

module _ (leave : Bytes → Left) where
  unfoldable pub debug_known_offset : Option Bytes → ℕ → Option Known
  debug_known_offset none offset = none
  debug_known_offset (some file) offset =
      let left = leave (drop offset file) in
      if leb (length file) offset
      then none
      else some (record {
        failed = left.failed;
        header = left.block.header;
        body = length left.block.body;
        consumed = length (drop offset file) - left.unread;
      })

module _ (indented : Bytes → Option Bytes) (leave : Bytes → Left)
    (decode_block : Bytes → Option (LiteBlock × ℕ))
    (decode_header : Bytes → Option (LiteBlockHeader × ℕ)) (files : Bytes → Option Bytes) where
  abbrev pub flat_path : Bytes
  flat_path = codes "record/0_0_database"

  abbrev pub inspect_file : Option Bytes → Option (Option (List Sample))
  inspect_file none = none
  inspect_file (some file) = some (inspect_flat_database decode_block decode_header file)

  abbrev pub report_of : Listing → Report
  report_of l =
      if l.fatal
      then cut_short l.sections
      else full_report l.sections (inspect_file (files flat_path))
          (debug_known_offset leave (files flat_path) 28784)

  unfoldable pub run_probe : Option (List (Bytes × Bool)) → Outcome Report
  unfolding list_shards
  run_probe none = ret no_directory
  run_probe (some shards) = list_shards indented files shards >>= λ l. ret (report_of l)
