-- ===== src/Probe.antt =====
-- cmd/probe/main.go: its reader of a LevelDB log, whose rows also carry the printable key, and
-- `describeValue`, with JSON as an argument; Search has the rest. Bytes are numbers below 256; an `int`
-- is 64 bits wide.
pub mod Same
pub mod Search
pub mod Listing
mod Tests
use sharded_blockchain_dashb.Base.{
  ℕ, zero, suc, ◌+◌, ◌*◌, ◌/◌, ◌%◌, Option, none, some, List, [], ◌∷◌, ◌++◌, ltb, leb, ◌==◌,
  if◌then◌else◌, ◌&&◌, Bool, true, false, length, get_elem?, take, drop,
}
use sharded_blockchain_dashb.Base.Keyed.{Bytes}
use sharded_blockchain_dashb.Base.Text.{hex_encode, hex_char}
use sharded_blockchain_dashb.Base.Outcome.{Outcome, ret, ◌>>=◌}
use sharded_blockchain_dashb.LevelDb.{
  Read, found, bad_varint, unexpected_eof, uvarint, little_endian, cut_string, end_of,
}

pub record Row : Type 0 where
  pub key : Bytes
  pub hex : Bytes
  pub value : Bytes

unfoldable pub printable : Bytes → Bytes
printable [] = []
printable (c ∷ cs) =
    let more = printable cs in
    if leb 32 c && leb c 126
    then c ∷ more
    else b'\\' ∷ b'x' ∷ hex_char (c / 16) ∷ hex_char (c % 16) ∷ more

abbrev pub smaller : ℕ → ℕ → ℕ
smaller a b = if ltb a b then a else b

-- the lines of `describeValue`; `indented` is the JSON of a value that is JSON
pub record Description : Type 0 where
  pub value_hex : Bytes
  pub json : Option Bytes
  pub text : Bytes

abbrev pub trimmed : Bytes → Bytes
trimmed v = if ltb 120 (length v) then take 120 v else v

abbrev pub describe_value : (Bytes → Option Bytes) → Bytes → Description
describe_value indented v = record {
  value_hex = hex_encode (trimmed v);
  json = indented v;
  text = printable (trimmed v);
}

unfoldable pub read_var_string : Bytes → ℕ → Outcome Read
unfolding cut_string
read_var_string file pos = elim (uvarint 9 (drop pos file)) [
  | none ↦ ret bad_varint
  | some (n, used) ↦ cut_string file (pos + used) (end_of (pos + used) n)
]

-- the rows read, and whether an error ended the reading
pub record RowBatch : Type 0 where
  pub rows : List Row
  pub failed : Bool

abbrev pub no_rows : Bool → RowBatch
no_rows failed = record { rows = []; failed = failed }

abbrev pub put_row : Bytes → Bytes → RowBatch → RowBatch
put_row k v b = record {
  rows = record { key = printable k; hex = hex_encode k; value = v } ∷ b.rows;
  failed = b.failed;
}

unfoldable pub read_row_value : ℕ → Bytes → ℕ → Outcome Read
read_row_value kind payload pos =
    let value = read_var_string payload pos in if kind == 1 then value else ret (found [] pos)

-- behind the key and its value
abbrev pub take_row : Bytes → (ℕ → Outcome RowBatch) → Read → Outcome RowBatch
take_row k rest bad_varint = ret (no_rows true)
take_row k rest unexpected_eof = ret (no_rows true)
take_row k rest (found v after) = rest after >>= λ more. ret (put_row k v more)

abbrev pub take_key : ℕ → Bytes → (ℕ → Outcome RowBatch) → Read → Outcome RowBatch
take_key kind payload rest bad_varint = ret (no_rows true)
take_key kind payload rest unexpected_eof = ret (no_rows true)
take_key kind payload rest (found k next) = read_row_value kind payload next >>= take_row k rest

unfoldable pub batch_rows : ℕ → Bytes → ℕ → Outcome RowBatch
batch_rows zero payload pos = ret (no_rows false)
batch_rows (suc left) payload pos = elim (get_elem? payload pos) [
  | none ↦ ret (no_rows false)
  | some kind ↦
      read_var_string payload (suc pos) >>= take_key kind payload (batch_rows left payload)
]

unfoldable pub parse_batch : Bytes → Outcome RowBatch
unfolding batch_rows
parse_batch payload =
    let rows = batch_rows (little_endian (take 4 (drop 8 payload))) payload 12 in
    if ltb (length payload) 12 then ret (no_rows true) else rows

pub record RowState : Type 0 where
  pub offset : ℕ
  pub fragment : Bytes
  pub rows : List Row

-- the state after a loop, the error for a short file, or a loop longer than the fuel
pub data RowScan : Type 0 where
  rows_scanned : RowState → RowScan
  rows_eof : RowScan
  rows_out_of_fuel : RowScan

abbrev pub add_rows_of : List Row → RowBatch → List Row
add_rows_of rows b = if b.failed then rows else rows ++ b.rows

unfoldable pub take_record : ℕ → Bytes → RowState → Outcome RowState
take_record kind payload s =
    let full = parse_batch payload >>= λ b. ret (record s { rows = add_rows_of s.rows b }) in
    let last = parse_batch (s.fragment ++ payload) >>= λ b.
    ret (record { offset = s.offset; fragment = []; rows = add_rows_of s.rows b }) in
    if kind == 1
    then full
    else if kind == 2
    then ret (record s { fragment = payload })
    else if kind == 3
    then ret (record s { fragment = s.fragment ++ payload })
    else if kind == 4
    then last
    else ret (record s { fragment = [] })

-- the inner loop; its test `blockEnd-offset < 7` never holds
unfoldable pub block_rows : ℕ → Bytes → ℕ → RowState → Outcome RowScan
unfolding take_record
block_rows zero file block_end s = ret rows_out_of_fuel
block_rows (suc fuel) file block_end s =
    let n = little_endian (take 2 (drop (s.offset + 4) file)) in
    let kind = little_endian (take 1 (drop (s.offset + 6) file)) in
    let start = s.offset + 7 in
    let next =
      take_record kind (take n (drop start file)) (record s { offset = start + n })
      >>= block_rows fuel file block_end in
    if ltb block_end (s.offset + 7)
    then ret (rows_scanned s)
    else if (n == 0) && (kind == 0)
    then ret (rows_scanned (record s { offset = block_end }))
    else if ltb (length file) (start + n)
    then ret rows_eof
    else next

abbrev pub go_on : (RowState → Outcome RowScan) → RowScan → Outcome RowScan
go_on f (rows_scanned s) = f s
go_on f rows_eof = ret rows_eof
go_on f rows_out_of_fuel = ret rows_out_of_fuel

-- the outer loop, over the blocks of 32768 bytes
unfoldable pub log_rows : ℕ → Bytes → RowState → Outcome RowScan
log_rows zero file s = ret rows_out_of_fuel
log_rows (suc fuel) file s =
    let block_end = smaller ((s.offset / 32768 + 1) * 32768) (length file) in
    let rest =
      block_rows (suc (length file)) file block_end s
      >>= go_on (λ t. log_rows fuel file (record t { offset = block_end })) in
    if ltb s.offset (length file) then rest else ret (rows_scanned s)

unfoldable pub parse_level_db_log : Bytes → Outcome RowScan
unfolding log_rows
parse_level_db_log file =
    log_rows (suc (length file)) file (record { offset = 0; fragment = []; rows = [] })
