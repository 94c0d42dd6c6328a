-- ===== src/LevelDb.antt =====
-- main.go: the reader of the LevelDB log files from which the dashboard counts the accounts. Bytes
-- are numbers below 256; an `int` is 64 bits wide and its wrap-around is written out.
pub mod Strings
pub mod Bounds
pub mod Log
pub mod Batches
mod Tests
use sharded_blockchain_dashb.Base.{
  ℕ, zero, suc, ◌+◌, ◌-◌, ◌*◌, ◌/◌, ◌%◌, ◌^◌, Option, none, some, List, [], ◌∷◌, ◌++◌, ltb, leb,
  ◌==◌, if◌then◌else◌, ◌&&◌, Bool, true, false, length, get_elem?, take, drop, min,
}
use sharded_blockchain_dashb.Base.Keyed.{Bytes}
use sharded_blockchain_dashb.Base.Text.{hex_encode}
use sharded_blockchain_dashb.Base.Outcome.{Outcome, ret, panic, ◌>>=◌}

pub record BatchRow : Type 0 where
  pub key_hex : Bytes
  pub value : Bytes

-- `binary.Uvarint` with `left` bytes to come before the last one that 64 bits leave room for: the
-- value and the number of bytes read, or `none` where that number is not positive
unfoldable pub uvarint : ℕ → Bytes → Option (ℕ × ℕ)
uvarint left [] = none
uvarint zero (b ∷ bs) = if ltb b 2 then some (b, 1) else none
uvarint (suc left) (b ∷ bs) =
    let more = uvarint left bs in
    if ltb b 128
    then some (b, 1)
    else elim more [ none ↦ none | some (v, n) ↦ some (b - 128 + 128 * v, suc n) ]

-- `binary.LittleEndian` over a slice of its own length
unfoldable pub little_endian : Bytes → ℕ
little_endian [] = 0
little_endian (b ∷ bs) = b + 256 * little_endian bs

-- what `readVarString` returns: the string and the position after it, or an error
pub data Read : Type 0 where
  found : Bytes → ℕ → Read
  bad_varint : Read
  unexpected_eof : Read

-- `pos + int(length)` as 64 bits; from 2 ^ 63 on it is negative
abbrev pub end_of : ℕ → ℕ → ℕ
end_of pos n = (pos + n) % 2 ^ 64

-- `data[pos:end]` after the test against `len(data)`: a negative end, or one before `pos`, panics
unfoldable pub cut_string : Bytes → ℕ → ℕ → Outcome Read
cut_string file pos end =
    if leb (2 ^ 63) end
    then panic
    else if ltb (length file) end
    then ret unexpected_eof
    else if ltb end pos
    then panic
    else ret (found (take (end - pos) (drop pos file)) end)

unfoldable pub read_var_string : Bytes → ℕ → Outcome Read
unfolding cut_string
read_var_string file pos = elim (uvarint 9 (drop pos file)) [
  | none ↦ ret bad_varint
  | some (n, used) ↦ cut_string file (pos + used) (end_of (pos + used) n)
]

-- the rows read so far, and whether an error ended the reading
pub record Batch : Type 0 where
  pub rows : List BatchRow
  pub failed : Bool

abbrev pub done : Batch
done = record { rows = []; failed = false }

abbrev pub broken : Batch
broken = record { rows = []; failed = true }

abbrev pub with_row : BatchRow → Batch → Batch
with_row row b = record { rows = row ∷ b.rows; failed = b.failed }

-- the value of a row: only a row of kind 1 has one
unfoldable pub read_value : ℕ → Bytes → ℕ → Outcome Read
read_value kind payload pos =
    let value = read_var_string payload pos in if kind == 1 then value else ret (found [] pos)

-- the loop over the rows, `left` of which are still announced
unfoldable pub parse_rows : ℕ → Bytes → ℕ → Outcome Batch
unfolding read_value
parse_rows zero payload pos = ret done
parse_rows (suc left) payload pos = elim (get_elem? payload pos) [
  | none ↦ ret done
  | some kind ↦
      (read_var_string payload (suc pos) >>= λ key. elim key [
        | bad_varint ↦ ret broken
        | unexpected_eof ↦ ret broken
        | found k next ↦
            (read_value kind payload next >>= λ value. elim value [
              | bad_varint ↦ ret broken
              | unexpected_eof ↦ ret broken
              | found v after ↦
                  (parse_rows left payload after >>= λ more.
                  ret (with_row (record { key_hex = hex_encode k; value = v }) more))
            ])
      ])
]

unfoldable pub parse_batch : Bytes → Outcome Batch
unfolding parse_rows little_endian
parse_batch payload =
    let rows = parse_rows (little_endian (take 4 (drop 8 payload))) payload 12 in
    if ltb (length payload) 12 then ret broken else rows

-- the state of `parseLevelDBLog`
pub record LogState : Type 0 where
  pub offset : ℕ
  pub fragment : Bytes
  pub rows : List BatchRow

-- what a loop of `parseLevelDBLog` gives: the state after it, the error `io.ErrUnexpectedEOF`, or a
-- loop that ran longer than the model's fuel
pub data Scan : Type 0 where
  scanned : LogState → Scan
  log_eof : Scan
  out_of_fuel : Scan

-- rows of a batch with an error are dropped
unfoldable pub add_batch : List BatchRow → Batch → List BatchRow
add_batch rows b = if b.failed then rows else rows ++ b.rows

-- the switch over the type of a record
unfoldable pub use_record : ℕ → Bytes → LogState → Outcome LogState
unfolding add_batch
use_record kind payload s =
    let full = parse_batch payload >>= λ b. ret (record s { rows = add_batch s.rows b }) in
    let last = parse_batch (s.fragment ++ payload) >>= λ b.
    ret (record { offset = s.offset; fragment = []; rows = add_batch s.rows b }) in
    if kind == 1
    then full
    else if kind == 2
    then ret (record s { fragment = payload })
    else if kind == 3
    then ret (record s { fragment = s.fragment ++ payload })
    else if kind == 4
    then last
    else ret (record s { fragment = [] })

-- the length in a record's header, and its type
abbrev pub record_length : Bytes → ℕ → ℕ
record_length file offset = little_endian (take 2 (drop (offset + 4) file))

abbrev pub record_type : Bytes → ℕ → ℕ
record_type file offset = little_endian (take 1 (drop (offset + 6) file))

-- the inner loop, over the records of one block; the test `blockEnd-offset < 7` in it never holds
unfoldable pub scan_block : ℕ → Bytes → ℕ → LogState → Outcome Scan
unfolding use_record little_endian
scan_block zero file block_end s = ret out_of_fuel
scan_block (suc fuel) file block_end s =
    let n = record_length file s.offset in
    let kind = record_type file s.offset in
    let start = s.offset + 7 in
    let next =
      use_record kind (take n (drop start file)) (record s { offset = start + n })
      >>= scan_block fuel file block_end in
    if ltb block_end (s.offset + 7)
    then ret (scanned s)
    else if (n == 0) && (kind == 0)
    then ret (scanned (record s { offset = block_end }))
    else if ltb (length file) (start + n)
    then ret log_eof
    else next

abbrev pub block_end_of : Bytes → ℕ → ℕ
block_end_of file offset = min ((offset / 32768 + 1) * 32768) (length file)

-- after a block the outer loop goes on, unless an error ended it
abbrev pub carry_on : (LogState → Outcome Scan) → Scan → Outcome Scan
carry_on f (scanned s) = f s
carry_on f log_eof = ret log_eof
carry_on f out_of_fuel = ret out_of_fuel

-- the outer loop, over the blocks of 32768 bytes
unfoldable pub scan_log : ℕ → Bytes → LogState → Outcome Scan
scan_log zero file s = ret out_of_fuel
scan_log (suc fuel) file s =
    let block_end = block_end_of file s.offset in
    let rest =
      scan_block (suc (length file)) file block_end s
      >>= carry_on (λ t. scan_log fuel file (record t { offset = block_end })) in
    if ltb s.offset (length file) then rest else ret (scanned s)

abbrev pub log_start : LogState
log_start = record { offset = 0; fragment = []; rows = [] }

unfoldable pub parse_level_db_log : Bytes → Outcome Scan
unfolding scan_log
parse_level_db_log file = scan_log (suc (length file)) file log_start
