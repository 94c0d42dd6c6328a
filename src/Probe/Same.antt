-- ===== src/Probe/Same.antt =====
-- The log reader of cmd/probe against the one of main.go.
use mathlib.Core.List.{map-append}
use sharded_blockchain_dashb.Base.{
  ℕ, zero, suc, ◌+◌, ◌≡◌, refl, List, [], ◌++◌, ltb, length, get_elem?, take, drop, Option-cases,
  Bool-cases, inl, inr, map, ◌==◌, arith,
}
use sharded_blockchain_dashb.Base.Keyed.{Bytes}
use sharded_blockchain_dashb.Base.Text.{hex_encode}
use sharded_blockchain_dashb.Base.Outcome.{Outcome, ret, panic, ◌>>=◌, Outcome-cases}
use sharded_blockchain_dashb.LevelDb.{
  BatchRow, Read, found, bad_varint, unexpected_eof, Batch, LogState, Scan, scanned, log_eof,
  out_of_fuel, little_endian, with_row, broken,
}
use sharded_blockchain_dashb.LevelDb
use sharded_blockchain_dashb.Probe
use sharded_blockchain_dashb.Probe.{
  Row, RowBatch, RowState, RowScan, rows_scanned, rows_eof, rows_out_of_fuel, take_row, take_key,
  batch_rows, read_row_value, take_record, block_rows, log_rows, go_on,
}

-- a row without its printable key
abbrev pub forget : Row → BatchRow
forget r = record { key_hex = r.hex; value = r.value }

abbrev pub forget_batch : RowBatch → Batch
forget_batch b = record { rows = map forget b.rows; failed = b.failed }

abbrev pub forget_state : RowState → LogState
forget_state s = record { offset = s.offset; fragment = s.fragment; rows = map forget s.rows }

abbrev pub forget_scan : RowScan → Scan
forget_scan (rows_scanned s) = scanned (forget_state s)
forget_scan rows_eof = log_eof
forget_scan rows_out_of_fuel = out_of_fuel

abbrev pub mapped {ℓ κ} : {A : Type ℓ} {B : Type κ} → (A → B) → Outcome A → Outcome B
mapped f m = m >>= λ a. ret (f a)

read_var_string_same :
    (file : Bytes) (pos : ℕ) → Probe.read_var_string file pos ≡ LevelDb.read_var_string file pos
unfolding Probe.read_var_string LevelDb.read_var_string
read_var_string_same file pos = refl

read_value_same :
    (kind : ℕ) (payload : Bytes) (pos : ℕ)
    → read_row_value kind payload pos ≡ LevelDb.read_value kind payload pos
unfolding read_row_value LevelDb.read_value
read_value_same kind payload pos = rw (read_var_string_same payload pos) refl

-- what main.go does with a value that was read, and with a key
abbrev level_row : Bytes → (ℕ → Outcome Batch) → Read → Outcome Batch
level_row k rest value = elim value [
  | bad_varint ↦ ret broken
  | unexpected_eof ↦ ret broken
  | found v after ↦
      (rest after >>= λ more. ret (with_row (record { key_hex = hex_encode k; value = v }) more))
]

row_same :
    (k : Bytes) (rest : ℕ → Outcome RowBatch) (rest' : ℕ → Outcome Batch) (m : Outcome Read)
    → ((pos : ℕ) → mapped forget_batch (rest pos) ≡ rest' pos)
    → mapped forget_batch (m >>= take_row k rest) ≡ (m >>= level_row k rest')
row_same k rest rest' panic h = refl
row_same k rest rest' (ret bad_varint) h = refl
row_same k rest rest' (ret unexpected_eof) h = refl
row_same k rest rest' (ret (found v after)) h = elim (Outcome-cases (rest after)) [
  | inl stuck ↦ rw (← h after, stuck) refl
  | inr (b, read) ↦ rw (← h after, read) refl
]

key_same :
    (kind left : ℕ) (payload : Bytes) (m : Outcome Read)
    → ((pos : ℕ)
        → mapped forget_batch (batch_rows left payload pos) ≡ LevelDb.parse_rows left payload pos)
    → mapped forget_batch (m >>= take_key kind payload (batch_rows left payload)) ≡ (
        m >>= λ key. elim key [
          | bad_varint ↦ ret broken
          | unexpected_eof ↦ ret broken
          | found k next ↦
              (LevelDb.read_value kind payload next
                >>= level_row k (LevelDb.parse_rows left payload))
        ])
key_same kind left payload panic h = refl
key_same kind left payload (ret bad_varint) h = refl
key_same kind left payload (ret unexpected_eof) h = refl
key_same kind left payload (ret (found k next)) h = rw (← read_value_same kind payload next) (
    row_same k (batch_rows left payload) (LevelDb.parse_rows left payload)
      (read_row_value kind payload next) h)

rows_same :
    (left : ℕ) (payload : Bytes) (pos : ℕ)
    → mapped forget_batch (batch_rows left payload pos) ≡ LevelDb.parse_rows left payload pos
unfolding batch_rows LevelDb.parse_rows
rows_same zero payload pos = refl
rows_same (suc left) payload pos = elim (Option-cases (get_elem? payload pos)) [
  | inl over ↦ rw (batch_rows, LevelDb.parse_rows, over) refl
  | inr (kind, more) ↦
      rw (batch_rows, LevelDb.parse_rows, more, ← read_var_string_same payload (suc pos))
        (key_same kind left payload (Probe.read_var_string payload (suc pos))
          (rows_same left payload))
]

pub parse_batch_same :
    (payload : Bytes)
    → mapped forget_batch (Probe.parse_batch payload) ≡ LevelDb.parse_batch payload
unfolding Probe.parse_batch LevelDb.parse_batch
parse_batch_same payload = elim (Bool-cases (ltb (length payload) 12)) [
  | inl short ↦ rw short refl
  | inr enough ↦ rw enough (rows_same (little_endian (take 4 (drop 8 payload))) payload 12)
]

add_batch_same :
    (rows : List Row) (b : RowBatch)
    → map forget (Probe.add_rows_of rows b) ≡ LevelDb.add_batch (map forget rows) (forget_batch b)
unfolding LevelDb.add_batch
add_batch_same rows b = elim (Bool-cases b.failed) [
  | inl bad ↦ rw bad refl
  | inr good ↦ rw good (map-append forget rows b.rows)
]

-- a record whose batch is parsed, with the fragment and the offset after it
batch_same :
    (offset : ℕ) (fragment payload : Bytes) (rows : List Row)
    → mapped forget_state (
        Probe.parse_batch payload >>= λ b.
        ret (record { offset = offset; fragment = fragment; rows = Probe.add_rows_of rows b }))
      ≡ (LevelDb.parse_batch payload >>= λ b. ret (record {
        offset = offset;
        fragment = fragment;
        rows = LevelDb.add_batch (map forget rows) b;
      }))
batch_same offset fragment payload rows = elim (Outcome-cases (Probe.parse_batch payload)) [
  | inl stuck ↦ rw (← parse_batch_same payload, stuck) refl
  | inr (b, read) ↦ rw (← parse_batch_same payload, read, ← add_batch_same rows b) refl
]

record_same :
    (kind : ℕ) (payload : Bytes) (s : RowState)
    → mapped forget_state (take_record kind payload s)
      ≡ LevelDb.use_record kind payload (forget_state s)
unfolding take_record LevelDb.use_record
record_same kind payload s =
    let full = batch_same s.offset s.fragment payload s.rows in
    let last = batch_same s.offset [] (s.fragment ++ payload) s.rows in
    elim (Bool-cases (kind == 1)) [
      | inl one ↦ rw one full
      | inr other ↦ elim (Bool-cases (kind == 4)) [
        | inl four ↦ ground (arith, last, four)
        | inr rest ↦ ground (arith, other, rest)
      ]
    ]

>>=-same {ℓ κ μ ν} :
    {A : Type ℓ} {B : Type κ} {C : Type μ} {D : Type ν} (f : A → B) (g : C → D) (m : Outcome A)
    (k : A → Outcome C) (k' : B → Outcome D)
    → ((a : A) → mapped g (k a) ≡ k' (f a))
    → mapped g (m >>= k) ≡ (mapped f m >>= k')
>>=-same f g (ret a) k k' h = h a
>>=-same f g panic k k' h = refl

block_same :
    (fuel : ℕ) (file : Bytes) (block_end : ℕ) (s : RowState)
    → mapped forget_scan (block_rows fuel file block_end s)
      ≡ LevelDb.scan_block fuel file block_end (forget_state s)
unfolding block_rows LevelDb.scan_block
block_same zero file block_end s = refl
block_same (suc fuel) file block_end s =
    let n = LevelDb.record_length file s.offset in
    let kind = LevelDb.record_type file s.offset in
    let start = s.offset + 7 in
    let there : RowState = record s { offset = start + n } in
    let payload = take n (drop start file) in
    let next =
      >>=-same forget_state forget_scan (take_record kind payload there)
        (block_rows fuel file block_end) (LevelDb.scan_block fuel file block_end)
        (block_same fuel file block_end) in
    rw (← record_same kind payload there) (ground (arith, next))

go_on_same :
    (f : RowState → Outcome RowScan) (g : LogState → Outcome Scan)
    → ((s : RowState) → mapped forget_scan (f s) ≡ g (forget_state s))
    → (r : RowScan) → mapped forget_scan (go_on f r) ≡ LevelDb.carry_on g (forget_scan r)
go_on_same f g h (rows_scanned s) = h s
go_on_same f g h rows_eof = refl
go_on_same f g h rows_out_of_fuel = refl

log_same :
    (fuel : ℕ) (file : Bytes) (s : RowState)
    → mapped forget_scan (log_rows fuel file s) ≡ LevelDb.scan_log fuel file (forget_state s)
unfolding log_rows LevelDb.scan_log
log_same zero file s = refl
log_same (suc fuel) file s =
    let block_end = LevelDb.block_end_of file s.offset in
    let later : RowState → Outcome RowScan =
      λ t. log_rows fuel file (record t { offset = block_end }) in
    let later' : LogState → Outcome Scan =
      λ t. LevelDb.scan_log fuel file (record t { offset = block_end }) in
    let next =
      >>=-same forget_scan forget_scan (block_rows (suc (length file)) file block_end s)
        (go_on later) (LevelDb.carry_on later')
        (go_on_same later later' λ t. log_same fuel file (record t { offset = block_end })) in
    rw (← block_same (suc (length file)) file block_end s) (ground (arith, next))

-- The log reader of cmd/probe, its rows without their printable keys, gives what the one of main.go
-- gives: the same rows, the same error or the same panic, on every file.
pub parse_level_db_log_same :
    (file : Bytes)
    → mapped forget_scan (Probe.parse_level_db_log file) ≡ LevelDb.parse_level_db_log file
unfolding Probe.parse_level_db_log LevelDb.parse_level_db_log
parse_level_db_log_same file =
    log_same (suc (length file)) file (record { offset = 0; fragment = []; rows = [] })
