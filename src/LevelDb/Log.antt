-- ===== src/LevelDb/Log.antt =====
-- The two loops of `parseLevelDBLog` end on every file.
use sharded_blockchain_dashb.Base.{
  ℕ, Bool, if◌then◌else◌, zero, suc, ◌+◌, ◌<◌, ◌≤◌, ◌≡◌, ◌≢◌, refl, ap, ◌∙◌, ◌++◌, length, ltb,
  arith, true, false, take, drop,
}
use sharded_blockchain_dashb.Base.Keyed.{Bytes}
use sharded_blockchain_dashb.Base.Outcome.{Outcome, ret, panic, ◌>>=◌, Outcome-cases}
use sharded_blockchain_dashb.LevelDb.{
  LogState, scanned, log_eof, out_of_fuel, Scan, use_record, scan_block, scan_log,
  parse_level_db_log, block_end_of, carry_on, record_length, record_type, log_start, parse_batch,
}

>>=-ends {ℓ} :
    {A : Type ℓ} (m : Outcome A) (f : A → Outcome Scan)
    → ((t : A) → m ≡ ret t → f t ≢ ret out_of_fuel)
    → (m >>= f) ≢ ret out_of_fuel
>>=-ends (ret t) f h = h t refl
>>=-ends panic f h = λ e. cc

if-ends :
    (b : Bool) (m : Outcome Scan) (s : LogState)
    → (b ≡ true → m ≢ ret out_of_fuel)
    → (if b then m else ret (scanned s)) ≢ ret out_of_fuel
if-ends true m s h = h refl
if-ends false m s h = λ e. cc

carry_on-ends :
    (r : Scan) (f : LogState → Outcome Scan)
    → r ≢ out_of_fuel
    → ((t : LogState) → f t ≢ ret out_of_fuel)
    → carry_on f r ≢ ret out_of_fuel
carry_on-ends (scanned t) f h k = k t
carry_on-ends log_eof f h k = λ e. cc
carry_on-ends out_of_fuel f h k = λ e. h refl

-- A record changes the fragment and the rows only.
pub use_record-offset :
    (kind : ℕ) (payload : Bytes) (s t : LogState)
    → use_record kind payload s ≡ ret t
    → t.offset ≡ s.offset
unfolding use_record
use_record-offset kind payload s t h = ground (
  arith,
  Outcome-cases (parse_batch payload),
  Outcome-cases (parse_batch (s.fragment ++ payload)),
)

scan_block_ends :
    (fuel : ℕ) (file : Bytes) (block_end : ℕ) (s : LogState)
    → block_end < s.offset + 7 + fuel
    → scan_block (suc fuel) file block_end s ≢ ret out_of_fuel
unfolding scan_block
scan_block_ends zero file block_end s h = ground arith
scan_block_ends (suc fuel) file block_end s h =
    let n = record_length file s.offset in
    let start = s.offset + 7 in
    let there : LogState = record s { offset = start + n } in
    let kind = record_type file s.offset in
    let payload = take n (drop start file) in
    let next =
      >>=-ends (use_record kind payload there) (scan_block (suc fuel) file block_end) λ t e.
        scan_block_ends fuel file block_end t
          (omega (arith, h, use_record-offset kind payload there t e)) in
    ground (arith, next)

scan_log_ends :
    (fuel : ℕ) (file : Bytes) (s : LogState)
    → length file ≤ s.offset + fuel
    → scan_log (suc fuel) file s ≢ ret out_of_fuel
unfolding scan_log
scan_log_ends zero file s h = ground arith
scan_log_ends (suc fuel) file s h =
    let block_end = block_end_of file s.offset in
    let go : LogState → Outcome Scan =
      λ t. scan_log (suc fuel) file (record t { offset = block_end }) in
    let fits : block_end < s.offset + 7 + length file = omega arith in
    if-ends (ltb s.offset (length file))
      (scan_block (suc (length file)) file block_end s >>= carry_on go) s
      λ inside. >>=-ends (scan_block (suc (length file)) file block_end s) (carry_on go) λ r e.
        carry_on-ends r go
          (λ stuck. scan_block_ends (length file) file block_end s fits (e ∙ ap ret stuck))
          λ t. scan_log_ends fuel file (record t { offset = block_end }) (ground (arith, h, inside))

-- `parseLevelDBLog` ends on every file: its loops never run longer than the file has bytes.
pub parse_level_db_log_ends : (file : Bytes) → parse_level_db_log file ≢ ret out_of_fuel
unfolding parse_level_db_log
parse_level_db_log_ends file = scan_log_ends (length file) file log_start (omega arith)
