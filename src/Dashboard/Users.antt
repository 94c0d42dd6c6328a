-- ===== src/Dashboard/Users.antt =====
-- main.go, `loadUserCount`: the accounts that the LevelDB logs of the shards speak of. `logs` has, for
-- each entry of the LevelDB directory, whether it is a directory, and the bytes of its log file, or
-- `none` where the file cannot be read.
pub mod Distinct
use sharded_blockchain_dashb.Base.{
  ℕ, ◌/◌, ◌%◌, Bool, true, false, ◌&&◌, ◌||◌, Option, none, some, List, [], ◌∷◌, ◌++◌, leb, ◌==◌,
  if◌then◌else◌, length, take,
}
use sharded_blockchain_dashb.Base.Keyed.{Bytes, bytes_eq}
use sharded_blockchain_dashb.Base.Text.{codes, hex_char}
use sharded_blockchain_dashb.Base.Outcome.{Outcome, ret, ◌>>=◌}
use sharded_blockchain_dashb.LevelDb.{
  BatchRow, Scan, scanned, log_eof, out_of_fuel, parse_level_db_log,
}

abbrev pub printable_byte : ℕ → Bytes
printable_byte c =
    if leb 32 c && leb c 126
    then c ∷ []
    else b'\\' ∷ b'x' ∷ hex_char (c / 16) ∷ hex_char (c % 16) ∷ []

unfoldable pub printable : Bytes → Bytes
printable [] = []
printable (c ∷ cs) = printable_byte c ++ printable cs

-- `bytes.HasPrefix` and `bytes.Contains`
unfoldable pub has_prefix : Bytes → Bytes → Bool
has_prefix s [] = true
has_prefix [] (p ∷ ps) = false
has_prefix (c ∷ cs) (p ∷ ps) = c == p && has_prefix cs ps

unfoldable pub contains : Bytes → Bytes → Bool
contains [] part = has_prefix [] part
contains (c ∷ cs) part = has_prefix (c ∷ cs) part || contains cs part

-- the letters of `accountAddrPattern`
abbrev pub is_address_char : ℕ → Bool
is_address_char c = (leb b'0' c && leb c b'9') || (leb b'a' c && leb c b'f')

unfoldable pub address_run : Bytes → Bytes
address_run [] = []
address_run (c ∷ cs) = let rest = address_run cs in if is_address_char c then c ∷ rest else []

-- `accountAddrPattern.FindString`: the first place where 20 letters or more stand, up to 64 of them
unfoldable pub find_address : Bytes → Bytes
unfolding address_run
find_address [] = []
find_address (c ∷ cs) =
    let rest = find_address cs in
    let run = address_run (c ∷ cs) in if leb 20 (length run) then take 64 run else rest

abbrev pub address_or : Bytes → Bytes → Bytes
address_or key [] = key
address_or key (c ∷ cs) = c ∷ cs

unfoldable pub extract_account_id : BatchRow → Bytes
extract_account_id row = address_or row.key_hex (find_address (printable row.value))

-- the set of accounts, as a list
unfoldable pub is_in : Bytes → List Bytes → Bool
is_in id [] = false
is_in id (x ∷ xs) = bytes_eq x id || is_in id xs

abbrev pub add_id : Bytes → List Bytes → List Bytes
add_id id ids = if is_in id ids then ids else id ∷ ids

-- the loop over the rows of one log
unfoldable pub add_rows : List Bytes → List BatchRow → List Bytes
add_rows ids [] = ids
add_rows ids (row ∷ rows) =
    add_rows
      (if contains row.value (codes "AccountState")
        then add_id (extract_account_id row) ids
        else ids)
      rows

-- the rows of a log, or the error of the reader; the reader always ends
abbrev pub scan_rows : Scan → Option (List BatchRow)
scan_rows (scanned s) = some s.rows
scan_rows log_eof = none
scan_rows out_of_fuel = none

unfoldable pub read_log : Option Bytes → Outcome (Option (List BatchRow))
read_log none = ret none
read_log (some file) = do scan ← parse_level_db_log file; ret (scan_rows scan)

-- the loop over the shards; `none` is the error of a log
unfoldable pub add_logs : List Bytes → List (Bool × Option Bytes) → Outcome (Option (List Bytes))
add_logs ids [] = ret (some ids)
add_logs ids ((is_dir, log) ∷ logs) =
    let next = read_log log >>= λ r. elim r [
      | none ↦ ret none
      | some rows ↦ add_logs (add_rows ids rows) logs
    ] in
    let skip = add_logs ids logs in if is_dir then next else skip

abbrev pub count_of : Option (List Bytes) → Option ℕ
count_of none = none
count_of (some ids) = some (length ids)

-- `none` for the listing is the error of the directory
unfoldable pub load_user_count : Option (List (Bool × Option Bytes)) → Outcome (Option ℕ)
unfolding add_logs
load_user_count none = ret none
load_user_count (some logs) = do ids ← add_logs [] logs; ret (count_of ids)
