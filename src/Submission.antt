-- ===== src/Submission.antt =====
-- main.go, the submission of transactions: `appendTransactionCSV` and `ensureTransactionCSV`. The CSV
-- file is `none` where it does not exist, and else its bytes; errors of the disk are left out. SHA-256
-- and the clock, in seconds, are arguments.
pub mod Csv
pub mod Rows
mod Tests
pub mod Reading
pub mod Table
pub mod Plain
use sharded_blockchain_dashb.Base.{
  Bool, true, false, ◌&&◌, ◌||◌, not, Option, none, some, List, [], ◌∷◌, ◌++◌, leb, ◌==◌,
  if◌then◌else◌, length, map,
}
use sharded_blockchain_dashb.Base.Keyed.{Bytes, bytes_eq, bytes_is_eq}
use sharded_blockchain_dashb.Base.Dict.{Dict, lookup}
use sharded_blockchain_dashb.Base.Text.{codes, hex_encode}
use sharded_blockchain_dashb.Base.Int.{ℤ}
use sharded_blockchain_dashb.Base.Space.{trim_space}
use sharded_blockchain_dashb.Dashboard.Transactions.{big_int_text}
use sharded_blockchain_dashb.Submission.Csv.{write_record, read_first, normalize, only_newlines}

pub record Request : Type 0 where
  pub sender : Bytes
  pub recipient : Bytes
  pub value : Bytes

abbrev pub transaction_csv_headers : List Bytes
transaction_csv_headers =
    codes "blockNumber"
    ∷ codes "timestamp"
    ∷ codes "transactionHash"
    ∷ codes "from"
    ∷ codes "to"
    ∷ codes "toCreate"
    ∷ codes "fromIsContract"
    ∷ codes "toIsContract"
    ∷ codes "value"
    ∷ codes "gasLimit"
    ∷ codes "gasPrice"
    ∷ codes "gasUsed"
    ∷ codes "callingFunction"
    ∷ codes "isError"
    ∷ codes "eip2718type"
    ∷ codes "baseFeePerGas"
    ∷ codes "maxFeePerGas"
    ∷ codes "maxPriorityFeePerGas"
    ∷ []

-- equal in length and in each place
unfoldable pub same_headers : List Bytes → List Bytes → Bool
same_headers [] [] = true
same_headers (x ∷ xs) (y ∷ ys) = bytes_eq x y && same_headers xs ys
same_headers _ _ = false

-- the errors of `ensureTransactionCSV`: the reader's `io.EOF` and `*csv.ParseError`, and the other
-- schema
pub data HeaderError : Type 0 where
  end_of_file parse_error wrong_schema : HeaderError

-- what `ensureTransactionCSV` returns
pub data Header : Type 0 where
  headed : List Bytes → Header
  failed : HeaderError → Header

-- the error of the reader's first `Read`, where it gives no record
abbrev pub read_error : Bytes → HeaderError
read_error file = if only_newlines (normalize file) then end_of_file else parse_error

-- the file after the call, and the headers or the error
unfoldable pub ensure_transaction_csv : Option Bytes → Option Bytes × Header
ensure_transaction_csv none =
    (some (write_record transaction_csv_headers), headed transaction_csv_headers)
ensure_transaction_csv (some file) = elim (read_first file) [
  | none ↦ (some file, failed (read_error file))
  | some headers ↦ (
    some file,
    if same_headers headers transaction_csv_headers then headed headers else failed wrong_schema,
  )
]

abbrev pub digits_only : Bytes → Bool
digits_only [] = true
digits_only (c ∷ cs) = leb b'0' c && leb c b'9' && digits_only cs

abbrev pub some_digits : Bytes → Bool
some_digits [] = false
some_digits (c ∷ cs) = digits_only (c ∷ cs)

-- `big.Int.SetString` in base 10 succeeds
unfoldable pub is_integer : Bytes → Bool
is_integer [] = false
is_integer (c ∷ cs) = if c == b'-' || c == b'+' then some_digits cs else digits_only (c ∷ cs)

abbrev pub is_empty : Bytes → Bool
is_empty s = length s == 0

unfoldable pub ensure_hex_prefix : Bytes → Bytes
ensure_hex_prefix [] = []
ensure_hex_prefix (c ∷ []) = codes "0x" ++ c ∷ []
ensure_hex_prefix (c ∷ d ∷ cs) =
    if c == b'0' && (d == b'x' || d == b'X') then c ∷ d ∷ cs else codes "0x" ++ c ∷ d ∷ cs

module _ (sha256 : Bytes → Bytes) where
  unfoldable pub build_transaction_hash : Bytes → Bytes → Bytes → ℤ → Bytes
  build_transaction_hash sender recipient value ts =
      codes "0x"
      ++ hex_encode (
          sha256
            (sender ++ (b'|' ∷ (recipient ++ (b'|' ∷ (value ++ (b'|' ∷ big_int_text (some ts))))))))

  -- the map of the values of a row
  abbrev pub row_values : ℤ → Bytes → Bytes → Bytes → Dict Bytes Bytes
  row_values now sender recipient value =
      (codes "blockNumber", [])
      ∷ (codes "timestamp", big_int_text (some now))
      ∷ (codes "transactionHash", build_transaction_hash sender recipient value now)
      ∷ (codes "from", ensure_hex_prefix sender)
      ∷ (codes "to", ensure_hex_prefix recipient)
      ∷ (codes "toCreate", [])
      ∷ (codes "fromIsContract", codes "0")
      ∷ (codes "toIsContract", codes "0")
      ∷ (codes "value", value)
      ∷ (codes "gasLimit", [])
      ∷ (codes "gasPrice", [])
      ∷ (codes "gasUsed", [])
      ∷ (codes "callingFunction", codes "0x")
      ∷ (codes "isError", [])
      ∷ (codes "eip2718type", [])
      ∷ (codes "baseFeePerGas", [])
      ∷ (codes "maxFeePerGas", [])
      ∷ (codes "maxPriorityFeePerGas", [])
      ∷ []

-- `values[header]`, empty where it is missing
abbrev pub value_at : Dict Bytes Bytes → Bytes → Bytes
value_at values header = elim (lookup header values) [ none ↦ [] | some v ↦ v ]

-- what the caller gets: one of the errors, or the time and the hash
pub data Answer : Type 0 where
  missing_field bad_value : Answer
  header_error : HeaderError → Answer
  accepted : ℤ → Bytes → Answer

-- the write of the row to the end of the file that was opened
abbrev pub extended : Option Bytes → Bytes → Option Bytes
extended none row = none
extended (some file) row = some (file ++ row)

module _ (sha256 : Bytes → Bytes) where
  -- behind the tests of the request
  unfoldable pub append_row :
      ℤ → Bytes → Bytes → Bytes → Option Bytes × Header → Option Bytes × Answer
  append_row now sender recipient value (file, failed err) = (file, header_error err)
  append_row now sender recipient value (file, headed headers) = (
    extended file
        (write_record (map (value_at (row_values sha256 now sender recipient value)) headers)),
    accepted now (build_transaction_hash sha256 sender recipient value now),
  )

  unfoldable pub append_transaction_csv : ℤ → Option Bytes → Request → Option Bytes × Answer
  unfolding append_row
  append_transaction_csv now file req =
      let sender = trim_space req.sender in
      let recipient = trim_space req.recipient in
      let value = trim_space req.value in
      if is_empty sender || is_empty recipient || is_empty value
      then (file, missing_field)
      else if not (is_integer value)
      then (file, bad_value)
      else append_row now sender recipient value (ensure_transaction_csv file)
