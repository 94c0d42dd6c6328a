-- ===== src/Submission/Rows.antt =====
-- The row of a submission, and the file as the table of its records.

use sharded_blockchain_dashb.Base.{
  ◌≡◌, refl, Bool, ◌&&◌, ◌||◌, not, Option, some, List, [], ◌∷◌, ◌++◌, if◌then◌else◌, map,
}
use sharded_blockchain_dashb.Base.Keyed.{Bytes, bytes_eq, bytes_is_eq}
use sharded_blockchain_dashb.Base.Dict.{lookup}
use sharded_blockchain_dashb.Base.Text.{codes}
use sharded_blockchain_dashb.Base.Int.{ℤ}
use sharded_blockchain_dashb.Base.Space.{trim_space}
use sharded_blockchain_dashb.Dashboard.Transactions.{big_int_text}
use sharded_blockchain_dashb.Submission.{
  Request, is_empty, is_integer, ensure_hex_prefix, build_transaction_hash, row_values, value_at,
  transaction_csv_headers, append_transaction_csv,
}
use sharded_blockchain_dashb.Submission.Csv.{write_record, read_record}

-- a request, with the time at which it came
pub record Submitted : Type 0 where
  pub time : ℤ
  pub request : Request

-- the sender, the recipient and an integer are there
abbrev pub is_complete : Request → Bool
is_complete req =
    not (
      is_empty (trim_space req.sender)
      || is_empty (trim_space req.recipient)
      || is_empty (trim_space req.value))
    && is_integer (trim_space req.value)

module _ (sha256 : Bytes → Bytes) where
  unfoldable pub row_fields : ℤ → Bytes → Bytes → Bytes → List Bytes
  row_fields now sender recipient value =
      []
      ∷ big_int_text (some now)
      ∷ build_transaction_hash sha256 sender recipient value now
      ∷ ensure_hex_prefix sender
      ∷ ensure_hex_prefix recipient
      ∷ []
      ∷ codes "0"
      ∷ codes "0"
      ∷ value
      ∷ []
      ∷ []
      ∷ []
      ∷ codes "0x"
      ∷ []
      ∷ []
      ∷ []
      ∷ []
      ∷ []
      ∷ []

  abbrev pub row : Submitted → List Bytes
  row s =
      row_fields s.time (trim_space s.request.sender) (trim_space s.request.recipient)
        (trim_space s.request.value)

  abbrev pub row_hash : Submitted → Bytes
  row_hash s =
      build_transaction_hash sha256 (trim_space s.request.sender) (trim_space s.request.recipient)
        (trim_space s.request.value) s.time

  -- the rows of the submissions that are complete, in their order
  abbrev pub rows : List Submitted → List (List Bytes)
  rows [] = []
  rows (s ∷ ss) = let rest = rows ss in if is_complete s.request then row s ∷ rest else rest

  pub map-value_at :
      (now : ℤ) (sender recipient value : Bytes)
      → map (value_at (row_values sha256 now sender recipient value)) transaction_csv_headers
        ≡ row_fields now sender recipient value
  unfolding row_fields lookup bytes_eq
  map-value_at now sender recipient value = refl

  -- the file after all of them
  abbrev pub submit_all : Option Bytes → List Submitted → Option Bytes
  submit_all file [] = file
  submit_all file (s ∷ ss) = submit_all ((append_transaction_csv sha256 s.time file s.request).0) ss

abbrev pub table : List (List Bytes) → Bytes
table [] = []
table (r ∷ rs) = write_record r ++ table rs

-- the records that a reader takes from a file, up to its end
pub data Reads : Bytes → List (List Bytes) → Type 0 where
  done : Reads [] []
  next :
      {s rest : Bytes} {r : List Bytes} {rs : List (List Bytes)}
      → read_record s ≡ some (r, rest)
      → Reads rest rs
      → Reads s (r ∷ rs)
