-- ===== src/Submission/Reading.antt =====
-- A reader of the CSV file finds the header and the rows of the submissions.
use sharded_blockchain_dashb.Base.{
  ◌≡◌, refl, true, Option, none, some, List, [], ◌∷◌, ◌++◌, inl, inr, Bool-cases, All, arith,
}
use sharded_blockchain_dashb.Base.Keyed.{Bytes}
use sharded_blockchain_dashb.Base.Space.{trim_space}
use sharded_blockchain_dashb.Submission.{is_integer, transaction_csv_headers}
use sharded_blockchain_dashb.Submission.Csv.{write_record, normalize}
use sharded_blockchain_dashb.Submission.Csv.Whole.{NoReturn, read_record-write_record}
use sharded_blockchain_dashb.Submission.Rows.{
  Submitted, is_complete, row_fields, row, rows, submit_all, table, Reads, done, next,
}
use sharded_blockchain_dashb.Submission.Plain.{
  transaction_csv_headers-NoReturn, row_fields-NoReturn,
}
use sharded_blockchain_dashb.Submission.Table.{file_of, submit_all-rows}

-- neither side has a carriage return inside
abbrev pub SidesPlain : Submitted → Type 0
SidesPlain s = NoReturn (trim_space s.request.sender) × NoReturn (trim_space s.request.recipient)

-- the rows that a reader finds behind the header, none where there is no file
abbrev pub Stores : Option Bytes → List (List Bytes) → Type 0
Stores none rs = rs ≡ []
Stores (some file) rs = Reads (normalize file) (transaction_csv_headers ∷ rs)

module _ (sha256 : Bytes → Bytes) where
  row-NoReturn :
      (s : Submitted) → is_complete s.request ≡ true → SidesPlain s → All NoReturn (row sha256 s)
  row-NoReturn s whole (from, to) =
      let integer : is_integer (trim_space s.request.value) ≡ true = ground (arith, whole) in
      row_fields-NoReturn sha256 s.time (trim_space s.request.sender)
        (trim_space s.request.recipient) (trim_space s.request.value) from to integer

  row-Reads :
      (s : Submitted) (t : Bytes) (rs : List (List Bytes))
      → All NoReturn (row sha256 s)
      → Reads (normalize t) rs
      → Reads (normalize (write_record (row sha256 s) ++ t)) (row sha256 s ∷ rs)
  unfolding row_fields
  row-Reads s t rs plain more = next (read_record-write_record _ _ _ t plain) more

  rows-Reads :
      (ss : List Submitted)
      → All SidesPlain ss
      → Reads (normalize (table (rows sha256 ss))) (rows sha256 ss)
  unfolding normalize
  rows-Reads [] plain = done
  rows-Reads (s ∷ ss) (plain, more) = elim (Bool-cases (is_complete s.request)) [
    | inl whole ↦ rw whole (
        row-Reads s (table (rows sha256 ss)) (rows sha256 ss) (row-NoReturn s whole plain)
          (rows-Reads ss more))
    | inr lacking ↦ rw lacking (rows-Reads ss more)
  ]

  file_of-Stores :
      (rs : List (List Bytes)) → Reads (normalize (table rs)) rs → Stores (file_of rs) rs
  file_of-Stores [] h = refl
  file_of-Stores (r ∷ rs) h =
      next (read_record-write_record _ _ _ (table (r ∷ rs)) transaction_csv_headers-NoReturn) h

  -- Where no sender and no recipient, trimmed, has a carriage return, a reader of the file that any
  -- submissions leave, from no file, finds the header and then the row of each complete submission, in
  -- their order, and nothing else; there is no file where none is complete.
  pub submit_all-Stores :
      (ss : List Submitted)
      → All SidesPlain ss
      → Stores (submit_all sha256 none ss) (rows sha256 ss)
  submit_all-Stores ss plain =
      rw (submit_all-rows sha256 ss) (file_of-Stores (rows sha256 ss) (rows-Reads ss plain))
