-- ===== src/Submission/Table.antt =====
-- The CSV file is the table of the submissions: what each call does to it, and what a reader finds.
use mathlib.Core.List.{append_assoc, append-nil}
use sharded_blockchain_dashb.Base.{
  ◌≡◌, ◌≢◌, refl, ap, ◌∙◌, true, false, ◌||◌, not, Option, none, some, List, [], ◌∷◌, ◌++◌, inl,
  inr, Bool-cases, if◌then◌else◌, arith, Option-cases,
}
use sharded_blockchain_dashb.Base.Keyed.{Bytes, bytes_eq_iff, bytes_eq_refl}
use sharded_blockchain_dashb.Base.Int.{ℤ}
use sharded_blockchain_dashb.Base.Space.{trim_space}
use sharded_blockchain_dashb.Submission.{
  Request, is_empty, is_integer, build_transaction_hash, same_headers, transaction_csv_headers,
  Answer, missing_field, bad_value, header_error, HeaderError, end_of_file, parse_error,
  wrong_schema, headed, failed, read_error, accepted, append_row, ensure_transaction_csv,
  append_transaction_csv,
}
use sharded_blockchain_dashb.Submission.Csv.{write_record, read_first, normalize, only_newlines}
use sharded_blockchain_dashb.Submission.Csv.Whole.{read_first-write_record}
use sharded_blockchain_dashb.Submission.Rows.{
  Submitted, is_complete, row_fields, row, row_hash, rows, map-value_at, submit_all, table,
}
use sharded_blockchain_dashb.Submission.Plain.{transaction_csv_headers-NoReturn}

same_headers_refl : (xs : List Bytes) → same_headers xs xs ≡ true
unfolding same_headers
same_headers_refl [] = refl
same_headers_refl (x ∷ xs) = rw (bytes_eq_refl x) (same_headers_refl xs)

same_headers_sound : (xs ys : List Bytes) → same_headers xs ys ≡ true → xs ≡ ys
unfolding same_headers
same_headers_sound [] [] h = refl
same_headers_sound [] (y ∷ ys) h = ground (arith, h)
same_headers_sound (x ∷ xs) [] h = ground (arith, h)
same_headers_sound (x ∷ xs) (y ∷ ys) h =
    ground (arith, bytes_eq_iff x y, same_headers_sound xs ys, h)

ensure_transaction_csv_headed :
    (file : Bytes)
    → read_first file ≡ some transaction_csv_headers
    → ensure_transaction_csv (some file) ≡ (some file, headed transaction_csv_headers)
unfolding ensure_transaction_csv
ensure_transaction_csv_headed file h =
    rw (ensure_transaction_csv, h, same_headers_refl transaction_csv_headers) refl

-- why a file's first record is not the header: the file has only empty lines, or its first line that
-- is not empty does not parse, or it has other fields
abbrev pub IsReason : Bytes → HeaderError → Type 0
IsReason file end_of_file = (only_newlines (normalize file) ≡ true) × (read_first file ≡ none)
IsReason file parse_error = (only_newlines (normalize file) ≡ false) × (read_first file ≡ none)
IsReason file wrong_schema =
    (headers : List Bytes) × (read_first file ≡ some headers) × (headers ≢ transaction_csv_headers)

read_error-IsReason : (file : Bytes) → read_first file ≡ none → IsReason file (read_error file)
read_error-IsReason file unread = elim (Bool-cases (only_newlines (normalize file))) [
  | inl bare ↦ rw bare (bare, unread)
  | inr more ↦ rw more (more, unread)
]

ensure_transaction_csv_foreign :
    (file : Bytes)
    → read_first file ≢ some transaction_csv_headers
    → (err : HeaderError) × IsReason file err
      × (ensure_transaction_csv (some file) ≡ (some file, failed err))
unfolding ensure_transaction_csv
ensure_transaction_csv_foreign file h = elim (Option-cases (read_first file)) [
  | inl unread ↦
      (read_error file, read_error-IsReason file unread, rw (ensure_transaction_csv, unread) refl)
  | inr (headers, read) ↦ elim (Bool-cases (same_headers headers transaction_csv_headers)) [
    | inl same ↦
        absurd (h (read ∙ ap some (same_headers_sound headers transaction_csv_headers same)))
    | inr other ↦ (
      wrong_schema,
      (headers, read, λ same. h (read ∙ ap some same)),
      rw (ensure_transaction_csv, read, other) refl,
    )
  ]
]

headed_file :
    (s : Bytes)
    → read_first (write_record transaction_csv_headers ++ s) ≡ some transaction_csv_headers
headed_file s = read_first-write_record _ _ _ s transaction_csv_headers-NoReturn

created :
    ensure_transaction_csv none
    ≡ (some (write_record transaction_csv_headers), headed transaction_csv_headers)
unfolding ensure_transaction_csv
created = refl

-- the file with these rows
abbrev pub file_of : List (List Bytes) → Option Bytes
file_of [] = none
file_of (r ∷ rs) = some (table (transaction_csv_headers ∷ r ∷ rs))

-- the error of a request to a file with this error
abbrev pub refusal : HeaderError → Request → Answer
refusal err req =
    if is_empty (trim_space req.sender)
      || is_empty (trim_space req.recipient)
      || is_empty (trim_space req.value)
    then missing_field
    else if not (is_integer (trim_space req.value))
    then bad_value
    else header_error err

module _ (sha256 : Bytes → Bytes) where
  -- A file whose first record is not the header is left as it is, and every request gets an error: for
  -- a missing field, else for a value that is not an integer, else the file's own: the end of the file
  -- where it has only empty lines, the error of the parser where its first other line does not parse,
  -- and the one for another schema where that line is a record of other fields.
  pub append_transaction_csv_foreign :
      (now : ℤ) (file : Bytes) (req : Request)
      → read_first file ≢ some transaction_csv_headers
      → (err : HeaderError) × IsReason file err
        × (append_transaction_csv sha256 now (some file) req ≡ (some file, refusal err req))
  unfolding append_transaction_csv append_row
  append_transaction_csv_foreign now file req h =
      let (err, reason, e) = ensure_transaction_csv_foreign file h in
      (err, reason, rw e (ground arith))

  append_row_headers :
      (now : ℤ) (file sender recipient value : Bytes)
      → append_row sha256 now sender recipient value (some file, headed transaction_csv_headers) ≡ (
        some (file ++ write_record (row_fields sha256 now sender recipient value)),
        accepted now (build_transaction_hash sha256 sender recipient value now),
      )
  unfolding append_row
  append_row_headers now file sender recipient value =
      rw (map-value_at sha256 now sender recipient value) refl

  append_transaction_csv_complete :
      (s : Submitted) (before : Option Bytes) (file : Bytes)
      → is_complete s.request ≡ true
      → ensure_transaction_csv before ≡ (some file, headed transaction_csv_headers)
      → append_transaction_csv sha256 s.time before s.request
        ≡ (some (file ++ write_record (row sha256 s)), accepted s.time (row_hash sha256 s))
  unfolding append_transaction_csv
  append_transaction_csv_complete s before file h opened =
      rw
        (
          opened,
          append_row_headers s.time file (trim_space s.request.sender)
              (trim_space s.request.recipient) (trim_space s.request.value),
        )
        (ground (arith, h))

  pub append_transaction_csv_incomplete :
      (s : Submitted) (before : Option Bytes)
      → is_complete s.request ≡ false
      → (append_transaction_csv sha256 s.time before s.request).0 ≡ before
  unfolding append_transaction_csv
  append_transaction_csv_incomplete s before h = ground (arith, h)

  submit_all_headed :
      (ss : List Submitted) (s : Bytes)
      → submit_all sha256 (some (write_record transaction_csv_headers ++ s)) ss
        ≡ some (write_record transaction_csv_headers ++ (s ++ table (rows sha256 ss)))
  submit_all_headed [] s = rw (append-nil s) refl
  submit_all_headed (x ∷ ss) s = elim (Bool-cases (is_complete x.request)) [
    | inl whole ↦
        let file = write_record transaction_csv_headers ++ s in
        let opened = ensure_transaction_csv_headed file (headed_file s) in
        rw
          (
            whole,
            append_transaction_csv_complete x (some file) file whole opened,
            append_assoc (write_record transaction_csv_headers) s (write_record (row sha256 x)),
          )
          (submit_all_headed ss (s ++ write_record (row sha256 x))
            ∙ ap (λ t. some (write_record transaction_csv_headers ++ t))
                (append_assoc s (write_record (row sha256 x)) (table (rows sha256 ss))))
    | inr lacking ↦
        rw
          (
            lacking,
            append_transaction_csv_incomplete x (some (write_record transaction_csv_headers ++ s))
                lacking,
          )
          (submit_all_headed ss s)
  ]

  -- The file after any submissions, from no file: it is still not there where none of them is complete,
  -- and else it holds the header and the rows of the complete ones, in their order.
  pub submit_all-rows : (ss : List Submitted) → submit_all sha256 none ss ≡ file_of (rows sha256 ss)
  submit_all-rows [] = refl
  submit_all-rows (x ∷ ss) = elim (Bool-cases (is_complete x.request)) [
    | inl whole ↦
        rw
          (
            whole,
            append_transaction_csv_complete x none (write_record transaction_csv_headers) whole
                created,
          )
          (submit_all_headed ss (write_record (row sha256 x)))
    | inr lacking ↦
        rw (lacking, append_transaction_csv_incomplete x none lacking) (submit_all-rows ss)
  ]

  ensure_transaction_csv-file_of :
      (rs : List (List Bytes))
      → (file : Bytes) × (ensure_transaction_csv (file_of rs)
          ≡ (some file, headed transaction_csv_headers))
  ensure_transaction_csv-file_of [] = (write_record transaction_csv_headers, created)
  ensure_transaction_csv-file_of (r ∷ rs) = (
    table (transaction_csv_headers ∷ r ∷ rs),
    ensure_transaction_csv_headed _ (headed_file (table (r ∷ rs))),
  )

  submit_all-append :
      (file : Option Bytes) (ss : List Submitted) (s : Submitted)
      → submit_all sha256 file (ss ++ s ∷ [])
        ≡ (append_transaction_csv sha256 s.time (submit_all sha256 file ss) s.request).0
  submit_all-append file [] s = refl
  submit_all-append file (x ∷ ss) s =
      submit_all-append (append_transaction_csv sha256 x.time file x.request).0 ss s

  -- After any submissions from no file, a complete one is accepted.
  pub append_transaction_csv-submit_all :
      (ss : List Submitted) (s : Submitted)
      → is_complete s.request ≡ true
      → append_transaction_csv sha256 s.time (submit_all sha256 none ss) s.request
        ≡ (submit_all sha256 none (ss ++ s ∷ []), accepted s.time (row_hash sha256 s))
  append_transaction_csv-submit_all ss s whole =
      let (file, opened) = ensure_transaction_csv-file_of (rows sha256 ss) in
      let before = ap ensure_transaction_csv (submit_all-rows ss) ∙ opened in
      let added = append_transaction_csv_complete s (submit_all sha256 none ss) file whole before in
      rw (submit_all-append none ss s, added) refl
