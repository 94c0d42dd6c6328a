-- ===== src/Submission/Tests.antt =====
-- Examples of the CSV file of main.go.
use sharded_blockchain_dashb.Base.{◌≡◌, ◌≢◌, refl, none, some, List, [], ◌∷◌, ◌++◌, take, arith}
use sharded_blockchain_dashb.Base.Keyed.{Bytes, bytes_eq}
use sharded_blockchain_dashb.Base.Dict.{lookup}
use sharded_blockchain_dashb.Base.Text.{codes, itoa, decimal_onto, hex_encode}
use sharded_blockchain_dashb.Base.Int.{pos}
use sharded_blockchain_dashb.Base.Space.{trim_space, trim_left, trim_right, begins_with_space}
use sharded_blockchain_dashb.Dashboard.Transactions.{big_int_text}
use sharded_blockchain_dashb.Submission.{
  Request, is_integer, ensure_hex_prefix, build_transaction_hash, transaction_csv_headers,
  same_headers, header_error, wrong_schema, HeaderError, end_of_file, append_row,
  ensure_transaction_csv, append_transaction_csv,
}
use sharded_blockchain_dashb.Submission.Csv.{
  write_field, needs_quotes, write_record, move, read_fields, read_record, read_first, normalize,
}
use sharded_blockchain_dashb.Submission.Csv.Whole.{read_record-write_record}
use sharded_blockchain_dashb.Submission.Rows.{Submitted, row_fields, rows, submit_all}
use sharded_blockchain_dashb.Submission.Table.{
  file_of, refusal, IsReason, submit_all-rows, append_transaction_csv_foreign,
}
use sharded_blockchain_dashb.Submission.Reading.{Stores, submit_all-Stores}

-- the first two bytes stand for the hash
abbrev digest : Bytes → Bytes
digest s = take 2 s

abbrev alice_pays : Request
alice_pays = record { sender = codes " a,b "; recipient = codes "0xc"; value = codes "-5" }

abbrev nobody_pays : Request
nobody_pays = record { sender = codes "  "; recipient = codes "0xc"; value = codes "5" }

abbrev two_requests : List Submitted
two_requests =
    record { time = pos 9; request = nobody_pays }
    ∷ record { time = pos 12; request = alice_pays }
    ∷ []

two_requests-rows :
    rows digest two_requests
    ≡ ([]
        ∷ codes "12"
        ∷ codes "0x612c"
        ∷ codes "0xa,b"
        ∷ codes "0xc"
        ∷ []
        ∷ codes "0"
        ∷ codes "0"
        ∷ codes "-5"
        ∷ []
        ∷ []
        ∷ []
        ∷ codes "0x"
        ∷ []
        ∷ []
        ∷ []
        ∷ []
        ∷ []
        ∷ [])
      ∷ []
unfolding trim_left trim_right is_integer row_fields big_int_text itoa decimal_onto
    build_transaction_hash hex_encode ensure_hex_prefix
two_requests-rows = refl

two_requests-file :
    submit_all digest none two_requests
    ≡ some (
        write_record transaction_csv_headers
        ++ codes ",12,0x612c,\"0xa,b\",0xc,,0,0,-5,,,,0x,,,,,\n")
unfolding trim_left trim_right is_integer big_int_text itoa decimal_onto build_transaction_hash
    hex_encode ensure_hex_prefix append_transaction_csv append_row ensure_transaction_csv
    write_record write_field needs_quotes begins_with_space bytes_eq lookup
two_requests-file = refl

submit_all-rows_example : submit_all digest none two_requests ≡ file_of (rows digest two_requests)
submit_all-rows_example = submit_all-rows digest two_requests

submit_all-Stores_example : Stores (submit_all digest none two_requests) (rows digest two_requests)
unfolding trim_left trim_right
submit_all-Stores_example = submit_all-Stores digest two_requests ((refl, refl), ((refl, refl), tt))

read_record-write_record_example :
    read_record (normalize (write_record (codes "a\"" ∷ codes " b" ∷ []) ++ codes "c"))
    ≡ some (codes "a\"" ∷ codes " b" ∷ [], normalize (codes "c"))
read_record-write_record_example =
    read_record-write_record (codes "a\"") (codes " b") [] (codes "c") (refl, (refl, tt))

foreign_file : read_first (codes "x,y\n") ≢ some transaction_csv_headers
unfolding read_first read_record read_fields move normalize
foreign_file = ground arith

append_transaction_csv-foreign_example :
    (err : HeaderError) × IsReason (codes "x,y\n") err
    × (append_transaction_csv digest (pos 9) (some (codes "x,y\n")) alice_pays
        ≡ (some (codes "x,y\n"), refusal err alice_pays))
append_transaction_csv-foreign_example =
    append_transaction_csv_foreign digest (pos 9) (codes "x,y\n") alice_pays foreign_file

-- an empty line, and no other
bare_file :
    (append_transaction_csv digest (pos 9) (some (codes "\n")) alice_pays).1
    ≡ header_error end_of_file
unfolding trim_left trim_right is_integer append_transaction_csv append_row ensure_transaction_csv
    read_first read_record read_fields move normalize
bare_file = refl

-- the header without its newline
abbrev cut_header : Bytes
cut_header =
    codes
      "blockNumber,timestamp,transactionHash,from,to,toCreate,fromIsContract,toIsContract,value,gasLimit,gasPrice,gasUsed,callingFunction,isError,eip2718type,baseFeePerGas,maxFeePerGas,maxPriorityFeePerGas"

-- The first row is written behind the header's last field, and the second request is refused.
cut_header-merged :
    (append_transaction_csv digest
      (pos 9)
      ((append_transaction_csv digest (pos 9) (some cut_header) alice_pays).0)
      alice_pays).1
    ≡ header_error wrong_schema
unfolding trim_left trim_right is_integer big_int_text itoa decimal_onto build_transaction_hash
    hex_encode ensure_hex_prefix append_transaction_csv append_row ensure_transaction_csv
    write_record write_field needs_quotes begins_with_space bytes_eq lookup read_first read_record
    read_fields move normalize same_headers
cut_header-merged = refl

-- the spaces U+3000 and U+0085 around a letter, and a byte 133 that is no space on its own
trimmed : trim_space (227 ∷ 128 ∷ 128 ∷ 32 ∷ 133 ∷ 97 ∷ 194 ∷ 133 ∷ 10 ∷ []) ≡ 133 ∷ 97 ∷ []
unfolding trim_left trim_right
trimmed = refl
