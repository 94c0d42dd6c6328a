-- ===== src/Submission/Plain.antt =====
-- No field of a row has a return, where the sender and the recipient have none.
use Prim.Native.Nat.{suc, zero}
use sharded_blockchain_dashb.Base.{ℕ, ◌≡◌, refl, true, some, [], ◌∷◌, All, ◌/◌, ◌%◌, ◌+◌, arith}
use sharded_blockchain_dashb.Base.Keyed.{Bytes}
use sharded_blockchain_dashb.Base.Text.{hex_encode, decimal_onto, itoa}
use sharded_blockchain_dashb.Base.Int.{ℤ, pos, negsuc}
use sharded_blockchain_dashb.Dashboard.Transactions.{big_int_text}
use sharded_blockchain_dashb.Submission.{
  digits_only, is_integer, ensure_hex_prefix, build_transaction_hash, transaction_csv_headers,
}
use sharded_blockchain_dashb.Submission.Csv.Whole.{each_no_return-All, NoReturn}
use sharded_blockchain_dashb.Submission.Rows.{row_fields}

decimal_onto-NoReturn : (fuel n : ℕ) (s : Bytes) → NoReturn s → NoReturn (decimal_onto fuel n s)
unfolding decimal_onto
decimal_onto-NoReturn zero n s h = h
decimal_onto-NoReturn (suc fuel) n s h =
    let digit : NoReturn ((48 + n % 10) ∷ s) = ground (arith, h) in
    ground (arith, digit, decimal_onto-NoReturn fuel (n / 10) ((48 + n % 10) ∷ s) digit)

big_int_text-NoReturn : (z : ℤ) → NoReturn (big_int_text (some z))
unfolding big_int_text itoa
big_int_text-NoReturn (pos n) = decimal_onto-NoReturn (suc n) n [] refl
big_int_text-NoReturn (negsuc n) = decimal_onto-NoReturn (suc (n + 1)) (n + 1) [] refl

hex_encode-NoReturn : (s : Bytes) → NoReturn (hex_encode s)
unfolding hex_encode
hex_encode-NoReturn [] = refl
hex_encode-NoReturn (c ∷ s) = ground (arith, hex_encode-NoReturn s)

digits_only-NoReturn : (s : Bytes) → digits_only s ≡ true → NoReturn s
digits_only-NoReturn [] h = refl
digits_only-NoReturn (c ∷ s) h = ground (arith, h, digits_only-NoReturn s)

is_integer-NoReturn : (s : Bytes) → is_integer s ≡ true → NoReturn s
unfolding is_integer
is_integer-NoReturn [] h = refl
is_integer-NoReturn (c ∷ []) h = ground (arith, h)
is_integer-NoReturn (c ∷ d ∷ s) h = ground (arith, h, digits_only-NoReturn (d ∷ s))

ensure_hex_prefix-NoReturn : (s : Bytes) → NoReturn s → NoReturn (ensure_hex_prefix s)
unfolding ensure_hex_prefix
ensure_hex_prefix-NoReturn [] h = refl
ensure_hex_prefix-NoReturn (c ∷ []) h = h
ensure_hex_prefix-NoReturn (c ∷ d ∷ s) h = ground (arith, h)

build_transaction_hash-NoReturn :
    (sha256 : Bytes → Bytes) (sender recipient value : Bytes) (now : ℤ)
    → NoReturn (build_transaction_hash sha256 sender recipient value now)
unfolding build_transaction_hash
build_transaction_hash-NoReturn sha256 sender recipient value now = hex_encode-NoReturn _

pub transaction_csv_headers-NoReturn : All NoReturn transaction_csv_headers
transaction_csv_headers-NoReturn = each_no_return-All transaction_csv_headers refl

pub row_fields-NoReturn :
    (sha256 : Bytes → Bytes) (now : ℤ) (sender recipient value : Bytes)
    → NoReturn sender
    → NoReturn recipient
    → is_integer value ≡ true
    → All NoReturn (row_fields sha256 now sender recipient value)
unfolding row_fields
row_fields-NoReturn sha256 now sender recipient value from to integer =
    each_no_return-All (row_fields sha256 now sender recipient value) (
      rw
        (
          big_int_text-NoReturn now,
          build_transaction_hash-NoReturn sha256 sender recipient value now,
          ensure_hex_prefix-NoReturn sender from,
          ensure_hex_prefix-NoReturn recipient to,
          is_integer-NoReturn value integer,
        )
        refl)
