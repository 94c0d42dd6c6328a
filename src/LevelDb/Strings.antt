-- ===== src/LevelDb/Strings.antt =====
-- The reader of a batch against a writer of batches, and what a corrupt length does.
use mathlib.Core.List.{append_assoc}
use sharded_blockchain_dashb.Base.{
  ℕ, zero, suc, ◌+◌, ◌*◌, ◌/◌, ◌%◌, ◌^◌, ◌<◌, ◌≡◌, sym, ap, ◌∙◌, some, [], ◌∷◌, ◌++◌, ltb,
  if◌then◌else◌, length, drop, length-append, drop-append, take-append, arith,
}
use sharded_blockchain_dashb.Base.Keyed.{Bytes}
use sharded_blockchain_dashb.Base.Outcome.{ret}
use sharded_blockchain_dashb.LevelDb.{uvarint, found, cut_string, end_of, read_var_string}

-- `binary.PutUvarint`
abbrev pub put_uvarint : ℕ → ℕ → Bytes
put_uvarint zero n = n ∷ []
put_uvarint (suc left) n =
    let more = put_uvarint left (n / 128) in if ltb n 128 then n ∷ [] else (128 + n % 128) ∷ more

-- the numbers that fit
abbrev pub cap : ℕ → ℕ
cap zero = 2
cap (suc left) = 128 * cap left

-- What `PutUvarint` wrote is read back.
pub uvarint-put_uvarint :
    (left n : ℕ) (rest : Bytes)
    → n < cap left
    → uvarint left (put_uvarint left n ++ rest) ≡ some (n, length (put_uvarint left n))
unfolding uvarint
uvarint-put_uvarint zero n rest h = ground arith
uvarint-put_uvarint (suc left) n rest h =
    ground (arith, uvarint-put_uvarint left (n / 128) rest (omega arith))

-- a string behind its length
abbrev pub put_string : Bytes → Bytes
put_string s = put_uvarint 9 (length s) ++ s

-- The bytes between two positions are cut out.
cut_string_lem :
    (before s rest : Bytes)
    → length before + length s + length rest < 2 ^ 63
    → cut_string (before ++ (s ++ rest)) (length before) (end_of (length before) (length s))
      ≡ ret (found s (length before + length s))
unfolding cut_string
cut_string_lem before s rest h = ground (
  arith,
  drop-append before (s ++ rest),
  take-append s rest,
  length-append before (s ++ rest),
  length-append s rest,
)

-- A length that could be read leaves the cut.
pub read_var_string_found :
    (file : Bytes) (pos n used : ℕ)
    → uvarint 9 (drop pos file) ≡ some (n, used)
    → read_var_string file pos ≡ cut_string file (pos + used) (end_of (pos + used) n)
unfolding read_var_string
read_var_string_found file pos n used h = rw (read_var_string, h)

-- A string is read back wherever it stands.
pub read_var_string-put_string :
    (before s rest : Bytes)
    → length before + length (put_string s) + length rest < 2 ^ 63
    → read_var_string (before ++ (put_string s ++ rest)) (length before)
      ≡ ret (found s (length before + length (put_string s)))
read_var_string-put_string before s rest h =
    let used = put_uvarint 9 (length s) in
    let len : length (used ++ s) ≡ length used + length s = length-append used s in
    let front : length (before ++ used) ≡ length before + length used = length-append before used in
    let cut = cut_string_lem (before ++ used) s rest (omega (arith, len, front, h)) in
    let whole : before ++ used ++ (s ++ rest) ≡ before ++ (used ++ s ++ rest) =
      append_assoc before used (s ++ rest) ∙ ap (◌++◌ before) (sym (append_assoc used s rest)) in
    let cut' : cut_string (before ++ (used ++ s ++ rest)) (length before + length used)
          (end_of (length before + length used) (length s))
        ≡ ret (found s (length before + length used + length s)) =
      rw (sym whole, sym front) cut in
    let reads =
      read_var_string_found (before ++ (used ++ s ++ rest)) (length before) (length s) (length used)
        (ap (uvarint 9) (drop-append before (used ++ s ++ rest) ∙ append_assoc used s rest)
          ∙ uvarint-put_uvarint 9 (length s) (s ++ rest) (omega (arith, len, h))) in
    reads ∙ cut' ∙ ap (λ n. ret (found s n)) (omega (arith, len))
