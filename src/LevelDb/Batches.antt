-- ===== src/LevelDb/Batches.antt =====
-- The reader of a batch against a writer of batches.
pub mod Logs
pub mod Blocks
pub mod Cut
use mathlib.Core.List.{append_assoc}
use sharded_blockchain_dashb.Base.{
  ℕ, suc, ◌+◌, ◌%◌, ◌/◌, ◌^◌, ◌<◌, ◌≤◌, ◌≡◌, refl, sym, ap, ◌∙◌, some, List, [], ◌∷◌, ◌++◌, map,
  length, get_elem?, take, drop, length-append, drop-append, arith, false,
}
use sharded_blockchain_dashb.Base.Keyed.{Bytes}
use sharded_blockchain_dashb.Base.Text.{hex_encode}
use sharded_blockchain_dashb.Base.Outcome.{ret}
use sharded_blockchain_dashb.LevelDb.{
  BatchRow, Batch, little_endian, found, read_var_string, read_value, parse_rows, parse_batch,
  with_row,
}
use sharded_blockchain_dashb.LevelDb.Strings.{put_string, read_var_string-put_string}

-- What a batch does: to store a value under a key, or to delete a key.
pub data Entry : Type 0 where
  store : Bytes → Bytes → Entry
  delete : Bytes → Entry

-- the rows of a batch, as LevelDB lays them out
unfoldable pub put_entries : List Entry → Bytes
put_entries [] = []
put_entries (store k v ∷ es) = 1 ∷ (put_string k ++ (put_string v ++ put_entries es))
put_entries (delete k ∷ es) = 0 ∷ (put_string k ++ put_entries es)

-- four bytes, the lowest first
abbrev pub put_count : ℕ → Bytes
put_count n = n % 256 ∷ n / 256 % 256 ∷ n / 65536 % 256 ∷ n / 16777216 ∷ []

-- a batch behind its header: a sequence number of eight bytes and the number of rows
abbrev pub put_batch : Bytes → List Entry → Bytes
put_batch seq es = seq ++ (put_count (length es) ++ put_entries es)

-- what the reader keeps of an entry
abbrev pub row_of : Entry → BatchRow
row_of (store k v) = record { key_hex = hex_encode k; value = v }
row_of (delete k) = record { key_hex = hex_encode k; value = [] }

abbrev pub rows_of : List Entry → Batch
rows_of es = record { rows = map row_of es; failed = false }

get_elem?-append :
    (before : Bytes) (x : ℕ) (rest : Bytes)
    → get_elem? (before ++ (x ∷ rest)) (length before) ≡ some x
get_elem?-append [] x rest = refl
get_elem?-append (b ∷ before) x rest = get_elem?-append before x rest

-- A position in a file: what lies before it and what comes after.
pub record At (file : Bytes) (pos : ℕ) (rest : Bytes) : Type 0 where
  pub before : Bytes
  pub splits : file ≡ before ++ rest
  pub pos_is : pos ≡ length before

pub At-append :
    (file : Bytes) (pos : ℕ) (x rest : Bytes)
    → At file pos (x ++ rest)
    → At file (pos + length x) rest
At-append file pos x rest a = record {
  before = a.before ++ x;
  splits = a.splits ∙ sym (append_assoc a.before x rest);
  pos_is = omega (arith, a.pos_is, length-append a.before x);
}

At-read :
    (file : Bytes) (pos : ℕ) (s rest : Bytes)
    → length file < 2 ^ 63
    → At file pos (put_string s ++ rest)
    → read_var_string file pos ≡ ret (found s (pos + length (put_string s)))
At-read file pos s rest h a =
    rw (a.splits, a.pos_is)
      (read_var_string-put_string a.before s rest (
        omega (
          arith,
          h,
          ap length a.splits,
          length-append a.before (put_string s ++ rest),
          length-append (put_string s) rest,
        )))

At-get_elem? :
    (file : Bytes) (pos x : ℕ) (rest : Bytes) → At file pos (x ∷ rest) → get_elem? file pos ≡ some x
At-get_elem? file pos x rest a = rw (a.splits, a.pos_is) (get_elem?-append a.before x rest)

At-suc : (file : Bytes) (pos x : ℕ) (rest : Bytes) → At file pos (x ∷ rest) → At file (suc pos) rest
At-suc file pos x rest a = record {
  before = a.before ++ (x ∷ []);
  splits = a.splits ∙ sym (append_assoc a.before (x ∷ []) rest);
  pos_is = omega (arith, a.pos_is, length-append a.before (x ∷ []));
}

parse_rows-store :
    (left : ℕ) (file : Bytes) (pos p1 p2 : ℕ) (k v : Bytes) (b : Batch)
    → get_elem? file pos ≡ some 1
    → read_var_string file (suc pos) ≡ ret (found k p1)
    → read_var_string file p1 ≡ ret (found v p2)
    → parse_rows left file p2 ≡ ret b
    → parse_rows (suc left) file pos ≡ ret (with_row (row_of (store k v)) b)
unfolding parse_rows read_value
parse_rows-store left file pos p1 p2 k v b h1 h2 h3 h4 = rw (parse_rows, h1, h2, read_value, h3, h4)

parse_rows-delete :
    (left : ℕ) (file : Bytes) (pos p1 : ℕ) (k : Bytes) (b : Batch)
    → get_elem? file pos ≡ some 0
    → read_var_string file (suc pos) ≡ ret (found k p1)
    → parse_rows left file p1 ≡ ret b
    → parse_rows (suc left) file pos ≡ ret (with_row (row_of (delete k)) b)
unfolding parse_rows read_value
parse_rows-delete left file pos p1 k b h1 h2 h3 = rw (parse_rows, h1, h2, read_value, h3)

parse_rows_lem :
    (es : List Entry) (file : Bytes) (pos : ℕ)
    → length file < 2 ^ 63
    → At file pos (put_entries es)
    → parse_rows (length es) file pos ≡ ret (rows_of es)
unfolding put_entries parse_rows
parse_rows_lem [] file pos h a = refl
parse_rows_lem (store k v ∷ es) file pos h a =
    let rest = put_string v ++ put_entries es in
    let a1 = At-suc file pos 1 (put_string k ++ rest) a in
    let p1 = suc pos + length (put_string k) in
    let a2 = At-append file (suc pos) (put_string k) rest a1 in
    let p2 = p1 + length (put_string v) in
    let a3 = At-append file p1 (put_string v) (put_entries es) a2 in
    parse_rows-store (length es) file pos p1 p2 k v (rows_of es)
      (At-get_elem? file pos 1 (put_string k ++ rest) a) (At-read file (suc pos) k rest h a1)
      (At-read file p1 v (put_entries es) h a2) (parse_rows_lem es file p2 h a3)
parse_rows_lem (delete k ∷ es) file pos h a =
    let a1 = At-suc file pos 0 (put_string k ++ put_entries es) a in
    let p1 = suc pos + length (put_string k) in
    let a2 = At-append file (suc pos) (put_string k) (put_entries es) a1 in
    parse_rows-delete (length es) file pos p1 k (rows_of es)
      (At-get_elem? file pos 0 (put_string k ++ put_entries es) a)
      (At-read file (suc pos) k (put_entries es) h a1) (parse_rows_lem es file p1 h a2)

little_endian-put_count :
    (n : ℕ) (rest : Bytes) → n < 2 ^ 32 → little_endian (take 4 (put_count n ++ rest)) ≡ n
unfolding little_endian
little_endian-put_count n rest h = omega arith

parse_batch_of :
    (payload : Bytes) (n : ℕ) (b : Batch)
    → 12 ≤ length payload
    → little_endian (take 4 (drop 8 payload)) ≡ n
    → parse_rows n payload 12 ≡ ret b
    → parse_batch payload ≡ ret b
unfolding parse_batch
parse_batch_of payload n b h c r = ground arith

-- `parseBatch` reads back, without an error and in order, every row of a batch that LevelDB writes
-- behind an eight-byte sequence number, for fewer than 2 ^ 32 rows and 2 ^ 63 bytes: the key in
-- hexadecimal with the stored value, or with an empty value for a deletion.
pub parse_batch-put_batch :
    (seq : Bytes) (es : List Entry)
    → length seq ≡ 8
    → length es < 2 ^ 32
    → length (put_batch seq es) < 2 ^ 63
    → parse_batch (put_batch seq es) ≡ ret (rows_of es)
parse_batch-put_batch seq es s n h =
    let count = put_count (length es) in
    let body = count ++ put_entries es in
    let skipped : drop 8 (seq ++ body) ≡ body = rw s at (drop-append seq body) in
    let at12 : At (seq ++ body) 12 (put_entries es) = record {
      before = seq ++ count;
      splits = sym (append_assoc seq count (put_entries es));
      pos_is = omega (arith, s, length-append seq count);
    } in
    parse_batch_of (seq ++ body) (length es) (rows_of es) (omega (arith, s, length-append seq body))
      (ap (λ x. little_endian (take 4 x)) skipped
        ∙ little_endian-put_count (length es) (put_entries es) n)
      (parse_rows_lem es (seq ++ body) 12 h at12)
