-- ===== src/LevelDb/Batches/Logs.antt =====
-- The reader of a log against a writer of logs, for a log of one block.
use mathlib.Core.Path.{subst}
use mathlib.Core.List.{append_assoc, append-nil}
use sharded_blockchain_dashb.Base.{
  ℕ, zero, suc, ◌+◌, ◌%◌, ◌/◌, ◌^◌, ◌<◌, ◌≤◌, ◌≡◌, refl, sym, ap, ◌∙◌, List, [], ◌∷◌, ◌++◌, map,
  All, length, take, drop, length-append, drop-append, take-append, arith, false, true, ◌==◌, ltb,
}
use sharded_blockchain_dashb.Base.Keyed.{Bytes}
use sharded_blockchain_dashb.Base.Outcome.{ret}
use sharded_blockchain_dashb.LevelDb.{
  BatchRow, LogState, scanned, little_endian, use_record, add_batch, record_length, record_type,
  scan_block, scan_log, parse_level_db_log, block_end_of, log_start,
}
use sharded_blockchain_dashb.LevelDb.Batches.{
  Entry, put_entries, put_count, put_batch, row_of, parse_batch-put_batch, At, At-append,
}

-- a batch that is logged: the four bytes of its checksum, its sequence number, and its entries
pub record Logged : Type 0 where
  pub checksum : Bytes
  pub seq : Bytes
  pub work : List Entry

abbrev pub payload_of : Logged → Bytes
payload_of w = put_batch w.seq w.work

-- the header of a record of type `kind`
abbrev pub put_header : Bytes → ℕ → ℕ → Bytes
put_header checksum n kind = checksum ++ n % 256 ∷ n / 256 ∷ kind ∷ []

-- a full record
abbrev pub put_record : Logged → Bytes
put_record w = put_header w.checksum (length (payload_of w)) 1 ++ payload_of w

abbrev pub put_log : List Logged → Bytes
put_log [] = []
put_log (w ∷ ws) = put_record w ++ put_log ws

abbrev pub IsLogged : Logged → Type 0
IsLogged w = (length w.checksum ≡ 4) × (length w.seq ≡ 8) × (length w.work < 2 ^ 32)

abbrev pub logged_rows : List Logged → List BatchRow
logged_rows [] = []
logged_rows (w ∷ ws) = map row_of w.work ++ logged_rows ws

drop-At : (file : Bytes) (pos : ℕ) (rest : Bytes) → At file pos rest → drop pos file ≡ rest
drop-At file pos rest a = rw (a.splits, a.pos_is) (drop-append a.before rest)

drop-At_plus :
    (file : Bytes) (pos at : ℕ) (x rest : Bytes)
    → length x ≡ at
    → At file pos (x ++ rest)
    → drop (pos + at) file ≡ rest
drop-At_plus file pos at x rest h a =
    rw (← h) (drop-At file (pos + length x) rest (At-append file pos x rest a))

pub header-At :
    (file : Bytes) (pos n kind : ℕ) (checksum rest : Bytes)
    → length checksum ≡ 4
    → n < 65536
    → At file pos (put_header checksum n kind ++ rest)
    → (record_length file pos ≡ n) × (record_type file pos ≡ kind) × (drop (pos + 7) file ≡ rest)
unfolding little_endian
header-At file pos n kind checksum rest four small a =
    let size = n % 256 ∷ n / 256 ∷ [] in
    let whole = append_assoc checksum (n % 256 ∷ n / 256 ∷ kind ∷ []) rest in
    let six = append_assoc checksum size (kind ∷ rest) in
    let at4 : At file pos (checksum ++ (n % 256 ∷ n / 256 ∷ kind ∷ rest)) =
      subst (At file pos) whole a in
    let at6 : At file pos ((checksum ++ size) ++ kind ∷ rest) = subst (At file pos) (sym six) at4 in
    let d4 = drop-At_plus file pos 4 checksum (n % 256 ∷ n / 256 ∷ kind ∷ rest) four at4 in
    let d6 =
      drop-At_plus file pos 6 (checksum ++ size) (kind ∷ rest)
        (omega (arith, four, length-append checksum size)) at6 in
    let d7 =
      drop-At_plus file pos 7 (put_header checksum n kind) rest
        (omega (arith, four, length-append checksum (n % 256 ∷ n / 256 ∷ kind ∷ []))) a in
    (
      ap (λ x. little_endian (take 2 x)) d4 ∙ omega (arith, small),
      ap (λ x. little_endian (take 1 x)) d6 ∙ omega arith,
      d7,
    )

pub length-At :
    (file : Bytes) (pos : ℕ) (rest : Bytes) → At file pos rest → length file ≡ pos + length rest
length-At file pos rest a = omega (arith, ap length a.splits, length-append a.before rest, a.pos_is)

length-put_record : (w : Logged) → IsLogged w → length (put_record w) ≡ 7 + length (payload_of w)
length-put_record w (checked, _, _) =
    let n = length (payload_of w) in
    omega (
      arith,
      checked,
      length-append (put_header w.checksum n 1) (payload_of w),
      length-append w.checksum (n % 256 ∷ n / 256 ∷ 1 ∷ []),
    )

length-payload_of : (w : Logged) → IsLogged w → 12 ≤ length (payload_of w)
length-payload_of w (_, sequenced, _) =
    let count = put_count (length w.work) in
    omega (
      arith,
      sequenced,
      length-append w.seq (count ++ put_entries w.work),
      length-append count (put_entries w.work),
    )

-- a full record whose batch is read adds its rows
pub use_record_full :
    (w : Logged) (s : LogState)
    → IsLogged w
    → length (payload_of w) < 2 ^ 63
    → use_record 1 (payload_of w) s ≡ ret (record s { rows = s.rows ++ map row_of w.work })
unfolding use_record add_batch
use_record_full w s (checked, sequenced, few) small =
    rw (parse_batch-put_batch w.seq w.work sequenced few small) refl

-- the state behind some records that end the file
abbrev behind : Bytes → LogState → List BatchRow → LogState
behind file s more = record { offset = length file; fragment = s.fragment; rows = s.rows ++ more }

scan_block-put_log :
    (fuel : ℕ) (ws : List Logged) (file : Bytes) (s : LogState)
    → All IsLogged ws
    → length file ≤ 32768
    → length file < s.offset + fuel
    → At file s.offset (put_log ws)
    → scan_block fuel file (length file) s ≡ ret (scanned (behind file s (logged_rows ws)))
unfolding scan_block
scan_block-put_log zero ws file s all small fuelled a =
    absurd (omega (arith, fuelled, length-At file s.offset (put_log ws) a))
scan_block-put_log (suc fuel) [] file s all small fuelled a =
    let at_end : length file ≡ s.offset = omega (arith, length-At file s.offset [] a) in
    let over : ltb (length file) (s.offset + 7) ≡ true = ground (arith, at_end) in
    rw over (
      ap (λ n. ret (scanned (record s { offset = n }))) (sym at_end)
      ∙ ap (λ r. ret (scanned (record s { offset = length file; rows = r })))
          (sym (append-nil s.rows)))
scan_block-put_log (suc fuel) (w ∷ ws) file s (ok, all) small fuelled a =
    let n = length (payload_of w) in
    let end = s.offset + 7 + n in
    let added = s.rows ++ map row_of w.work in
    let total = length-At file s.offset (put_log (w ∷ ws)) a in
    let parts = length-append (put_record w) (put_log ws) in
    let size = length-put_record w ok in
    let enough = length-payload_of w ok in
    let next : At file end (put_log ws) =
      subst (λ k. At file k (put_log ws)) (omega (arith, size))
        (At-append file s.offset (put_record w) (put_log ws) a) in
    let spread = append_assoc (put_header w.checksum n 1) (payload_of w) (put_log ws) in
    let (len, kind, rest) =
      header-At file s.offset n 1 w.checksum (payload_of w ++ put_log ws) ok.0
        (omega (arith, small, total, parts, size)) (subst (At file s.offset) spread a) in
    let room : ltb (length file) (s.offset + 7) ≡ false = ground (arith, total, parts, size) in
    let filled : (n == 0) ≡ false = ground (arith, enough) in
    let whole : ltb (length file) end ≡ false = ground (arith, total, parts, size) in
    rw
      (
        room,
        len,
        kind,
        rest,
        filled,
        whole,
        take-append (payload_of w) (put_log ws),
        use_record_full w (record s { offset = end }) ok (omega (arith, small, total, parts, size)),
        scan_block-put_log fuel ws file (record s { offset = end; rows = added }) all small
            (omega (arith, fuelled)) next,
      )
      (ap (λ r. ret (scanned (record s { offset = length file; rows = r })))
        (append_assoc s.rows (map row_of w.work) (logged_rows ws)))

-- a loop over the blocks that is at the end of the file
pub scan_log_over :
    (fuel : ℕ) (file : Bytes) (s : LogState)
    → 0 < fuel
    → s.offset ≡ length file
    → scan_log fuel file s ≡ ret (scanned s)
unfolding scan_log
scan_log_over zero file s h at_end = absurd (omega (arith, h))
scan_log_over (suc fuel) file s h at_end =
    let over : ltb s.offset (length file) ≡ false = ground (arith, at_end) in rw over refl

-- `parseLevelDBLog` reads back, in order, the rows of every batch of a log of full records that fits
-- into one block of 32768 bytes, whatever the checksums, for batches of fewer than 2 ^ 32 rows.
pub parse_level_db_log-put_log :
    (ws : List Logged)
    → All IsLogged ws
    → length (put_log ws) ≤ 32768
    → parse_level_db_log (put_log ws)
      ≡ ret
          (scanned (record { offset = length (put_log ws); fragment = []; rows = logged_rows ws }))
unfolding parse_level_db_log scan_log
parse_level_db_log-put_log [] all small = refl
parse_level_db_log-put_log (w ∷ ws) all small =
    let file = put_log (w ∷ ws) in
    let start : At file 0 file = record { before = []; splits = refl; pos_is = refl } in
    let some_bytes : 0 < length file =
      omega (arith, length-append (put_record w) (put_log ws), length-put_record w all.0) in
    let more : ltb 0 (length file) ≡ true = ground (arith, some_bytes) in
    let end : block_end_of file 0 ≡ length file = ground (arith, small) in
    rw
      (
        more,
        end,
        scan_block-put_log (suc (length file)) (w ∷ ws) file log_start all small (omega arith)
            start,
      )
      (scan_log_over (length file) file _ some_bytes refl)
