-- ===== src/LevelDb/Batches/Blocks.antt =====
-- The reader of a log on a log of any number of blocks: it reads the records of one block after the
-- other, and passes over what is too short for a header at the end of a block.
use mathlib.Core.Path.{subst}
use mathlib.Core.List.{append_assoc}
use sharded_blockchain_dashb.Base.{
  ℕ, zero, suc, ◌+◌, ◌*◌, ◌%◌, ◌/◌, ◌<◌, ◌≤◌, ◌≡◌, refl, sym, ◌∙◌, List, [], ◌∷◌, ◌++◌, All, length,
  length-append, take-append, arith, false, true, ◌==◌, ◌&&◌, ltb,
}
use sharded_blockchain_dashb.Base.Keyed.{Bytes}
use sharded_blockchain_dashb.Base.Outcome.{Outcome, ret, panic, ◌>>=◌}
use sharded_blockchain_dashb.LevelDb.{
  LogState, Scan, scanned, use_record, scan_block, scan_log, block_end_of, carry_on,
}
use sharded_blockchain_dashb.LevelDb.Log.{use_record-offset}
use sharded_blockchain_dashb.LevelDb.Batches.{At, At-append}
use sharded_blockchain_dashb.LevelDb.Batches.Logs.{put_header, header-At, length-At, scan_log_over}

-- a record of a log: the four bytes of its checksum, its type, and its bytes
pub record Piece : Type 0 where
  pub checksum : Bytes
  pub kind : ℕ
  pub payload : Bytes

abbrev pub put_piece : Piece → Bytes
put_piece p = put_header p.checksum (length p.payload) p.kind ++ p.payload

abbrev pub put_pieces : List Piece → Bytes
put_pieces [] = []
put_pieces (p ∷ ps) = put_piece p ++ put_pieces ps

-- no record of type 0, which the writer uses for what is not written yet
abbrev pub IsPiece : Piece → Type 0
IsPiece p = (length p.checksum ≡ 4) × (length p.payload < 65536) × (0 < p.kind)

-- the records of a block, and the bytes that fill it up
pub record LogBlock : Type 0 where
  pub pieces : List Piece
  pub pad : Bytes

abbrev pub put_block : LogBlock → Bytes
put_block b = put_pieces b.pieces ++ b.pad

abbrev pub put_blocks : List LogBlock → Bytes
put_blocks [] = []
put_blocks (b ∷ bs) = put_block b ++ put_blocks bs

-- every block but the last has 32768 bytes, and no block is filled up by a header or more
abbrev pub AreBlocks : List LogBlock → Type 0
AreBlocks [] = Unit
AreBlocks (b ∷ []) =
    All IsPiece b.pieces
    × (length b.pad < 7)
    × (0 < length (put_block b))
    × (length (put_block b) ≤ 32768)
AreBlocks (b ∷ c ∷ bs) =
    All IsPiece b.pieces × (length b.pad < 7) × (length (put_block b) ≡ 32768) × AreBlocks (c ∷ bs)

-- the state behind some records, and behind some blocks
abbrev pub use_pieces : List Piece → LogState → Outcome LogState
use_pieces [] s = ret s
use_pieces (p ∷ ps) s =
    use_record p.kind p.payload (record s { offset = s.offset + 7 + length p.payload })
    >>= use_pieces ps

abbrev pub use_blocks : List LogBlock → LogState → Outcome LogState
use_blocks [] s = ret s
use_blocks (b ∷ bs) s = use_pieces b.pieces s >>= λ t.
    use_blocks bs (record t { offset = s.offset + length (put_block b) })

length-put_piece : (p : Piece) → IsPiece p → length (put_piece p) ≡ 7 + length p.payload
length-put_piece p (four, _, _) =
    let n = length p.payload in
    omega (
      arith,
      four,
      length-append (put_header p.checksum n p.kind) p.payload,
      length-append p.checksum (n % 256 ∷ n / 256 ∷ p.kind ∷ []),
    )

unfoldable pub as_scan : Outcome LogState → Outcome Scan
as_scan m = m >>= λ t. ret (scanned t)

as_scan->>= :
    (m : Outcome LogState) (f : LogState → Outcome LogState) (g : LogState → Outcome Scan)
    → ((t : LogState) → m ≡ ret t → g t ≡ as_scan (f t))
    → (m >>= g) ≡ as_scan (m >>= f)
unfolding as_scan
as_scan->>= (ret t) f g h = h t refl
as_scan->>= panic f g h = refl

scan_block-put_pieces :
    (fuel padded : ℕ) (ps : List Piece) (rest file : Bytes) (block_end : ℕ) (s : LogState)
    → All IsPiece ps
    → block_end ≡ s.offset + length (put_pieces ps) + padded
    → padded < 7
    → block_end ≤ length file
    → length file < s.offset + fuel
    → At file s.offset (put_pieces ps ++ rest)
    → scan_block fuel file block_end s ≡ as_scan (use_pieces ps s)
unfolding scan_block as_scan
scan_block-put_pieces zero padded ps rest file block_end s all ends short inside fuelled a =
    absurd (omega (arith, fuelled, ends, inside))
scan_block-put_pieces (suc fuel) padded [] rest file block_end s all ends short inside fuelled a =
    let over : ltb block_end (s.offset + 7) ≡ true = ground (arith, ends, short) in rw over refl
scan_block-put_pieces (suc fuel) padded (p ∷ ps) rest file block_end s (ok, all) ends short inside
      fuelled a =
    let n = length p.payload in
    let end = s.offset + 7 + n in
    let parts = length-append (put_piece p) (put_pieces ps) in
    let size = length-put_piece p ok in
    let spread = append_assoc (put_piece p) (put_pieces ps) rest in
    let here : At file s.offset (put_piece p ++ (put_pieces ps ++ rest)) =
      subst (At file s.offset) spread a in
    let next : At file end (put_pieces ps ++ rest) =
      subst (λ k. At file k (put_pieces ps ++ rest)) (omega (arith, size))
        (At-append file s.offset (put_piece p) (put_pieces ps ++ rest) here) in
    let apart = append_assoc (put_header p.checksum n p.kind) p.payload (put_pieces ps ++ rest) in
    let (len, kind, behind) =
      header-At file s.offset n p.kind p.checksum (p.payload ++ (put_pieces ps ++ rest)) ok.0 ok.1
        (subst (At file s.offset) apart here) in
    let room : ltb block_end (s.offset + 7) ≡ false = ground (arith, ends, parts, size) in
    let filled : (p.kind == 0) ≡ false = ground (arith, ok.2) in
    let no_gap : ((n == 0) && (p.kind == 0)) ≡ false = ground (arith, filled) in
    let whole : ltb (length file) end ≡ false = ground (arith, ends, inside, parts, size) in
    let used = record s { offset = end } in
    rw (room, len, kind, behind, no_gap, whole, take-append p.payload (put_pieces ps ++ rest))
      (as_scan->>= (use_record p.kind p.payload used) (use_pieces ps)
        (scan_block fuel file block_end)
        λ t e.
          let at : t.offset ≡ end = use_record-offset p.kind p.payload used t e in
          scan_block-put_pieces fuel padded ps rest file block_end t all
            (omega (arith, ends, parts, size, at)) short inside (omega (arith, fuelled, at))
            (subst (λ k. At file k (put_pieces ps ++ rest)) (sym at) next))

carry_on-as_scan :
    (m : Outcome LogState) (go : LogState → Outcome Scan) → (as_scan m >>= carry_on go) ≡ (m >>= go)
unfolding as_scan
carry_on-as_scan (ret t) go = refl
carry_on-as_scan panic go = refl

-- one round of the outer loop
scan_log-put_block :
    (fuel : ℕ) (b : LogBlock) (bs : List LogBlock) (file : Bytes) (s : LogState)
    → All IsPiece b.pieces
    → length b.pad < 7
    → 0 < length (put_block b)
    → block_end_of file s.offset ≡ s.offset + length (put_block b)
    → At file s.offset (put_block b ++ put_blocks bs)
    → ((t : LogState)
        → scan_log fuel file (record t { offset = s.offset + length (put_block b) })
          ≡ as_scan (use_blocks bs (record t { offset = s.offset + length (put_block b) })))
    → scan_log (suc fuel) file s ≡ as_scan (use_blocks (b ∷ bs) s)
unfolding scan_log
scan_log-put_block fuel b bs file s all short filled ends a later =
    let size = length-append (put_pieces b.pieces) b.pad in
    let total = length-At file s.offset (put_block b ++ put_blocks bs) a in
    let parts = length-append (put_block b) (put_blocks bs) in
    let more : ltb s.offset (length file) ≡ true = ground (arith, total, parts, filled) in
    let apart = append_assoc (put_pieces b.pieces) b.pad (put_blocks bs) in
    let scans =
      scan_block-put_pieces (suc (length file)) (length b.pad) b.pieces (b.pad ++ put_blocks bs)
        file (s.offset + length (put_block b)) s all (omega (arith, size)) short
        (omega (arith, total, parts)) (omega arith) (subst (At file s.offset) apart a) in
    let go : LogState → Outcome Scan =
      λ t. scan_log fuel file (record t { offset = s.offset + length (put_block b) }) in
    rw (more, ends, scans)
      (carry_on-as_scan (use_pieces b.pieces s) go
        ∙ as_scan->>= (use_pieces b.pieces s)
            (λ t. use_blocks bs (record t { offset = s.offset + length (put_block b) })) go
            (λ t e. later t))

pub scan_log-put_blocks :
    (fuel k : ℕ) (bs : List LogBlock) (file : Bytes) (s : LogState)
    → AreBlocks bs
    → s.offset ≡ k * 32768
    → length file < s.offset + fuel
    → At file s.offset (put_blocks bs)
    → scan_log fuel file s ≡ as_scan (use_blocks bs s)
unfolding as_scan
scan_log-put_blocks fuel k [] file s blocks at fuelled a =
    let end = length-At file s.offset [] a in
    scan_log_over fuel file s (omega (arith, end, fuelled)) (omega (arith, end))
scan_log-put_blocks zero k (b ∷ bs) file s blocks at fuelled a =
    absurd (omega (arith, fuelled, length-At file s.offset (put_blocks (b ∷ bs)) a))
scan_log-put_blocks (suc fuel) k (b ∷ []) file s (all, short, filled, small) at fuelled a =
    let total = length-At file s.offset (put_blocks (b ∷ [])) a in
    let parts = length-append (put_block b) [] in
    scan_log-put_block fuel b [] file s all short filled
      (ground (arith, at, total, parts, small, filled)) a
      λ t.
        scan_log_over fuel file _ (omega (arith, total, parts, fuelled, filled))
          (omega (arith, total, parts))
scan_log-put_blocks (suc fuel) k (b ∷ c ∷ bs) file s (all, short, full, blocks) at fuelled a =
    let total = length-At file s.offset (put_blocks (b ∷ c ∷ bs)) a in
    let parts = length-append (put_block b) (put_blocks (c ∷ bs)) in
    let next = At-append file s.offset (put_block b) (put_blocks (c ∷ bs)) a in
    scan_log-put_block fuel b (c ∷ bs) file s all short (omega (arith, full))
      (ground (arith, at, total, parts, full)) a
      λ t.
        scan_log-put_blocks fuel (k + 1) (c ∷ bs) file _ blocks (omega (arith, at, full))
          (omega (arith, fuelled, full)) next
