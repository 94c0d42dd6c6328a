-- ===== src/LevelDb/Batches/Cut.antt =====
-- Batches cut into records: whole, or a first, any number of middle and a last record, in any blocks.
use mathlib.Core.List.{append_assoc, append-nil}
use sharded_blockchain_dashb.Base.{
  ℕ, suc, ◌+◌, ◌^◌, ◌<◌, ◌≡◌, refl, sym, ap, ◌∙◌, Option, none, some, List, [], ◌∷◌, ◌++◌, map,
  length, arith,
}
use sharded_blockchain_dashb.Base.Keyed.{Bytes}
use sharded_blockchain_dashb.Base.Outcome.{ret}
use sharded_blockchain_dashb.LevelDb.{
  LogState, scanned, use_record, add_batch, parse_level_db_log, log_start,
}
use sharded_blockchain_dashb.LevelDb.Batches.{At, row_of, parse_batch-put_batch}
use sharded_blockchain_dashb.LevelDb.Batches.Logs.{
  Logged, payload_of, IsLogged, logged_rows, use_record_full,
}
use sharded_blockchain_dashb.LevelDb.Batches.Blocks.{
  Piece, LogBlock, put_block, put_blocks, AreBlocks, use_pieces, use_blocks, as_scan,
  scan_log-put_blocks,
}

-- a batch that the reader can read
abbrev pub IsReadable : Logged → Type 0
IsReadable w = IsLogged w × (length (payload_of w) < 2 ^ 63)

-- The records, in order, hold the batches; `some` is what the records before them hold of the first
-- batch.
pub data Cut : Option Bytes → List Piece → List Logged → Type 0 where
  all_read : Cut none [] []
  whole :
      {p : Piece} {ps : List Piece} {ws : List Logged} (w : Logged)
      → p.kind ≡ 1
      → p.payload ≡ payload_of w
      → IsReadable w
      → Cut none ps ws
      → Cut none (p ∷ ps) (w ∷ ws)
  first :
      {p : Piece} {ps : List Piece} {ws : List Logged}
      → p.kind ≡ 2
      → Cut (some p.payload) ps ws
      → Cut none (p ∷ ps) ws
  middle :
      {p : Piece} {ps : List Piece} {ws : List Logged} {f : Bytes}
      → p.kind ≡ 3
      → Cut (some (f ++ p.payload)) ps ws
      → Cut (some f) (p ∷ ps) ws
  last :
      {p : Piece} {ps : List Piece} {ws : List Logged} {f : Bytes} (w : Logged)
      → p.kind ≡ 4
      → f ++ p.payload ≡ payload_of w
      → IsReadable w
      → Cut none ps ws
      → Cut (some f) (p ∷ ps) (w ∷ ws)

abbrev pub pieces_of : List LogBlock → List Piece
pieces_of [] = []
pieces_of (b ∷ bs) = b.pieces ++ pieces_of bs

abbrev Keeps : Option Bytes → LogState → Type 0
Keeps none s = Unit
Keeps (some f) s = s.fragment ≡ f

-- What is left behind some records: the rows read, and the records that are still to come.
record Goes (s t : LogState) (qs : List Piece) (ws : List Logged) : Type 0 where
  held : Option Bytes
  before : List Logged
  after : List Logged
  cut : Cut held qs after
  keeps : Keeps held t
  batches : ws ≡ before ++ after
  rows_are : t.rows ≡ s.rows ++ logged_rows before

use_record_whole :
    (w : Logged) (payload : Bytes) (s : LogState)
    → payload ≡ payload_of w
    → IsReadable w
    → use_record 1 payload s ≡ ret (record s { rows = s.rows ++ map row_of w.work })
use_record_whole w payload s same (ok, small) = rw same (use_record_full w s ok small)

use_record_last :
    (w : Logged) (payload : Bytes) (s : LogState)
    → s.fragment ++ payload ≡ payload_of w
    → IsReadable w
    → use_record 4 payload s
      ≡ ret (record { offset = s.offset; fragment = []; rows = s.rows ++ map row_of w.work })
unfolding use_record add_batch
use_record_last w payload s joins ((checked, sequenced, few), small) =
    rw (joins, parse_batch-put_batch w.seq w.work sequenced few small) refl

logged_rows-append :
    (us vs : List Logged) → logged_rows (us ++ vs) ≡ logged_rows us ++ logged_rows vs
logged_rows-append [] vs = refl
logged_rows-append (u ∷ us) vs =
    ap (λ r. map row_of u.work ++ r) (logged_rows-append us vs)
    ∙ sym (append_assoc (map row_of u.work) (logged_rows us) (logged_rows vs))

-- one record
next-Goes :
    (p : Piece) (ps qs : List Piece) (ws vs : List Logged) (s s1 : LogState) (read : List Logged)
    → use_record p.kind p.payload (record s { offset = s.offset + 7 + length p.payload }) ≡ ret s1
    → s1.rows ≡ s.rows ++ logged_rows read
    → ws ≡ read ++ vs
    → (t : LogState) × (use_pieces ps s1 ≡ ret t) × Goes s1 t qs vs
    → (t : LogState) × (use_pieces (p ∷ ps) s ≡ ret t) × Goes s t qs ws
next-Goes p ps qs ws vs s s1 read used rows_are batches (t, uses, g) = (
  t,
  rw used uses,
  record {
    held = g.held;
    before = read ++ g.before;
    after = g.after;
    cut = g.cut;
    keeps = g.keeps;
    batches = batches ∙ ap (λ l. read ++ l) g.batches ∙ sym (append_assoc read g.before g.after);
    rows_are =
        g.rows_are
        ∙ ap (λ r. r ++ logged_rows g.before) rows_are
        ∙ append_assoc s.rows (logged_rows read) (logged_rows g.before)
        ∙ ap (λ r. s.rows ++ r) (sym (logged_rows-append read g.before));
  },
)

use_pieces-Goes :
    (ps qs : List Piece) (s : LogState) {o : Option Bytes} {ws : List Logged}
    → Cut o (ps ++ qs) ws
    → Keeps o s
    → (t : LogState) × (use_pieces ps s ≡ ret t) × Goes s t qs ws
unfolding use_record
use_pieces-Goes [] qs s {o} {ws} c k = (
  s,
  refl,
  record {
    held = o;
    before = [];
    after = ws;
    cut = c;
    keeps = k;
    batches = refl;
    rows_are = sym (append-nil s.rows);
  },
)
use_pieces-Goes (p ∷ ps) qs s (whole {ws = vs} w kind payload ok c) k =
    let s0 = record s { offset = s.offset + 7 + length p.payload } in
    let s1 = record s0 { rows = s.rows ++ map row_of w.work } in
    next-Goes p ps qs (w ∷ vs) vs s s1 (w ∷ [])
      (rw kind (use_record_whole w p.payload s0 payload ok))
      (ap (λ r. s.rows ++ r) (sym (append-nil (map row_of w.work)))) refl
      (use_pieces-Goes ps qs s1 c tt)
use_pieces-Goes (p ∷ ps) qs s {ws = ws} (first kind c) k =
    let s0 = record s { offset = s.offset + 7 + length p.payload } in
    let s1 = record s0 { fragment = p.payload } in
    next-Goes p ps qs ws ws s s1 [] (rw kind refl) (sym (append-nil s.rows)) refl
      (use_pieces-Goes ps qs s1 c refl)
use_pieces-Goes (p ∷ ps) qs s {ws = ws} (middle {f = f} kind c) k =
    let s0 = record s { offset = s.offset + 7 + length p.payload } in
    let s1 = record s0 { fragment = s.fragment ++ p.payload } in
    next-Goes p ps qs ws ws s s1 [] (rw kind refl) (sym (append-nil s.rows)) refl
      (use_pieces-Goes ps qs s1 c (ap (λ l. l ++ p.payload) k))
use_pieces-Goes (p ∷ ps) qs s (last {ws = vs} {f = f} w kind joins ok c) k =
    let s0 = record s { offset = s.offset + 7 + length p.payload } in
    let s1 : LogState = record {
      offset = s0.offset;
      fragment = [];
      rows = s.rows ++ map row_of w.work;
    } in
    next-Goes p ps qs (w ∷ vs) vs s s1 (w ∷ [])
      (rw kind (use_record_last w p.payload s0 (ap (λ l. l ++ p.payload) k ∙ joins) ok))
      (ap (λ r. s.rows ++ r) (sym (append-nil (map row_of w.work)))) refl
      (use_pieces-Goes ps qs s1 c tt)

Keeps-offset :
    (o : Option Bytes) (t : LogState) (n : ℕ) → Keeps o t → Keeps o (record t { offset = n })
Keeps-offset none t n k = tt
Keeps-offset (some f) t n k = k

Cut-nil : {o : Option Bytes} {ws : List Logged} → Cut o [] ws → ws ≡ []
Cut-nil all_read = refl

-- the blocks, from offset to offset
use_blocks_lem :
    (bs : List LogBlock) (s : LogState) {o : Option Bytes} {ws : List Logged}
    → Cut o (pieces_of bs) ws
    → Keeps o s
    → (t : LogState) × (use_blocks bs s ≡ ret t) × (t.rows ≡ s.rows ++ logged_rows ws)
use_blocks_lem [] s c k =
    (s, refl, sym (append-nil s.rows) ∙ ap (λ l. s.rows ++ logged_rows l) (sym (Cut-nil c)))
use_blocks_lem (b ∷ bs) s {o} {ws} c k =
    let (t, uses, g) = use_pieces-Goes b.pieces (pieces_of bs) s c k in
    let next = record t { offset = s.offset + length (put_block b) } in
    let (u, uses_more, rows_are) = use_blocks_lem bs next g.cut (Keeps-offset g.held t _ g.keeps) in
    (
      u,
      rw uses uses_more,
      rows_are
          ∙ ap (λ r. r ++ logged_rows g.after) g.rows_are
          ∙ append_assoc s.rows (logged_rows g.before) (logged_rows g.after)
          ∙ ap (λ r. s.rows ++ r)
              (sym (logged_rows-append g.before g.after) ∙ ap logged_rows (sym g.batches)),
    )

-- `parseLevelDBLog` reads back, in order, the rows of every batch of a log: of blocks of 32768 bytes,
-- the last of which may be shorter, filled up by fewer than seven bytes each; whose records hold each
-- batch whole, or cut into a first, any number of middle and a last record, in one block or several;
-- whatever the checksums, for batches of fewer than 2 ^ 32 rows and 2 ^ 63 bytes.
pub parse_level_db_log-put_blocks :
    (bs : List LogBlock) (ws : List Logged)
    → AreBlocks bs
    → Cut none (pieces_of bs) ws
    → (t : LogState) × (parse_level_db_log (put_blocks bs) ≡ ret (scanned t))
      × (t.rows ≡ logged_rows ws)
unfolding parse_level_db_log as_scan
parse_level_db_log-put_blocks bs ws blocks c =
    let file = put_blocks bs in
    let start : At file 0 file = record { before = []; splits = refl; pos_is = refl } in
    let (t, uses, rows_are) = use_blocks_lem bs log_start c tt in
    let scans =
      scan_log-put_blocks (suc (length file)) 0 bs file log_start blocks (omega arith) (omega arith)
        start in
    (t, scans ∙ rw uses refl, rows_are)
