-- ===== src/Dashboard/Flat/Ends.antt =====
-- `parseShardDatabase` ends where gob reads past the name that the search found.
use sharded_blockchain_dashb.Base.{
  ℕ, zero, suc, ◌+◌, ◌-◌, ◌≤◌, ◌<◌, ◌≡◌, refl, sym, ap, ◌∙◌, true, false, ◌||◌, Option, none, some,
  List, [], ◌∷◌, ltb, ◌==◌, length, length-map, drop, map, Option-cases, Bool-cases, inl, inr, All,
  arith,
}
use sharded_blockchain_dashb.Base.Keyed.{Bytes, bytes_eq, bytes_is_eq}
use sharded_blockchain_dashb.Base.Dict.{Dict, lookup, insert}
use sharded_blockchain_dashb.Base.Text.{codes, hex_encode}
use sharded_blockchain_dashb.Core.{Time}
use sharded_blockchain_dashb.Probe.Search.{index_of, needle}
use sharded_blockchain_dashb.Dashboard.{BlockView, IndexedBlock, sort_views}
use sharded_blockchain_dashb.Dashboard.Users.{has_prefix}
use sharded_blockchain_dashb.Dashboard.Sorted.{length-sort_views}
use sharded_blockchain_dashb.Dashboard.Ordered.{
  AreInOrder, sort_views-AreInOrder, view_sum, view_sum-sort_views,
}
use sharded_blockchain_dashb.Dashboard.Flat.{
  LiteBlock, Found, accept, find_block, index_found, newer, put_if_found, behind, scan_flat,
  with_views, entry_view, parse_shard_database,
}

index_of_lem :
    (part s : Bytes) (i : ℕ) → index_of part s ≡ some i → has_prefix (drop i s) part ≡ true
unfolding index_of
index_of_lem part [] i h = elim (Bool-cases (has_prefix [] part)) [
  | inl here ↦ ground (arith, h, here)
  | inr other ↦ ground (arith, h, other)
]
index_of_lem part (c ∷ s) i h = elim (Bool-cases (has_prefix (c ∷ s) part)) [
  | inl here ↦ ground (arith, h, here)
  | inr other ↦ elim (Option-cases (index_of part s)) [
    | inl missing ↦ ground (arith, h, other, missing)
    | inr (j, there) ↦
        let later = index_of_lem part s j there in ground (arith, h, other, there, later)
  ]
]

drop-nil : (n : ℕ) → drop n (codes "") ≡ []
drop-nil zero = refl
drop-nil (suc n) = refl

drop-drop : (idx i : ℕ) (s : Bytes) → drop i (drop idx s) ≡ drop (i + idx) s
drop-drop zero i s = let same : i ≡ i + 0 = omega arith in ap (λ n. drop n s) same
drop-drop (suc idx) i [] = drop-nil i ∙ sym (drop-nil (i + suc idx))
drop-drop (suc idx) i (c ∷ s) =
    let same : suc (i + idx) ≡ i + suc idx = omega arith in
    drop-drop idx i s ∙ ap (λ n. drop n (c ∷ s)) same

-- every entry of the map has the property
All-insert {κ} :
    (P : Bytes × IndexedBlock → Type κ) (k : Bytes) (b : IndexedBlock) (m : Dict Bytes IndexedBlock)
    → P (k, b)
    → All P m
    → All P (insert k b m)
unfolding insert
All-insert P k b [] h all = (h, tt)
All-insert P k b ((j, c) ∷ m) h (first, rest) = elim (Bool-cases (bytes_eq j k)) [
  | inl same ↦ rw same (h, rest)
  | inr other ↦ rw other (first, All-insert P k b m h rest)
]

module _ (decode : Bytes → Option (LiteBlock × ℕ)) where
  -- gob, where it reads a block from at most 40 bytes before the name, reads past the name's start
  abbrev pub ReadsPast : Bytes → Type 0
  ReadsPast file =
      (start at consumed : ℕ) (block : LiteBlock)
      → start ≤ at
      → at ≤ start + 40
      → has_prefix (drop at file) needle ≡ true
      → decode (drop start file) ≡ some (block, consumed)
      → at < start + consumed

  -- a block that gob read from the file, whole
  abbrev pub InFile : Bytes → Found → Type 0
  InFile file found =
      (decode (drop found.start file) ≡ some (found.block, found.consumed))
      × (found.start + found.consumed ≤ length file)

  -- found from the name at `at`
  abbrev FoundAt : Bytes → ℕ → Option Found → Type 0
  FoundAt file at none = Unit
  FoundAt file at (some found) = InFile file found × (found.start ≤ at) × (at ≤ found.start + 40)

  accept-FoundAt :
      (file : Bytes) (start at : ℕ)
      → start ≤ at
      → at ≤ start + 40
      → FoundAt file at (accept decode file start (decode (drop start file)))
  accept-FoundAt file start at before near = elim (Option-cases (decode (drop start file))) [
    | inl bad ↦ rw bad tt
    | inr ((block, consumed), read) ↦
        elim (Bool-cases
          ((length block.hash == 0) || (consumed == 0) || ltb (length file) (start + consumed))) [
            | inl passed_over ↦ rw (read, passed_over) tt
            | inr taken ↦ rw (read, taken) ((read, ground (arith, taken)), before, near)
          ]
  ]

  or_else-FoundAt :
      (file : Bytes) (at : ℕ) (here rest : Option Found)
      → FoundAt file at here
      → FoundAt file at rest
      → FoundAt file at (elim here [ none ↦ rest | some found ↦ some found ])
  or_else-FoundAt file at none rest h k = k
  or_else-FoundAt file at (some found) rest h k = h

  find_block-FoundAt :
      (back : ℕ) (file : Bytes) (at : ℕ)
      → back ≤ 41
      → FoundAt file at (find_block decode back file at)
  unfolding find_block
  find_block-FoundAt zero file at few = tt
  find_block-FoundAt (suc back) file at few =
      let rest = find_block-FoundAt back file at (omega (arith, few)) in
      elim (Bool-cases (ltb at back)) [
        | inl outside ↦ rw outside rest
        | inr inside ↦ rw inside (
            or_else-FoundAt file at _ _
              (accept-FoundAt file (at - back) at (omega arith) (ground (arith, inside, few))) rest)
      ]

  module _ (format_time : Time → Bytes) where
    -- an entry of the index, from a block that is in the file
    abbrev pub FromFile : Bytes → Bytes × IndexedBlock → Type 0
    FromFile file entry =
        (found : Found) × InFile file found
        × (entry ≡ (hex_encode found.block.hash, index_found format_time file found))

    put_if_found-FromFile :
        (file : Bytes) (at : ℕ) (seen : Dict Bytes IndexedBlock) (found : Option Found)
        → FoundAt file at found
        → All (FromFile file) seen
        → All (FromFile file) (put_if_found decode format_time file seen found)
    put_if_found-FromFile file at seen none h all = all
    put_if_found-FromFile file at seen (some found) (here, _, _) all =
        let b = index_found format_time file found in
        elim (Bool-cases (newer format_time b (lookup b.view.hash seen))) [
          | inl replaces ↦
              rw replaces (All-insert (FromFile file) b.view.hash b seen (found, here, refl) all)
          | inr kept ↦ rw kept all
        ]

    behind-past :
        (file : Bytes) (at : ℕ) (found : Option Found)
        → ReadsPast file
        → has_prefix (drop at file) needle ≡ true
        → FoundAt file at found
        → at < behind decode format_time at found
    behind-past file at none past named h = omega arith
    behind-past file at (some found) past named ((read, whole), before, near) =
        past found.start at found.consumed found.block before near named read

    Ended : Bytes → Option (Dict Bytes IndexedBlock) → Type 0
    Ended file none = ⊥
    Ended file (some seen) = All (FromFile file) seen

    scan_flat-Ended :
        (fuel : ℕ) (file : Bytes) (idx : ℕ) (seen : Dict Bytes IndexedBlock)
        → ReadsPast file
        → length file ≤ idx + fuel
        → All (FromFile file) seen
        → Ended file (scan_flat decode format_time (suc fuel) file idx seen)
    unfolding scan_flat Ended
    scan_flat-Ended zero file idx seen past long all =
        let over : ltb idx (length file) ≡ false = ground (arith, long) in rw (scan_flat, over) all
    scan_flat-Ended (suc fuel) file idx seen past long all =
        elim (Bool-cases (ltb idx (length file))) [
          | inr over ↦ rw (scan_flat, over) all
          | inl inside ↦ elim (Option-cases (index_of needle (drop idx file))) [
            | inl missing ↦ rw (scan_flat, inside, missing) all
            | inr (i, there) ↦
                let at = i + idx in
                let found = find_block decode 41 file at in
                let placed = find_block-FoundAt 41 file at (omega arith) in
                let named : has_prefix (drop at file) needle ≡ true =
                  rw (← drop-drop idx i file) (index_of_lem needle (drop idx file) i there) in
                let on = behind-past file at found past named placed in
                rw (scan_flat, inside, there)
                  (scan_flat-Ended fuel file (behind decode format_time at found)
                    (put_if_found decode format_time file seen found) past (omega (arith, long, on))
                    (put_if_found-FromFile file at seen found placed all))
          ]
        ]

    -- Where gob, reading a block from at most 40 bytes before a name that the search finds, reads past
    -- the start of that name, `parseShardDatabase` ends. Its views are those of the entries of its
    -- index, each as often, in their order by height and, where the heights are the same, by hash; and
    -- each entry of the index is of a block that gob decodes from the file.
    pub parse_shard_database_lem :
        (file : Bytes)
        → ReadsPast file
        → (views : List BlockView) × (seen : Dict Bytes IndexedBlock) × (parse_shard_database decode
              format_time
              (suc (length file))
              file
            ≡ some (views, seen))
          × (length views ≡ length seen)
          × AreInOrder views
          × ((f : BlockView → ℕ)
              → view_sum f views ≡ view_sum f (map (entry_view decode format_time) seen))
          × All (FromFile file) seen
    unfolding parse_shard_database Ended
    parse_shard_database_lem file past =
        viewed (scan_flat decode format_time (suc (length file)) file 0 [])
          (scan_flat-Ended (length file) file 0 [] past (omega arith) tt)
      where
        viewed :
            (answer : Option (Dict Bytes IndexedBlock))
            → Ended file answer
            → (views : List BlockView) × (seen : Dict Bytes IndexedBlock) × (with_views decode
                  format_time answer
                ≡ some (views, seen))
              × (length views ≡ length seen)
              × AreInOrder views
              × ((f : BlockView → ℕ)
                  → view_sum f views ≡ view_sum f (map (entry_view decode format_time) seen))
              × All (FromFile file) seen
        viewed none h = absurd h
        viewed (some seen) h =
            let views = map (entry_view decode format_time) seen in
            (
              sort_views views,
              seen,
              refl,
              length-sort_views views ∙ length-map seen (entry_view decode format_time),
              sort_views-AreInOrder views,
              λ f. view_sum-sort_views f views,
              h,
            )
