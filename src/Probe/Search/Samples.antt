-- ===== src/Probe/Search/Samples.antt =====
-- The search of cmd/probe for blocks ends, and what it shows was decoded.
use sharded_blockchain_dashb.Base.{
  ℕ, zero, suc, ◌+◌, ◌-◌, ◌≤◌, ◌<◌, ◌≡◌, refl, true, false, Option, none, some, List, ltb, length,
  drop, Option-cases, Bool-cases, inl, inr, ◌&&◌, All, arith,
}
use sharded_blockchain_dashb.Base.Keyed.{Bytes}
use sharded_blockchain_dashb.Probe.Search.{
  LiteBlock, LiteBlockHeader, Sample, block_at, header_at, looks_like_block, index_of, needle,
  try_header, try_block, look_back, one_more, put_sample, inspect, inspect_flat_database,
}

module _ (decode_block : Bytes → Option (LiteBlock × ℕ))
    (decode_header : Bytes → Option (LiteBlockHeader × ℕ)) where
  -- gob decodes the value where the line says, and the value is not an empty one
  abbrev pub Decoded : Bytes → Sample → Type 0
  Decoded file (block_at start consumed block) =
      (decode_block (drop start file) ≡ some (block, consumed)) × (looks_like_block block ≡ true)
  Decoded file (header_at start consumed header) =
      (decode_header (drop start file) ≡ some (header, consumed)) × (0 < header.number)

  abbrev DecodedIf : Bytes → Option Sample → Type 0
  DecodedIf file none = Unit
  DecodedIf file (some sample) = Decoded file sample

  try_header-Decoded :
      (file : Bytes) (start : ℕ)
      → DecodedIf file
          (try_header decode_block decode_header start (decode_header (drop start file)))
  try_header-Decoded file start = elim (Option-cases (decode_header (drop start file))) [
    | inl bad ↦ rw bad tt
    | inr ((header, consumed), read) ↦ elim (Bool-cases (ltb 0 header.number)) [
      | inl numbered ↦ rw (read, numbered) (read, ground (arith, numbered))
      | inr zero_number ↦ rw (read, zero_number) tt
    ]
  ]

  try_block-Decoded :
      (file : Bytes) (start : ℕ)
      → DecodedIf file
          (try_block decode_block decode_header file start (decode_block (drop start file)))
  try_block-Decoded file start = elim (Option-cases (decode_block (drop start file))) [
    | inl bad ↦ rw bad (try_header-Decoded file start)
    | inr ((block, consumed), read) ↦ elim (Bool-cases (looks_like_block block)) [
      | inl full ↦ rw (read, full) (read, full)
      | inr empty ↦ rw (read, empty) (try_header-Decoded file start)
    ]
  ]

  or_else-Decoded :
      (file : Bytes) (here rest : Option Sample)
      → DecodedIf file here
      → DecodedIf file rest
      → DecodedIf file (elim here [ none ↦ rest | some sample ↦ some sample ])
  or_else-Decoded file none rest h k = k
  or_else-Decoded file (some sample) rest h k = h

  look_back-Decoded :
      (back : ℕ) (file : Bytes) (pos : ℕ)
      → DecodedIf file (look_back decode_block decode_header back file pos)
  unfolding look_back
  look_back-Decoded zero file pos = tt
  look_back-Decoded (suc back) file pos =
      let rest = look_back-Decoded back file pos in
      elim (Bool-cases (ltb pos back)) [
        | inl before ↦ rw before rest
        | inr inside ↦
            rw inside (or_else-Decoded file _ _ (try_block-Decoded file (pos - back)) rest)
      ]

  -- the search ends, shows what was decoded, and not more than ten lines in all
  Searched : Bytes → ℕ → Option (List Sample) → Type 0
  Searched file n none = ⊥
  Searched file n (some samples) = All (Decoded file) samples × (n + length samples ≤ 10)

  put_sample-Searched :
      (file : Bytes) (n : ℕ) (sample : Option Sample) (rest : Option (List Sample))
      → DecodedIf file sample
      → Searched file (one_more decode_block decode_header sample n) rest
      → Searched file n (put_sample decode_block decode_header sample rest)
  unfolding Searched
  put_sample-Searched file n none none h k = k
  put_sample-Searched file n (some sample) none h k = k
  put_sample-Searched file n none (some samples) h k = k
  put_sample-Searched file n (some sample) (some samples) h (decoded, few) =
      ((h, decoded), omega (arith, few))

  one_more-few :
      (sample : Option Sample) (n : ℕ) → n < 10 → one_more decode_block decode_header sample n ≤ 10
  one_more-few none n h = omega (arith, h)
  one_more-few (some sample) n h = omega (arith, h)

  inspect-Searched :
      (fuel : ℕ) (file : Bytes) (idx n : ℕ)
      → n ≤ 10
      → length file ≤ idx + fuel
      → Searched file n (inspect decode_block decode_header (suc fuel) file idx n)
  unfolding inspect Searched
  inspect-Searched zero file idx n few long =
      let over : (ltb idx (length file) && ltb n 10) ≡ false = ground (arith, long) in
      rw (inspect, over) (tt, omega (arith, few))
  inspect-Searched (suc fuel) file idx n few long =
      elim (Bool-cases (ltb idx (length file) && ltb n 10)) [
        | inr over ↦ rw (inspect, over) (tt, omega (arith, few))
        | inl inside ↦ elim (Option-cases (index_of needle (drop idx file))) [
          | inl missing ↦ rw (inspect, inside, missing) (tt, omega (arith, few))
          | inr (i, there) ↦
              let sample = look_back decode_block decode_header 41 file (i + idx) in
              let more =
                inspect-Searched fuel file (i + idx + length needle)
                  (one_more decode_block decode_header sample n)
                  (one_more-few sample n (ground (arith, inside))) (omega (arith, long)) in
              rw (inspect, inside, there)
                (put_sample-Searched file n sample _ (look_back-Decoded 41 file (i + idx)) more)
        ]
      ]

  -- `inspectFlatDatabase` ends on every file, with at most ten lines; each shows what gob decodes from
  -- the place that it names: a block with a number, a transaction or a hash, or a header with a number.
  pub inspect_flat_database_lem :
      (file : Bytes)
      → (samples : List Sample) × (inspect_flat_database decode_block decode_header file
          ≡ some samples)
        × All (Decoded file) samples
        × (length samples ≤ 10)
  unfolding inspect_flat_database Searched
  inspect_flat_database_lem file =
      found (inspect decode_block decode_header (suc (length file)) file 0 0)
        (inspect-Searched (length file) file 0 0 (omega arith) (omega arith))
    where
      found :
          (answer : Option (List Sample))
          → Searched file 0 answer
          → (samples : List Sample) × (answer ≡ some samples)
            × All (Decoded file) samples
            × (length samples ≤ 10)
      found none h = absurd h
      found (some samples) (decoded, few) = (samples, refl, decoded, omega (arith, few))
