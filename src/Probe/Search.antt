-- ===== src/Probe/Search.antt =====
-- cmd/probe/main.go, `inspectFlatDatabase`: its search for blocks in the bytes of a bolt file. gob is
-- an argument.
pub mod Samples
use sharded_blockchain_dashb.Base.{
  ℕ, zero, suc, ◌+◌, ◌-◌, Option, none, some, List, [], ◌∷◌, ◌++◌, ltb, if◌then◌else◌, ◌&&◌, ◌||◌,
  Bool, length, drop,
}
use sharded_blockchain_dashb.Base.Keyed.{Bytes}
use sharded_blockchain_dashb.Base.Text.{codes}
use sharded_blockchain_dashb.Dashboard.Users.{has_prefix}

-- a transaction, of which nothing is decoded
pub data LiteTx : Type 0 where
  lite_tx : LiteTx

-- the time, which may have any type, is not read
pub record LiteBlockHeader : Type 0 where
  pub parent_block_hash : Bytes
  pub state_root : Bytes
  pub tx_root : Bytes
  pub number : ℕ
  pub miner : ℕ

pub record LiteBlock : Type 0 where
  pub header : LiteBlockHeader
  pub body : List (Option LiteTx)
  pub hash : Bytes

abbrev pub looks_like_block : LiteBlock → Bool
looks_like_block b = ltb 0 b.header.number || ltb 0 (length b.body) || ltb 0 (length b.hash)

-- a line of `inspectFlatDatabase`: where the value starts, how many bytes gob read, and the value
pub data Sample : Type 0 where
  block_at : ℕ → ℕ → LiteBlock → Sample
  header_at : ℕ → ℕ → LiteBlockHeader → Sample

-- `bytes.Index`
unfoldable pub index_of : Bytes → Bytes → Option ℕ
index_of needle [] = if has_prefix [] needle then some 0 else none
index_of needle (c ∷ cs) =
    let later = index_of needle cs in
    if has_prefix (c ∷ cs) needle
    then some 0
    else elim later [ none ↦ none | some i ↦ some (suc i) ]

abbrev pub needle : Bytes
needle = codes "Block" ++ 1 ∷ []

-- gob on the start of some bytes: the value and how many it read, or `none` for an error
module _ (decode_block : Bytes → Option (LiteBlock × ℕ))
    (decode_header : Bytes → Option (LiteBlockHeader × ℕ)) where
  abbrev pub try_header : ℕ → Option (LiteBlockHeader × ℕ) → Option Sample
  try_header start none = none
  try_header start (some (header, consumed)) =
      if ltb 0 header.number then some (header_at start consumed header) else none

  abbrev pub try_block : Bytes → ℕ → Option (LiteBlock × ℕ) → Option Sample
  try_block file start none = try_header start (decode_header (drop start file))
  try_block file start (some (block, consumed)) =
      if looks_like_block block
      then some (block_at start consumed block)
      else try_header start (decode_header (drop start file))

  -- the loop over `back`, the number of rounds left
  unfoldable pub look_back : ℕ → Bytes → ℕ → Option Sample
  look_back zero file pos = none
  look_back (suc back) file pos =
      let rest = look_back back file pos in
      let here = try_block file (pos - back) (decode_block (drop (pos - back) file)) in
      if ltb pos back then rest else elim here [ none ↦ rest | some sample ↦ some sample ]

  abbrev pub one_more : Option Sample → ℕ → ℕ
  one_more none n = n
  one_more (some sample) n = n + 1

  abbrev pub put_sample : Option Sample → Option (List Sample) → Option (List Sample)
  put_sample sample none = none
  put_sample none (some samples) = some samples
  put_sample (some sample) (some samples) = some (sample ∷ samples)

  -- The loop over `idx`; `none` is a loop longer than the fuel. The end of each round sets `idx`, also
  -- behind a sample.
  unfoldable pub inspect : ℕ → Bytes → ℕ → ℕ → Option (List Sample)
  unfolding look_back index_of
  inspect zero file idx n = none
  inspect (suc fuel) file idx n =
      if ltb idx (length file) && ltb n 10
      then elim (index_of needle (drop idx file)) [
        | none ↦ some []
        | some i ↦
            (let sample = look_back 41 file (i + idx) in
              put_sample sample (inspect fuel file (i + idx + length needle) (one_more sample n)))
      ]
      else some []

  unfoldable pub inspect_flat_database : Bytes → Option (List Sample)
  unfolding inspect
  inspect_flat_database file = inspect (suc (length file)) file 0 0
