-- ===== src/Chain/Blocks/Generate.antt =====
-- `GenerateBlock` makes a valid block of the oldest pooled transactions on top of the chain, and
-- `AddBlock` appends it.
use sharded_blockchain_dashb.Base.{
  ◌≡◌, ◌≢◌, refl, sym, ap, ◌∙◌, none, some, List, [], ◌∷◌, arith, ==_iff,
}
use mathlib.Core.Path.{subst}
use sharded_blockchain_dashb.Base.Keyed.{Bytes, bytes_eq_refl}
use sharded_blockchain_dashb.Base.Outcome.{Outcome, ret, ◌>>=◌}
use sharded_blockchain_dashb.Core.{Transaction, Time, Block, BlockHeader, ChainConfig, new_block}
use sharded_blockchain_dashb.Pool.{pack_txs}
use sharded_blockchain_dashb.Backend.{Backend, TrieLaws, DatabaseLaws, BoltLaws, GobLaws}
use sharded_blockchain_dashb.Storage.{get_block, get_newest_block_hash}
use sharded_blockchain_dashb.Storage.Laws.{IsOpen, Fits, add_block_lem}
use sharded_blockchain_dashb.Chain.{Globals, BlockChain}
use sharded_blockchain_dashb.Chain.Ledger.{Accounts, Transfer, plans, apply_transfers}
use sharded_blockchain_dashb.Chain.Commit.{
  IsSound, Untouched, shard_now, Commits, get_update_status_trie_lem,
}
use sharded_blockchain_dashb.Chain.Blocks.{
  next_number, put_txs, get_tx_tree_root, header_hash, seal, generated_header, generate_block,
  append_block, chain_add_block, is_valid_block,
}

module _ (lib : Backend) (gob : GobLaws lib) where
  put_txs_total :
      (t : lib.Trie) (txs : List Transaction) → (t' : lib.Trie) × (put_txs lib t txs ≡ ret t')
  unfolding put_txs
  put_txs_total t [] = (t, refl)
  put_txs_total t (tx ∷ txs) =
      let (enc, encodes) = gob.encode_tx_total tx in
      let (t', rest) = put_txs_total (lib.update t tx.tx_hash enc) txs in (t', ground arith)

  pub get_tx_tree_root_total :
      (txs : List Transaction) → (root : Bytes) × (get_tx_tree_root lib txs ≡ ret root)
  unfolding get_tx_tree_root
  get_tx_tree_root_total txs =
      let (t, puts) = put_txs_total lib.new_empty txs in (lib.hash t, ground arith)

  -- A sealed block has the header, the body, and a hash of 32 bytes.
  pub seal_total :
      (h : BlockHeader) (txs : List Transaction)
      → (hash : Bytes) × (seal lib h txs ≡ ret (record (new_block h txs) { hash = hash }))
        × (header_hash lib h ≡ ret hash)
  unfolding seal header_hash
  seal_total h txs =
      let (enc, encodes, _) = gob.header_round_trip h in
      (lib.sha256 enc, ground arith, ground arith)

-- The next block of a chain: the given transactions on top of the top block, with a state root that
-- opens, now and after a restart, to the accounts `m`.
pub record IsNext (lib : Backend) (bc bc' : BlockChain lib) (current : BlockHeader)
    (txs : List Transaction) (m : Accounts) (b : Block) (h : BlockHeader) : Type 0 where
  pub header_is : b.header ≡ some h
  pub number_is : h.number ≡ next_number current.number
  pub parent_is : h.parent_block_hash ≡ bc.current_block.hash
  pub body_is : b.body ≡ txs
  pub hash_is : header_hash lib h ≡ ret b.hash
  pub miner_is : h.miner ≡ 0
  pub valid : is_valid_block lib bc b ≡ ret none
  pub sound : IsSound lib bc'.trie_db h.state_root m

module _ (lib : Backend) (laws : TrieLaws lib) (dblaws : DatabaseLaws lib) (gob : GobLaws lib) where
  -- On a chain whose state root opens, now and after a restart, to the accounts `m`, and with packed
  -- transactions that have a plan and of which, where the loop of `GetUpdateStatusTrie` counts one,
  -- what it writes has changed the trie, `GenerateBlock` returns: its block is the valid next block, of
  -- the packed transactions, and its state root opens to `m` with their transfers applied. The packed
  -- transactions have left the pool; the top block and the storage are as before.
  pub generate_block_lem :
      (g : Globals) (now : Time) (bc : BlockChain lib) (ts : List Transfer) {current : BlockHeader}
      {m : Accounts}
      → bc.current_block.header ≡ some current
      → IsSound lib bc.trie_db (lib.bytes_to_hash current.state_root) m
      → plans g (shard_now lib bc) (pack_txs bc.txpool bc.chain_config.block_size).1 ≡ ret ts
      → Commits lib g bc (pack_txs bc.txpool bc.chain_config.block_size).1
      → (bc' : BlockChain lib) × (b : Block) × (h : BlockHeader) × (generate_block lib g now bc
          ≡ ret (bc', b))
        × IsNext lib bc bc' current
            (pack_txs bc.txpool bc.chain_config.block_size).1
            (apply_transfers g.init_balance m 0 ts)
            b
            h
        × Untouched lib
            (record bc { txpool = (pack_txs bc.txpool bc.chain_config.block_size).0 })
            bc'
  unfolding generate_block is_valid_block
  generate_block_lem g now bc ts {current} {m} top s planned commits =
      let packed = pack_txs bc.txpool bc.chain_config.block_size in
      let bc0 = record bc { txpool = packed.0 } in
      let (bc', root, updates, sound, untouched, _) =
        get_update_status_trie_lem lib laws dblaws g bc0 packed.1 ts top s planned commits in
      let (tx_root, roots) = get_tx_tree_root_total lib gob packed.1 in
      let h = generated_header lib now bc.current_block current packed.1 root tx_root in
      let (hash, seals, hashes) = seal_total lib gob h packed.1 in
      (
        bc',
        record (new_block h packed.1) { hash = hash },
        h,
        ground arith,
        record {
          header_is = refl;
          number_is = refl;
          parent_is = refl;
          body_is = refl;
          hash_is = hashes;
          miner_is = refl;
          valid = ground (arith, bytes_eq_refl bc.current_block.hash, bytes_eq_refl tx_root);
          sound = sound;
        },
        untouched,
      )

-- A block whose number is not the next one changes nothing.
pub chain_add_block_refuses :
    (lib : Backend) (g : Globals) (bc : BlockChain lib) (b : Block) {h current : BlockHeader}
    → b.header ≡ some h
    → bc.current_block.header ≡ some current
    → h.number ≢ next_number current.number
    → chain_add_block lib g bc b ≡ ret bc
unfolding chain_add_block
chain_add_block_refuses lib g bc b {h} {current} at_h at_current ne =
    ground (arith, ==_iff h.number (next_number current.number))

-- The chain's top block is stored as the newest, and its state root opens to `m`.
pub record IsGood (lib : Backend) (bc : BlockChain lib) (current : BlockHeader) (m : Accounts)
    : Type 0 where
  pub top : bc.current_block.header ≡ some current
  pub storage_open : IsOpen lib bc.storage
  pub newest_is : get_newest_block_hash lib bc.storage ≡ some bc.current_block.hash
  pub stored : get_block lib bc.storage bc.current_block.hash ≡ ret (some bc.current_block)
  pub sound : IsSound lib bc.trie_db (lib.bytes_to_hash current.state_root) m

module _ (lib : Backend) where
  -- the block without transactions under this header, of the root of no transactions, fits into the
  -- database
  abbrev pub EmptyFits : (Bytes → BlockHeader) → Type 0
  EmptyFits header =
      (tx_root : Bytes) (b : Block)
      → get_tx_tree_root lib [] ≡ ret tx_root
      → seal lib (header tx_root) [] ≡ ret b
      → Fits lib b (header tx_root)

  -- the block that `GenerateBlock` makes now fits into the database
  abbrev pub NextFits : Globals → Time → BlockChain lib → Type 0
  NextFits g now bc =
      (bc' : BlockChain lib) (b : Block) (h : BlockHeader)
      → generate_block lib g now bc ≡ ret (bc', b)
      → b.header ≡ some h
      → Fits lib b h

  -- One round of a node that mines: `GenerateBlock`, then `AddBlock`.
  unfoldable pub mine : Globals → Time → BlockChain lib → Outcome (BlockChain lib)
  mine g now bc = do made ← generate_block lib g now bc; chain_add_block lib g made.0 made.1

module _ (lib : Backend) (laws : TrieLaws lib) (dblaws : DatabaseLaws lib) (bolt : BoltLaws lib)
    (gob : GobLaws lib) where
  -- `AddBlock` of the next block, on the node that mined it: the block is on top and stored, the chain
  -- is good again, with the accounts of the block, and every other stored block is as before.
  chain_add_block_own :
      (g : Globals) (bc bc' : BlockChain lib) (b : Block) (h : BlockHeader) {current : BlockHeader}
      {txs : List Transaction} {m m' : Accounts}
      → IsGood lib bc current m
      → bc'.current_block ≡ bc.current_block
      → bc'.storage ≡ bc.storage
      → bc'.chain_config ≡ bc.chain_config
      → IsNext lib bc bc' current txs m' b h
      → bc.chain_config.node_id ≡ 0
      → Fits lib b h
      → (bc'' : BlockChain lib) × (chain_add_block lib g bc' b ≡ ret bc'')
        × (bc''.current_block ≡ b)
        × (bc''.chain_config ≡ bc.chain_config)
        × IsGood lib bc'' h m'
        × ((k : Bytes) → b.hash ≢ k → get_block lib bc''.storage k ≡ get_block lib bc.storage k)
  unfolding chain_add_block append_block
  chain_add_block_own g bc bc' b h {current} {txs} {m} {m'} good same_block same_storage same_config
        next own fits =
      let (storage, adds, a) = add_block_lem lib bolt gob bc.storage b h good.storage_open fits in
      (
        record bc' { current_block = b; storage = storage },
        ground (
          arith,
          next.header_is,
          next.number_is,
          next.miner_is,
          good.top,
          ap (λ (c : ChainConfig). c.node_id) same_config,
        ),
        refl,
        same_config,
        record {
          top = next.header_is;
          storage_open = a.still_open;
          newest_is = a.newest_is;
          stored = a.block_is;
          sound = subst (λ r. IsSound lib bc'.trie_db r m') (sym next.sound.is_hash) next.sound;
        },
        a.other_blocks,
      )

  -- On a good chain of node 0, whose packed transactions have a plan and change the trie if the
  -- loop over them counts one, and for which the block that `GenerateBlock` makes fits into the
  -- database, mining returns a good chain: one block higher, linked to the old top block by its
  -- parent hash, with the packed transactions as its body, the accounts that their transfers give,
  -- and the same configuration; every block stored before is found as before unless it has the new
  -- block's hash.
  pub mine_lem :
      (g : Globals) (now : Time) (bc : BlockChain lib) (ts : List Transfer) {current : BlockHeader}
      {m : Accounts}
      → IsGood lib bc current m
      → bc.chain_config.node_id ≡ 0
      → plans g (shard_now lib bc) (pack_txs bc.txpool bc.chain_config.block_size).1 ≡ ret ts
      → Commits lib g bc (pack_txs bc.txpool bc.chain_config.block_size).1
      → NextFits lib g now bc
      → (bc' : BlockChain lib) × (h : BlockHeader) × (mine lib g now bc ≡ ret bc')
        × IsGood lib bc' h (apply_transfers g.init_balance m 0 ts)
        × (h.number ≡ next_number current.number)
        × (h.parent_block_hash ≡ bc.current_block.hash)
        × (bc'.current_block.body ≡ (pack_txs bc.txpool bc.chain_config.block_size).1)
        × (bc'.chain_config ≡ bc.chain_config)
        × ((k : Bytes)
            → bc'.current_block.hash ≢ k
            → get_block lib bc'.storage k ≡ get_block lib bc.storage k)
  unfolding mine
  mine_lem g now bc ts {current} {m} good own planned commits fits =
      let (bc1, b, h, generates, next, u) =
        generate_block_lem lib laws dblaws gob g now bc ts good.top good.sound planned commits in
      let (bc2, adds, on_top, config, good2, others) =
        chain_add_block_own g bc bc1 b h good u.block u.storage u.config next own
          (fits bc1 b h generates next.header_is) in
      (
        bc2,
        h,
        ground arith,
        good2,
        next.number_is,
        next.parent_is,
        ap (λ (k : Block). k.body) on_top ∙ next.body_is,
        config,
        λ k ne. others k (λ e. ne (ap (λ (x : Block). x.hash) on_top ∙ e)),
      )
