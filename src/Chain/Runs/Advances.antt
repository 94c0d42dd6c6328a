-- ===== src/Chain/Runs/Advances.antt =====
-- A block on top of a good chain: mined here, or of another miner.
use mathlib.Core.Path.{subst}
use sharded_blockchain_dashb.Base.{
  ◌≡◌, ◌≢◌, refl, sym, ap, ◌∙◌, none, some, List, arith, Bool-cases, inl, inr,
}
use sharded_blockchain_dashb.Base.Keyed.{Bytes, bytes_eq, bytes_eq_iff}
use sharded_blockchain_dashb.Base.Outcome.{ret}
use sharded_blockchain_dashb.Core.{Transaction, Time, Block, BlockHeader}
use sharded_blockchain_dashb.Pool.{pack_txs}
use sharded_blockchain_dashb.Backend.{Backend, TrieLaws, DatabaseLaws, BoltLaws, GobLaws}
use sharded_blockchain_dashb.Storage.{get_block}
use sharded_blockchain_dashb.Storage.Laws.{add_block_lem}
use sharded_blockchain_dashb.Chain.{Globals, BlockChain}
use sharded_blockchain_dashb.Chain.Ledger.{Accounts, apply_transfers}
use sharded_blockchain_dashb.Chain.Commit.{IsSound, get_update_status_trie_lem}
use sharded_blockchain_dashb.Chain.Blocks.{
  next_number, append_block, chain_add_block, is_valid_block,
}
use sharded_blockchain_dashb.Chain.Blocks.Generate.{IsGood, NextFits, mine, mine_lem}
use sharded_blockchain_dashb.Chain.Runs.{Planned, IsForeign}

-- `bc'` is `bc` with one more block, of the transactions `txs`, and is good, with the accounts `m'`.
pub record Advances (lib : Backend) (bc bc' : BlockChain lib) (current : BlockHeader)
    (txs : List Transaction) (m' : Accounts) : Type 0 where
  pub header : BlockHeader
  pub good : IsGood lib bc' header m'
  pub number_is : header.number ≡ next_number current.number
  pub parent_is : header.parent_block_hash ≡ bc.current_block.hash
  pub body_is : bc'.current_block.body ≡ txs
  pub config_is : bc'.chain_config ≡ bc.chain_config
  pub others :
      (k : Bytes)
      → bc'.current_block.hash ≢ k
      → get_block lib bc'.storage k ≡ get_block lib bc.storage k

module _ (lib : Backend) (gob : GobLaws lib) where
  is_valid_block-parent :
      (bc : BlockChain lib) (b : Block) (h : BlockHeader)
      → b.header ≡ some h
      → is_valid_block lib bc b ≡ ret none
      → h.parent_block_hash ≡ bc.current_block.hash
  unfolding is_valid_block
  is_valid_block-parent bc b h header_is valid =
      elim (Bool-cases (bytes_eq h.parent_block_hash bc.current_block.hash)) [
        | inl same ↦ (bytes_eq_iff h.parent_block_hash bc.current_block.hash).0 same
        | inr other ↦ ground (arith, header_is, valid, other)
      ]

module _ (lib : Backend) (g : Globals) (laws : TrieLaws lib) (dblaws : DatabaseLaws lib)
    (bolt : BoltLaws lib) (gob : GobLaws lib) where
  pub mine-Advances :
      (now : Time) (bc : BlockChain lib) {current : BlockHeader} {m : Accounts}
      → IsGood lib bc current m
      → bc.chain_config.node_id ≡ 0
      → (p : Planned lib g bc (pack_txs bc.txpool bc.chain_config.block_size).1)
      → NextFits lib g now bc
      → (bc' : BlockChain lib) × (mine lib g now bc ≡ ret bc')
        × Advances lib bc bc' current
            (pack_txs bc.txpool bc.chain_config.block_size).1
            (apply_transfers g.init_balance m 0 p.transfers)
  mine-Advances now bc {current} {m} good own p fits =
      let (bc', h, mines, good', number_is, parent_is, body_is, config_is, others) =
        mine_lem lib laws dblaws bolt gob g now bc p.transfers good own p.planned p.commits fits in
      (
        bc',
        mines,
        record {
          header = h;
          good = good';
          number_is = number_is;
          parent_is = parent_is;
          body_is = body_is;
          config_is = config_is;
          others = others;
        },
      )

  -- `AddBlock` of a valid block of another miner, with the state root that this node computes, puts it
  -- on top: the chain is good, with the accounts that the block's transfers give.
  pub chain_add_block-Advances :
      (bc : BlockChain lib) (b : Block) {h current : BlockHeader} {m : Accounts}
      → IsGood lib bc current m
      → IsForeign lib g bc b h current
      → (p : Planned lib g bc b.body)
      → (bc' : BlockChain lib) × (chain_add_block lib g bc b ≡ ret bc')
        × (bc'.current_block ≡ b)
        × Advances lib bc bc' current b.body (apply_transfers g.init_balance m 0 p.transfers)
  unfolding chain_add_block append_block
  chain_add_block-Advances bc b {h} {current} {m} good f p =
      let (bc1, root, updates, sound, u, _) =
        get_update_status_trie_lem lib laws dblaws g bc b.body p.transfers good.top good.sound
          p.planned p.commits in
      let is_root = f.agrees bc1 root updates in
      let (storage, adds, a) = add_block_lem lib bolt gob bc.storage b h good.storage_open f.fits in
      (
        record bc1 { current_block = b; storage = storage },
        ground (arith, f.header_is, f.number_is, f.foreign, good.top, updates, u.storage, adds),
        refl,
        record {
          header = h;
          good = record {
            top = f.header_is;
            storage_open = a.still_open;
            newest_is = a.newest_is;
            stored = a.block_is;
            sound =
                subst
                  (λ r. IsSound lib bc1.trie_db r (apply_transfers g.init_balance m 0 p.transfers))
                  (sym sound.is_hash ∙ ap lib.bytes_to_hash (sym is_root)) sound;
          };
          number_is = f.number_is;
          parent_is = is_valid_block-parent lib gob bc b h f.header_is f.valid;
          body_is = refl;
          config_is = u.config;
          others = a.other_blocks;
        },
      )
