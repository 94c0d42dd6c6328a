-- ===== src/Chain/Blocks/Restart.antt =====
-- `NewBlockChain`: a new chain starts at its genesis block, and a restart finds the chain that an
-- earlier run left.
use sharded_blockchain_dashb.Base.{◌≡◌, ◌∙◌, refl, none, [], arith}
use sharded_blockchain_dashb.Base.Keyed.{Bytes}
use mathlib.Core.Path.{fun_ext}
use sharded_blockchain_dashb.Base.Outcome.{ret}
use sharded_blockchain_dashb.Core.{BlockHeader, ChainConfig, new_block}
use sharded_blockchain_dashb.Backend.{Backend, DatabaseLaws, BoltLaws, GobLaws}
use sharded_blockchain_dashb.Storage.{get_block, get_newest_block_hash}
use sharded_blockchain_dashb.Storage.Laws.{add_block_lem, new_storage_lem}
use sharded_blockchain_dashb.Chain.{BlockChain}
use sharded_blockchain_dashb.Chain.Ledger.{Accounts}
use sharded_blockchain_dashb.Chain.Refines.{view}
use sharded_blockchain_dashb.Chain.Commit.{IsSound}
use sharded_blockchain_dashb.Chain.Blocks.{
  genesis_header, new_genisis_block, add_genisis_block, bare_chain, new_block_chain,
}
use sharded_blockchain_dashb.Chain.Blocks.Generate.{
  IsGood, EmptyFits, get_tx_tree_root_total, seal_total,
}

abbrev pub no_accounts : Accounts
no_accounts a = none

module _ (lib : Backend) (db db' : lib.Bolt)
    (same : (b k : Bytes) → lib.read db' b k ≡ lib.read db b k) where
  pub get_block-reads : (k : Bytes) → get_block lib db' k ≡ get_block lib db k
  unfolding get_block
  get_block-reads k = rw (same, get_block)

  pub get_newest-reads : get_newest_block_hash lib db' ≡ get_newest_block_hash lib db
  unfolding get_newest_block_hash
  get_newest-reads = rw (same, get_newest_block_hash)

module _ (lib : Backend) (dblaws : DatabaseLaws lib) where
  empty-IsSound :
      (db : lib.TrieDb) → IsSound lib db (lib.bytes_to_hash (lib.hash lib.new_empty)) no_accounts
  empty-IsSound db = record {
    trie = lib.new_empty;
    holds = record {
      running = dblaws.open_empty db;
      restarted = dblaws.open_empty (lib.reopen db);
    };
    readable = λ a b e. ground (arith, dblaws.get-new_empty a, e);
    shows = fun_ext λ a. rw (view, dblaws.get-new_empty a) refl;
    is_hash = dblaws.bytes_to_hash_idem (lib.hash lib.new_empty);
  }

  reopen-IsSound :
      (db : lib.TrieDb) (root : Bytes) (m : Accounts)
      → IsSound lib db root m
      → IsSound lib (lib.reopen db) root m
  reopen-IsSound db root m s = record {
    trie = s.trie;
    holds = record {
      running = s.holds.restarted;
      restarted = rw (dblaws.reopen_idem db) s.holds.restarted;
    };
    readable = s.readable;
    shows = s.shows;
    is_hash = s.is_hash;
  }

module _ (lib : Backend) (dblaws : DatabaseLaws lib) (bolt : BoltLaws lib) (gob : GobLaws lib) where
  -- On a database that holds no newest block, and into which the genesis block fits, `NewBlockChain`
  -- returns a good chain of this configuration with no accounts, of one block: number 0, no parent, no
  -- transactions, stored as the newest.
  pub new_block_chain_genesis :
      EmptyFits lib (genesis_header lib)
      → (cc : ChainConfig) (disk : lib.TrieDb) (file : lib.Bolt)
      → get_newest_block_hash lib file ≡ none
      → (bc : BlockChain lib) × (h : BlockHeader) × (new_block_chain lib cc disk file ≡ ret bc)
        × (bc.chain_config ≡ cc)
        × (h.number ≡ 0)
        × (h.parent_block_hash ≡ [])
        × (bc.current_block.body ≡ [])
        × IsGood lib bc h no_accounts
  unfolding new_block_chain new_genisis_block add_genisis_block
  new_block_chain_genesis fits cc disk file fresh =
      let (storage, opens, is_open, same) = new_storage_lem lib bolt gob file in
      let (tx_root, roots) = get_tx_tree_root_total lib gob [] in
      let h = genesis_header lib tx_root in
      let (hash, seals, hashes) = seal_total lib gob h [] in
      let b = record (new_block h []) { hash = hash } in
      let (storage', adds, a) =
        add_block_lem lib bolt gob storage b h is_open (fits tx_root b roots seals) in
      (
        record (bare_chain lib cc (lib.reopen disk) storage') { current_block = b },
        h,
        ground (arith, get_newest-reads lib file storage same, fresh, a.newest_is, a.block_is),
        refl,
        refl,
        refl,
        refl,
        record {
          top = refl;
          storage_open = a.still_open;
          newest_is = a.newest_is;
          stored = a.block_is;
          sound = empty-IsSound lib dblaws (lib.reopen disk);
        },
      )

  -- After a restart on the disk and the database of a good chain, `NewBlockChain` returns a good chain of
  -- the given configuration, with the same top block and accounts; every stored block is found as before.
  pub new_block_chain_restart :
      (cc : ChainConfig) (bc : BlockChain lib) {current : BlockHeader} {m : Accounts}
      → IsGood lib bc current m
      → (bc' : BlockChain lib) × (new_block_chain lib cc bc.trie_db bc.storage ≡ ret bc')
        × (bc'.chain_config ≡ cc)
        × (bc'.current_block ≡ bc.current_block)
        × ((k : Bytes) → get_block lib bc'.storage k ≡ get_block lib bc.storage k)
        × IsGood lib bc' current m
  unfolding new_block_chain
  new_block_chain_restart cc bc {current} {m} good =
      let (storage, opens, is_open, same) = new_storage_lem lib bolt gob bc.storage in
      let block_reads = get_block-reads lib bc.storage storage same in
      let newest_reads = get_newest-reads lib bc.storage storage same in
      (
        record (bare_chain lib cc (lib.reopen bc.trie_db) storage) {
          current_block = bc.current_block;
        },
        ground (
          arith,
          newest_reads,
          block_reads bc.current_block.hash,
          good.newest_is,
          good.stored,
          good.top,
          good.sound.holds.restarted.opens,
        ),
        refl,
        refl,
        block_reads,
        record {
          top = good.top;
          storage_open = is_open;
          newest_is = newest_reads ∙ good.newest_is;
          stored = block_reads bc.current_block.hash ∙ good.stored;
          sound =
              reopen-IsSound lib dblaws bc.trie_db (lib.bytes_to_hash current.state_root) m
                good.sound;
        },
      )
