-- ===== src/Chain/Accounts/Lost.antt =====
-- `AddAccounts` flushes the old state root, so the accounts that it wrote do not outlive the process.
use sharded_blockchain_dashb.Base.{◌≡◌, ◌≢◌, refl, ap, ◌∙◌, none, some, List, [], ◌∷◌, arith}
use sharded_blockchain_dashb.Base.Keyed.{Bytes}
use sharded_blockchain_dashb.Base.Outcome.{ret, panic}
use sharded_blockchain_dashb.Core.{Address, AccountState, BlockHeader, ChainConfig, new_block}
use sharded_blockchain_dashb.Backend.{Backend, DatabaseLaws, BoltLaws, GobLaws, OpensAs}
use sharded_blockchain_dashb.Storage.Laws.{IsOpen, add_block_lem, new_storage_lem}
use sharded_blockchain_dashb.Chain.{Globals, BlockChain}
use sharded_blockchain_dashb.Chain.Status.{current_root}
use sharded_blockchain_dashb.Chain.Blocks.{new_block_chain}
use sharded_blockchain_dashb.Chain.Blocks.Generate.{EmptyFits, get_tx_tree_root_total, seal_total}
use sharded_blockchain_dashb.Chain.Blocks.Restart.{get_block-reads, get_newest-reads}
use sharded_blockchain_dashb.Chain.Accounts.{
  write_accounts, write_all, commit_accounts, add_accounts, accounts_header,
}

module _ (lib : Backend) (dblaws : DatabaseLaws lib) (bolt : BoltLaws lib) (gob : GobLaws lib) where
  -- The commit of `AddAccounts`: the new root opens in the running node, and what a restart finds on
  -- the disk is what it would have found before.
  pub commit_accounts_lem :
      (bc : BlockChain lib) (rt : Bytes) (t st : lib.Trie)
      → lib.open_trie bc.trie_db rt ≡ some t
      → lib.open_trie (lib.reopen bc.trie_db) rt ≡ some t
      → lib.IsDirty st
      → (lib.commit st).0 ≢ rt
      → (db' : lib.TrieDb) × (commit_accounts lib bc rt st ≡ ret (db', (lib.commit st).0))
        × (lib.reopen db' ≡ lib.reopen bc.trie_db)
        × OpensAs lib db' (lib.commit st).0 st
  unfolding commit_accounts
  commit_accounts_lem bc rt t st here there dirty new =
      let (staged, stages, o) = dblaws.stage_lem bc.trie_db st dirty in
      let kept = dblaws.stage_other bc.trie_db st rt stages new in
      let same = dblaws.reopen-stage bc.trie_db st stages in
      let (flushed, flushes, disk, opens) =
        dblaws.flush_again staged rt t (kept ∙ here) (ap (λ d. lib.open_trie d rt) same ∙ there) in
      (
        flushed,
        ground arith,
        disk ∙ same,
        record { opened = o.opened; opens = opens (lib.commit st).0 ∙ o.opens; holds = o.holds },
      )

  -- On a chain with an open storage, whose state root opens, now and from the disk, to one trie,
  -- let `AddAccounts`, for at least one address, leave a changed trie with another root, which the
  -- disk does not hold, and let the block that it makes fit into the database. It returns, with the
  -- new root as the top block's state root, which opens in the running node; and `NewBlockChain`,
  -- on the disk and the database that it left, panics.
  pub add_accounts_lost :
      (g : Globals) (cc : ChainConfig) (bc : BlockChain lib) (addr : Address) (ac : List Address)
      (states : List AccountState) (t st : lib.Trie) {current : BlockHeader}
      → bc.current_block.header ≡ some current
      → IsOpen lib bc.storage
      → lib.open_trie bc.trie_db (lib.bytes_to_hash current.state_root) ≡ some t
      → lib.open_trie (lib.reopen bc.trie_db) (lib.bytes_to_hash current.state_root) ≡ some t
      → write_accounts lib g bc t (addr ∷ ac) states ≡ ret st
      → lib.IsDirty st
      → (lib.commit st).0 ≢ lib.bytes_to_hash current.state_root
      → lib.open_trie (lib.reopen bc.trie_db) (lib.commit st).0 ≡ none
      → EmptyFits lib (accounts_header lib bc.current_block current (lib.commit st).0)
      → (bc' : BlockChain lib) × (h : BlockHeader) × (add_accounts lib g bc (addr ∷ ac) states
          ≡ ret bc')
        × (bc'.current_block.header ≡ some h)
        × OpensAs lib bc'.trie_db h.state_root st
        × (new_block_chain lib cc bc'.trie_db bc'.storage ≡ panic)
  unfolding add_accounts write_all current_root new_block_chain
  add_accounts_lost g cc bc addr ac states t st {current} top is_open here there writes dirty new
        absent fits =
      let (db', commits, disk, o) =
        commit_accounts_lem bc (lib.bytes_to_hash current.state_root) t st here there dirty new in
      let (tx_root, roots) = get_tx_tree_root_total lib gob [] in
      let h = accounts_header lib bc.current_block current (lib.commit st).0 tx_root in
      let (hash, seals, hashes) = seal_total lib gob h [] in
      let b = record (new_block h []) { hash = hash } in
      let (storage, adds, a) =
        add_block_lem lib bolt gob bc.storage b h is_open (fits tx_root b roots seals) in
      let (storage', opens, _, same) = new_storage_lem lib bolt gob storage in
      let missing = ap (λ d. lib.open_trie d (lib.commit st).0) disk ∙ absent in
      (
        record bc { trie_db = db'; current_block = b; storage = storage },
        h,
        ground arith,
        refl,
        o,
        ground (
          arith,
          get_newest-reads lib storage storage' same,
          get_block-reads lib storage storage' same hash,
          a.newest_is,
          a.block_is,
          dblaws.bytes_to_hash-commit st,
        ),
      )
