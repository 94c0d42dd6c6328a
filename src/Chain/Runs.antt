-- ===== src/Chain/Runs.antt =====
-- The life of a node: a new chain, submissions, mined blocks, blocks of other miners, restarts, in any
-- order. Every block of it fits into the database. `AddAccounts` and `AddAccount` are not among the
-- steps.
pub mod Advances
pub mod Valid
pub mod Debts
pub mod Queries
use sharded_blockchain_dashb.Base.{ℕ, ◌≡◌, ◌≢◌, none, some, List, [], ◌∷◌, All}
use sharded_blockchain_dashb.Base.Keyed.{Bytes}
use sharded_blockchain_dashb.Base.Outcome.{Outcome, ret, ◌>>=◌}
use sharded_blockchain_dashb.Core.{Transaction, Time, Block, BlockHeader, ChainConfig}
use sharded_blockchain_dashb.Pool.{pack_txs}
use sharded_blockchain_dashb.Backend.{Backend}
use sharded_blockchain_dashb.Storage.{get_block, get_newest_block_hash}
use sharded_blockchain_dashb.Chain.{Globals, BlockChain}
use sharded_blockchain_dashb.Chain.Status.{Shard, get_update_status_trie}
use sharded_blockchain_dashb.Chain.Ledger.{Accounts, Transfer, plans, apply_transfers}
use sharded_blockchain_dashb.Chain.Commit.{shard_now, Commits}
use sharded_blockchain_dashb.Chain.Blocks.{
  next_number, header_hash, genesis_header, chain_add_block, new_block_chain, is_valid_block,
  send_tx2pool,
}
use sharded_blockchain_dashb.Storage.Laws.{Fits}
use sharded_blockchain_dashb.Chain.Blocks.Generate.{mine, EmptyFits, NextFits}
use sharded_blockchain_dashb.Chain.Blocks.Restart.{no_accounts}

-- the accounts after the blocks, the newest first, over those of the oldest block
unfoldable pub replay : Globals → Shard → List Block → Outcome Accounts
replay g sh [] = ret no_accounts
replay g sh (b ∷ []) = ret no_accounts
replay g sh (b ∷ p ∷ bs) = do
  m ← replay g sh (p ∷ bs)
  ts ← plans g sh b.body
  ret (apply_transfers g.init_balance m 0 ts)

-- the hash is new among the blocks, as SHA-256 has no collisions
abbrev pub IsFresh : Bytes → List Block → Type 0
IsFresh hash bs = All (λ (k : Block). hash ≢ k.hash) bs

module _ (lib : Backend) (g : Globals) where
  -- the transactions have a plan, and what they write can be committed: the trie is changed, without
  -- which `Commit` gives no nodes and `GetUpdateStatusTrie` panics
  pub record Planned (bc : BlockChain lib) (txs : List Transaction) : Type 0 where
    pub transfers : List Transfer
    pub planned : plans g (shard_now lib bc) txs ≡ ret transfers
    pub commits : Commits lib g bc txs

  -- a valid block of another miner, whose state root is the one that this node computes
  pub record IsForeign (bc : BlockChain lib) (b : Block) (h current : BlockHeader) : Type 0 where
    pub header_is : b.header ≡ some h
    pub hash_is : header_hash lib h ≡ ret b.hash
    pub top : bc.current_block.header ≡ some current
    pub number_is : h.number ≡ next_number current.number
    pub foreign : h.miner ≢ bc.chain_config.node_id
    pub valid : is_valid_block lib bc b ≡ ret none
    pub fits : Fits lib b h
    pub agrees :
        (bc' : BlockChain lib) (root : Bytes)
        → get_update_status_trie lib g bc b.body ≡ ret (bc', root)
        → h.state_root ≡ root

  -- a node of this configuration, with the blocks that it appended, the newest first
  pub data Run (cc : ChainConfig) : BlockChain lib → List Block → Type 0 where
    created :
        {bc : BlockChain lib} (disk : lib.TrieDb) (file : lib.Bolt)
        → get_newest_block_hash lib file ≡ none
        → EmptyFits lib (genesis_header lib)
        → new_block_chain lib cc disk file ≡ ret bc
        → Run cc bc (bc.current_block ∷ [])
    sent :
        {bc : BlockChain lib} {bs : List Block}
        → Run cc bc bs
        → (clock : ℕ → Time) (txs : List Transaction) → Run cc (send_tx2pool lib clock bc txs) bs
    mined :
        {bc bc' : BlockChain lib} {bs : List Block}
        → Run cc bc bs
        → (now : Time) → Planned bc (pack_txs bc.txpool bc.chain_config.block_size).1
        → NextFits lib g now bc
        → mine lib g now bc ≡ ret bc'
        → IsFresh bc'.current_block.hash bs
        → Run cc bc' (bc'.current_block ∷ bs)
    received :
        {bc bc' : BlockChain lib} {bs : List Block} {b : Block} {h current : BlockHeader}
        → Run cc bc bs
        → IsForeign bc b h current
        → Planned bc b.body
        → chain_add_block lib g bc b ≡ ret bc'
        → IsFresh b.hash bs
        → Run cc bc' (b ∷ bs)
    restarted :
        {bc bc' : BlockChain lib} {bs : List Block}
        → Run cc bc bs
        → new_block_chain lib cc bc.trie_db bc.storage ≡ ret bc'
        → Run cc bc' bs

  -- Every block is stored under its hash, names the block before it as its parent, and is one higher.
  abbrev pub Links : Block → List Block → Type 0
  Links b [] = Unit
  Links b (p ∷ bs) =
      (h : BlockHeader) × (before : BlockHeader) × (b.header ≡ some h)
      × (p.header ≡ some before)
      × (h.parent_block_hash ≡ p.hash)
      × (h.number ≡ next_number before.number)

  abbrev pub IsLinked : lib.Bolt → List Block → Type 0
  IsLinked db [] = Unit
  IsLinked db (b ∷ bs) = (get_block lib db b.hash ≡ ret (some b)) × Links b bs × IsLinked db bs
