-- ===== src/Chain/Blocks.antt =====
-- Blocks of chain/blockchain.go: `GetTxTreeRoot`, `GenerateBlock`, `NewGenisisBlock`,
-- `AddGenisisBlock`, `AddBlock`, `NewBlockChain` and `IsValidBlock`.
pub mod Generate
pub mod Restart
use sharded_blockchain_dashb.Base.{
  ℕ, ◌+◌, ◌%◌, ◌^◌, false, not, Option, none, some, List, [], ◌∷◌, ◌==◌, if◌then◌else◌, length,
}
use sharded_blockchain_dashb.Base.Keyed.{Bytes, bytes_eq}
use sharded_blockchain_dashb.Base.Outcome.{Outcome, ret, ◌>>=◌, deref}
use sharded_blockchain_dashb.Core.{
  Transaction, Time, Block, BlockHeader, ChainConfig, new_block, zero_block,
}
use sharded_blockchain_dashb.Pool.{pack_txs, new_tx_pool, add_txs2pool}
use sharded_blockchain_dashb.Codec.{encode_transaction, encode_bh}
use sharded_blockchain_dashb.Backend.{Backend}
use sharded_blockchain_dashb.Storage.{new_storage, add_block, get_block, get_newest_block_hash}
use sharded_blockchain_dashb.Chain.{Globals, BlockChain}
use sharded_blockchain_dashb.Chain.Status.{get_update_status_trie}

-- a `uint64` one higher
abbrev pub next_number : ℕ → ℕ
next_number n = (n + 1) % 2 ^ 64

-- what `IsValidBlock` complains of
pub data BlockError : Type 0 where
  wrong_parent wrong_tx_root : BlockError

module _ (lib : Backend) where
  unfoldable pub put_txs : lib.Trie → List Transaction → Outcome lib.Trie
  put_txs t [] = ret t
  put_txs t (tx ∷ txs) = do
    enc ← encode_transaction lib tx
    put_txs (lib.update t tx.tx_hash enc) txs

  unfoldable pub get_tx_tree_root : List Transaction → Outcome Bytes
  get_tx_tree_root txs = do t ← put_txs lib.new_empty txs; ret (lib.hash t)

  -- `BlockHeader.Hash`
  unfoldable pub header_hash : BlockHeader → Outcome Bytes
  header_hash bh = do enc ← encode_bh lib bh; ret (lib.sha256 enc)

  -- the block of a header: `NewBlock`, then `b.Hash = b.Header.Hash()`
  unfoldable pub seal : BlockHeader → List Transaction → Outcome Block
  seal bh txs = do hash ← header_hash bh; ret (record (new_block bh txs) { hash = hash })

  -- the header of `GenerateBlock`, complete
  abbrev pub generated_header :
      Time → Block → BlockHeader → List Transaction → Bytes → Bytes → BlockHeader
  generated_header now parent parent_header txs rt tx_root = record {
    parent_block_hash = parent.hash;
    state_root = rt;
    tx_root = tx_root;
    number = next_number parent_header.number;
    time = now;
    miner = 0;
    all_state_root = [];
    tx_num = length txs;
  }

  unfoldable pub generate_block : Globals → Time → BlockChain lib → Outcome (BlockChain lib × Block)
  generate_block g now bc =
      let packed = pack_txs bc.txpool bc.chain_config.block_size in
      do
        parent ← deref bc.current_block.header
        updated ← get_update_status_trie lib g (record bc { txpool = packed.0 }) packed.1
        tx_root ← get_tx_tree_root packed.1
        b ← seal (generated_header now bc.current_block parent packed.1 updated.1 tx_root) packed.1
        ret (updated.0, b)

  abbrev pub genesis_header : Bytes → BlockHeader
  genesis_header tx_root = record {
    parent_block_hash = [];
    state_root = lib.hash lib.new_empty;
    tx_root = tx_root;
    number = 0;
    time = 0;
    miner = 0;
    all_state_root = [];
    tx_num = 0;
  }

  -- it also puts a new trie database over the disk
  unfoldable pub new_genisis_block : BlockChain lib → Outcome (BlockChain lib × Block)
  new_genisis_block bc = do
    tx_root ← get_tx_tree_root []
    b ← seal (genesis_header tx_root) []
    ret (record bc { trie_db = lib.reopen bc.trie_db }, b)

  unfoldable pub add_genisis_block : BlockChain lib → Block → Outcome (BlockChain lib)
  add_genisis_block bc gb = do
    storage ← add_block lib bc.storage gb
    newest ← deref (get_newest_block_hash lib storage)
    found ← get_block lib storage newest
    curb ← deref found
    ret (record bc { storage = storage; current_block = curb })

  -- behind the test of the number
  unfoldable pub append_block :
      Globals → BlockChain lib → Block → BlockHeader → Outcome (BlockChain lib)
  append_block g bc b header = do
    bc1 ←
        if header.miner == bc.chain_config.node_id
        then ret bc
        else (do updated ← get_update_status_trie lib g bc b.body; ret updated.0)
    storage ← add_block lib bc1.storage b
    ret (record bc1 { current_block = b; storage = storage })

  unfoldable pub chain_add_block : Globals → BlockChain lib → Block → Outcome (BlockChain lib)
  chain_add_block g bc b = do
    header ← deref b.header
    current ← deref bc.current_block.header
    if header.number == next_number current.number then append_block g bc b header else ret bc

  unfoldable pub send_tx2pool : (ℕ → Time) → BlockChain lib → List Transaction → BlockChain lib
  send_tx2pool clock bc txs = record bc { txpool = add_txs2pool clock bc.txpool txs }

  -- the literal of `NewBlockChain`; its top block is set before it is read
  abbrev pub bare_chain : ChainConfig → lib.TrieDb → lib.Bolt → BlockChain lib
  bare_chain cc db storage = record {
    trie_db = db;
    chain_config = cc;
    current_block = zero_block;
    storage = storage;
    txpool = new_tx_pool;
    partition_map = [];
    all_state_map_tx = [];
    flag = false;
  }

  -- `db` is the trie database over the disk as an earlier run left it, `file` the bolt database
  unfoldable pub new_block_chain : ChainConfig → lib.TrieDb → lib.Bolt → Outcome (BlockChain lib)
  new_block_chain cc db file = do
    storage ← new_storage lib file
    elim (get_newest_block_hash lib storage) [
      | none ↦ (do
        genesis ← new_genisis_block (bare_chain cc db storage)
        add_genisis_block genesis.0 genesis.1)
      | some newest ↦ (do
        found ← get_block lib storage newest
        curb ← deref found
        header ← deref curb.header
        opened ← deref (lib.open_trie (lib.reopen db) (lib.bytes_to_hash header.state_root))
        ret (record (bare_chain cc (lib.reopen db) storage) { current_block = curb }))
    ]

  -- `none` is a valid block
  unfoldable pub is_valid_block : BlockChain lib → Block → Outcome (Option BlockError)
  is_valid_block bc b = do
    header ← deref b.header
    if not (bytes_eq header.parent_block_hash bc.current_block.hash)
        then ret (some wrong_parent)
        else (do
          tx_root ← get_tx_tree_root b.body
          if not (bytes_eq tx_root header.tx_root) then ret (some wrong_tx_root) else ret none)
