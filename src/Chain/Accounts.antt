-- ===== src/Chain/Accounts.antt =====
-- `AddAccounts`, `AddAccount` and `FetchAccounts` of chain/blockchain.go.
pub mod Fetch
pub mod Lost
pub mod Pay
use sharded_blockchain_dashb.Base.{none, some, List, [], ◌∷◌, ◌==◌, if◌then◌else◌}
use sharded_blockchain_dashb.Base.Keyed.{Bytes}
use sharded_blockchain_dashb.Base.Int.{◌+ℤ◌}
use sharded_blockchain_dashb.Base.Outcome.{Outcome, ret, panic, ◌>>=◌, deref}
use sharded_blockchain_dashb.Core.{Address, AccountState, fresh_account, Block, BlockHeader}
use sharded_blockchain_dashb.Core.Account.{deposit}
use sharded_blockchain_dashb.Pool
use sharded_blockchain_dashb.Codec.{decode_as}
use sharded_blockchain_dashb.Backend.{Backend}
use sharded_blockchain_dashb.Storage
use sharded_blockchain_dashb.Chain.{Globals, BlockChain}
use sharded_blockchain_dashb.Chain.Partition.{get_partition_map}
use sharded_blockchain_dashb.Chain.Status.{load_account, store_account, current_root}
use sharded_blockchain_dashb.Chain.Blocks.{next_number, get_tx_tree_root, seal, chain_add_block}

-- `as[i]` and the accounts behind it; out of range panics
abbrev pub next_account : List AccountState → Outcome AccountState
next_account [] = panic
next_account (s ∷ _) = ret s

abbrev pub rest_accounts : List AccountState → List AccountState
rest_accounts [] = []
rest_accounts (_ ∷ ss) = ss

module _ (lib : Backend) where
  -- the loop of `AddAccounts`: the accounts of this shard are written, whatever the trie held
  unfoldable pub write_accounts :
      Globals → BlockChain lib → lib.Trie → List Address → List AccountState → Outcome lib.Trie
  write_accounts g bc st [] states = ret st
  write_accounts g bc st (addr ∷ ac) states = do
    shard ← get_partition_map g.shard_num bc.partition_map addr
    st' ←
        if shard == bc.chain_config.shard_id
        then (do
          s ← next_account states
          store_account lib st addr (fresh_account s.nonce s.balance))
        else ret st
    write_accounts g bc st' ac (rest_accounts states)

  -- the commits of both: the new trie is staged, and the root that is flushed is the old one
  unfoldable pub commit_accounts : BlockChain lib → Bytes → lib.Trie → Outcome (lib.TrieDb × Bytes)
  commit_accounts bc rt st =
      let committed = lib.commit st in
      do
        staged ← deref (lib.stage bc.trie_db committed.1)
        flushed ← deref (lib.flush staged rt)
        ret (flushed, committed.0)

  -- the header of both
  abbrev pub accounts_header : Block → BlockHeader → Bytes → Bytes → BlockHeader
  accounts_header parent parent_header rt tx_root = record {
    parent_block_hash = parent.hash;
    state_root = rt;
    tx_root = tx_root;
    number = next_number parent_header.number;
    time = 0;
    miner = 0;
    all_state_root = [];
    tx_num = 0;
  }

  -- what `AddAccounts` does if `len(ac) != 0`, and the root that it starts from if not
  unfoldable pub write_all :
      Globals
      → BlockChain lib
      → Bytes
      → List Address
      → List AccountState
      → Outcome (lib.TrieDb × Bytes)
  write_all g bc rt [] states = ret (bc.trie_db, rt)
  write_all g bc rt (addr ∷ ac) states = do
    st ← deref (lib.open_trie bc.trie_db rt)
    st' ← write_accounts g bc st (addr ∷ ac) states
    commit_accounts bc rt st'

  unfoldable pub add_accounts :
      Globals → BlockChain lib → List Address → List AccountState → Outcome (BlockChain lib)
  add_accounts g bc ac states = do
    parent ← deref bc.current_block.header
    rt ← current_root lib bc
    written ← write_all g bc rt ac states
    tx_root ← get_tx_tree_root lib []
    b ← seal lib (accounts_header bc.current_block parent written.1 tx_root) []
    storage ← Storage.add_block lib bc.storage b
    ret (record bc { trie_db = written.0; current_block = b; storage = storage })

  unfoldable pub fetch_each : Globals → lib.Trie → List Address → Outcome (List AccountState)
  fetch_each g st [] = ret []
  fetch_each g st (addr ∷ addrs) = do
    s ← load_account lib st addr 0 g.init_balance
    others ← fetch_each g st addrs
    ret (s ∷ others)

  unfoldable pub fetch_accounts :
      Globals → BlockChain lib → List Address → Outcome (List AccountState)
  fetch_accounts g bc addrs = do
    rt ← current_root lib bc
    st ← deref (lib.open_trie bc.trie_db rt)
    fetch_each g st addrs

  -- the loop of `AddAccount`: a new account starts with the given balance on top of the initial one,
  -- an old one is paid in
  unfoldable pub pay_accounts :
      Globals → lib.Trie → List Address → List AccountState → Outcome lib.Trie
  pay_accounts g st [] states = ret st
  pay_accounts g st (addr ∷ ac) states = do
    s ← next_account states
    st' ← elim (lib.get st addr) [
      | none ↦ store_account lib st addr (fresh_account s.nonce (s.balance +ℤ g.init_balance))
      | some enc ↦ (do
        r_state ← decode_as lib enc
        store_account lib st addr (deposit r_state s.balance))
    ]
    pay_accounts g st' ac (rest_accounts states)

  -- what `AddAccount` does if `len(ac) != 0`, and the root that it starts from if not
  unfoldable pub pay_all :
      Globals
      → BlockChain lib
      → Bytes
      → List Address
      → List AccountState
      → Outcome (lib.TrieDb × Bytes)
  pay_all g bc rt [] states = ret (bc.trie_db, rt)
  pay_all g bc rt (addr ∷ ac) states = do
    st ← deref (lib.open_trie bc.trie_db rt)
    st' ← pay_accounts g st (addr ∷ ac) states
    commit_accounts bc rt st'

  unfoldable pub add_account :
      Globals → BlockChain lib → List Address → List AccountState → Outcome (BlockChain lib)
  add_account g bc ac states = do
    parent ← deref bc.current_block.header
    rt ← current_root lib bc
    written ← pay_all g bc rt ac states
    tx_root ← get_tx_tree_root lib []
    b ← seal lib (accounts_header bc.current_block parent written.1 tx_root) []
    chain_add_block lib g (record bc { trie_db = written.0 }) b
