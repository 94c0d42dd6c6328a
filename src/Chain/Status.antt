-- ===== src/Chain/Status.antt =====
-- `GetUpdateStatusTrie` of chain/blockchain.go: a block's transactions applied to the state trie.
use sharded_blockchain_dashb.Base.Keyed.{bytes_is_eq}
use sharded_blockchain_dashb.Base.{
  ℕ, zero, suc, ◌+◌, Bool, true, false, not, ◌||◌, Option, none, some, List, [], ◌∷◌, ◌==◌,
  if◌then◌else◌,
}
use sharded_blockchain_dashb.Base.Keyed.{Bytes}
use sharded_blockchain_dashb.Base.Dict.{Dict, insert}
use sharded_blockchain_dashb.Base.Int.{ℤ, ltb_ℤ}
use sharded_blockchain_dashb.Base.Outcome.{Outcome, ret, ◌>>=◌, deref}
use sharded_blockchain_dashb.Core.{Address, AccountState, fresh_account, Transaction}
use sharded_blockchain_dashb.Core.Account.{deduct, deposit}
use sharded_blockchain_dashb.Address.{addr2shard, addr_virtual_account}
use sharded_blockchain_dashb.Codec.{encode_as, decode_as}
use sharded_blockchain_dashb.Backend.{Backend}
use sharded_blockchain_dashb.Chain.{Globals, BlockChain}
use sharded_blockchain_dashb.Chain.Partition.{get_partition_map, map_info}

-- what the loop changes: the trie `st`, `cnt`, and `bc.AllStateMapTx`
pub record Progress (lib : Backend) : Type 0 where
  pub st : lib.Trie
  pub cnt : ℕ
  pub all_state : Dict Address AccountState

-- what the loop reads
pub record Shard : Type 0 where
  pub partition_map : Dict Address ℕ
  pub shard_id : ℕ

-- `!tx.Relayed && bc.Get_PartitionMap(tx.Sender) == bc.ChainConfig.ShardID`
unfoldable pub sender_in_shard : Globals → Shard → Transaction → Outcome Bool
sender_in_shard g sh tx = if tx.relayed then ret false else (do
  shard ← get_partition_map g.shard_num sh.partition_map tx.sender
  ret (shard == sh.shard_id))

module _ (lib : Backend) where
  -- the state of an account, or a new one with the round as its nonce
  unfoldable pub load_account : lib.Trie → Address → ℕ → ℤ → Outcome AccountState
  load_account st addr i init = elim (lib.get st addr) [
    | none ↦ ret (fresh_account i init)
    | some enc ↦ decode_as lib enc
  ]

  unfoldable pub store_account : lib.Trie → Address → AccountState → Outcome lib.Trie
  store_account st addr s = do enc ← encode_as lib s; ret (lib.update st addr enc)

  -- the sender's part; `none` is the `continue` of a transfer that the balance does not cover
  unfoldable pub charge : Globals → Progress lib → ℕ → Transaction → Outcome (Option (Progress lib))
  charge g p i tx = do
    s_state ← load_account p.st tx.sender i g.init_balance
    value ← deref tx.value
    if ltb_ℤ s_state.balance value then ret none else (do
      st ← store_account p.st tx.sender (deduct s_state value).0
      ret (some (record p { st = st; cnt = p.cnt + 1 })))

  -- the recipient's account is of this shard, or the transaction has a broker
  unfoldable pub credit_real : Globals → Progress lib → ℕ → Transaction → Outcome (Progress lib)
  credit_real g p i tx = do
    r_state ← load_account p.st tx.recipient i g.init_balance
    value ← deref tx.value
    st ← store_account p.st tx.recipient (deposit r_state value)
    ret (record p { st = st; cnt = p.cnt + 1 })

  -- the recipient's account is of another shard: its virtual account here
  unfoldable pub credit_virtual : Globals → Progress lib → ℕ → Transaction → Outcome (Progress lib)
  credit_virtual g p i tx = do
    main_shard ← addr2shard g.shard_num tx.sender
    let virtual_recipient = addr_virtual_account tx.recipient main_shard
    r_state ← load_account p.st virtual_recipient i g.virtual_init_balance
    value ← deref tx.value
    st ← store_account p.st virtual_recipient (deposit r_state value)
    ret (record {
      st = st;
      cnt = p.cnt + 1;
      all_state = insert virtual_recipient (deposit r_state value) p.all_state;
    })

  unfoldable pub credit : Globals → Shard → Progress lib → ℕ → Transaction → Outcome (Progress lib)
  credit g sh p i tx = do
    shard ← get_partition_map g.shard_num sh.partition_map tx.recipient
    if shard == sh.shard_id || tx.has_broker then credit_real g p i tx else (do
      again ← get_partition_map g.shard_num sh.partition_map tx.recipient
      if not (again == sh.shard_id) || tx.has_broker then credit_virtual g p i tx else ret p)

  unfoldable pub process_tx :
      Globals → Shard → Progress lib → ℕ → Transaction → Outcome (Progress lib)
  process_tx g sh p i tx = do
    mine ← sender_in_shard g sh tx
    charged ← if mine then charge g p i tx else ret (some p)
    elim charged [ none ↦ ret p | some p' ↦ credit g sh p' i tx ]

  -- the loop, from round `i`
  unfoldable pub process_txs :
      Globals → Shard → Progress lib → ℕ → List Transaction → Outcome (Progress lib)
  process_txs g sh p i [] = ret p
  process_txs g sh p i (tx ∷ txs) = do p' ← process_tx g sh p i tx; process_txs g sh p' (i + 1) txs

  -- the state root of the top block, as a hash
  unfoldable pub current_root : BlockChain lib → Outcome Bytes
  current_root bc = do
    header ← deref bc.current_block.header
    ret (lib.bytes_to_hash header.state_root)

  unfoldable pub shard_of_chain : BlockChain lib → Shard
  shard_of_chain bc = record {
    partition_map = bc.partition_map;
    shard_id = bc.chain_config.shard_id;
  }

  -- after the loop: the commits to the trie database and to the disk
  unfoldable pub commit_status :
      BlockChain lib → Bytes → Progress lib → Outcome (BlockChain lib × Bytes)
  commit_status bc root p = elim p.cnt [
    | zero ↦ ret (record bc { all_state_map_tx = p.all_state }, root)
    | suc _ ↦
        let (rt, ns) = lib.commit p.st in
        do
          staged ← deref (lib.stage bc.trie_db ns)
          flushed ← deref (lib.flush staged rt)
          ret (record bc { trie_db = flushed; all_state_map_tx = p.all_state; flag = true }, rt)
  ]

  -- behind `bc.PartitionMap = bc.MapInfo()`
  unfoldable pub update_status :
      Globals → BlockChain lib → List Transaction → Outcome (BlockChain lib × Bytes)
  update_status g bc [] = do root ← current_root bc; ret (bc, root)
  update_status g bc (tx ∷ txs) = do
    root ← current_root bc
    st ← deref (lib.open_trie bc.trie_db root)
    p ←
        process_txs g (shard_of_chain bc)
          (record { st = st; cnt = 0; all_state = bc.all_state_map_tx }) 0 (tx ∷ txs)
    commit_status bc root p

  unfoldable pub get_update_status_trie :
      Globals → BlockChain lib → List Transaction → Outcome (BlockChain lib × Bytes)
  get_update_status_trie g bc txs = update_status g (record bc { partition_map = map_info }) txs
