-- ===== src/Chain/Audit.antt =====
-- chain/blockchain.go, `GetUpdateStatusTrie`: what it does to the money of the shard.
use sharded_blockchain_dashb.Base.{◌≡◌, some, List, All}
use sharded_blockchain_dashb.Base.Int.{ℤ, pos, ◌+ℤ◌, ◌≤ℤ◌}
use sharded_blockchain_dashb.Base.Keyed.{Bytes}
use sharded_blockchain_dashb.Base.Outcome.{ret}
use sharded_blockchain_dashb.Core.{Address, Transaction, BlockHeader}
use sharded_blockchain_dashb.Backend.{Backend, TrieLaws, DatabaseLaws}
use sharded_blockchain_dashb.Chain.{Globals, BlockChain}
use sharded_blockchain_dashb.Chain.Ledger.{Accounts, Transfer, plans, apply_transfers}
use sharded_blockchain_dashb.Chain.Ledger.Money.{
  total, inflow, IsCovered, IsSolvent, IsProper, total-apply_transfers, apply_transfers-IsSolvent,
}
use sharded_blockchain_dashb.Chain.Status.{get_update_status_trie}
use sharded_blockchain_dashb.Chain.Commit.{IsSound, Commits, shard_now, get_update_status_trie_lem}

module _ (lib : Backend) (laws : TrieLaws lib) (dblaws : DatabaseLaws lib) where
  -- On a chain whose state root opens to the accounts `m`, with transactions that have a plan
  -- and of which, where the loop counts one, what it writes has changed the trie:
  -- `GetUpdateStatusTrie` returns a root that opens, now and after a restart, to accounts whose total
  -- is that of `m` and what the block brings in from other shards. The total is over any list that
  -- has each account of the transfers once, an account that is not there counted with the balance
  -- that it starts with.
  pub total-get_update_status_trie :
      (g : Globals) (bc : BlockChain lib) (txs : List Transaction) (ts : List Transfer)
      (start : Address → ℤ) (listed : List Address) {header : BlockHeader} {m : Accounts}
      → bc.current_block.header ≡ some header
      → IsSound lib bc.trie_db (lib.bytes_to_hash header.state_root) m
      → plans g (shard_now lib bc) txs ≡ ret ts
      → Commits lib g bc txs
      → All (IsCovered g.init_balance start listed) ts
      → (bc' : BlockChain lib) × (root : Bytes) × (m' : Accounts) × (get_update_status_trie lib g bc
            txs
          ≡ ret (bc', root))
        × IsSound lib bc'.trie_db root m'
        × (total start m' listed ≡ total start m listed +ℤ inflow ts)
  total-get_update_status_trie g bc txs ts start listed {header} {m} top s planned dirty covered =
      let (bc', root, returns, sound, _, _) =
        get_update_status_trie_lem lib laws dblaws g bc txs ts top s planned dirty in
      (
        bc',
        root,
        apply_transfers g.init_balance m 0 ts,
        returns,
        sound,
        total-apply_transfers g.init_balance start listed m 0 ts covered,
      )

  -- On a chain whose state root opens to accounts none of which is in debt, with transactions whose
  -- plans move no negative amount and of which, where the loop counts one, what it writes has changed
  -- the trie, and accounts that do not start in debt: `GetUpdateStatusTrie` returns a root that opens,
  -- now and after a restart, to accounts none of which is in debt.
  pub get_update_status_trie-IsSolvent :
      (g : Globals) (bc : BlockChain lib) (txs : List Transaction) (ts : List Transfer)
      {header : BlockHeader} {m : Accounts}
      → bc.current_block.header ≡ some header
      → IsSound lib bc.trie_db (lib.bytes_to_hash header.state_root) m
      → plans g (shard_now lib bc) txs ≡ ret ts
      → Commits lib g bc txs
      → pos 0 ≤ℤ g.init_balance
      → IsSolvent m
      → All IsProper ts
      → (bc' : BlockChain lib) × (root : Bytes) × (m' : Accounts) × (get_update_status_trie lib g bc
            txs
          ≡ ret (bc', root))
        × IsSound lib bc'.trie_db root m'
        × IsSolvent m'
  get_update_status_trie-IsSolvent g bc txs ts {header} {m} top s planned dirty init solvent
        proper =
      let (bc', root, returns, sound, _, _) =
        get_update_status_trie_lem lib laws dblaws g bc txs ts top s planned dirty in
      (
        bc',
        root,
        apply_transfers g.init_balance m 0 ts,
        returns,
        sound,
        apply_transfers-IsSolvent g.init_balance init m 0 ts solvent proper,
      )
