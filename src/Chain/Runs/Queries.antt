-- ===== src/Chain/Runs/Queries.antt =====
-- What query/query_block.go reads from the database of a node that is stopped.
use sharded_blockchain_dashb.Base.{◌≡◌, ◌∙◌, some, List}
use sharded_blockchain_dashb.Base.Keyed.{Bytes}
use sharded_blockchain_dashb.Base.Outcome.{ret}
use sharded_blockchain_dashb.Core.{Block, ChainConfig}
use sharded_blockchain_dashb.Backend.{Backend, TrieLaws, DatabaseLaws, BoltLaws, GobLaws}
use sharded_blockchain_dashb.Storage.{database_name}
use sharded_blockchain_dashb.Storage.Laws.{new_storage_lem}
use sharded_blockchain_dashb.Query.{init_storage, query_newest_block}
use sharded_blockchain_dashb.Chain.{Globals, BlockChain}
use sharded_blockchain_dashb.Chain.Blocks.Restart.{get_block-reads, get_newest-reads}
use sharded_blockchain_dashb.Chain.Runs.{Run, IsLinked}
use sharded_blockchain_dashb.Chain.Runs.Valid.{IsLinked-same, Run-IsValid}

module _ (lib : Backend) (g : Globals) (laws : TrieLaws lib) (dblaws : DatabaseLaws lib)
    (bolt : BoltLaws lib) (gob : GobLaws lib) where
  -- At every moment of the life of a node whose miner is 0, which began with a new chain: where the
  -- disk has the node's storage under the node's name, the queries of that shard and node open it,
  -- find every block of the node under its hash, each linked to the one before it, and
  -- `QueryNewestBlock` gives the node's top block. In such a life each block fits into the database
  -- and has a new hash; the transactions of mined and received blocks have a plan, and leave a
  -- changed trie where the loop over them counts one of them; and received blocks are valid, of
  -- another miner, with the state root that this node computes.
  pub query_newest_block-Run :
      (disk : Bytes → lib.Bolt) (cc : ChainConfig) {bc : BlockChain lib} {bs : List Block}
      → cc.node_id ≡ 0
      → Run lib g cc bc bs
      → disk (database_name cc) ≡ bc.storage
      → (db : lib.Bolt) × (init_storage lib disk cc.shard_id cc.node_id ≡ ret db)
        × IsLinked lib g db bs
        × (query_newest_block lib disk cc.shard_id cc.node_id ≡ ret (some bc.current_block))
  unfolding init_storage query_newest_block database_name
  query_newest_block-Run disk cc {bc} {bs} own run at =
      let v = Run-IsValid lib g laws dblaws bolt gob cc own run in
      let (db, opens, _, reads) = new_storage_lem lib bolt gob bc.storage in
      let newest = get_newest-reads lib bc.storage db reads ∙ v.good.newest_is in
      let block = get_block-reads lib bc.storage db reads bc.current_block.hash ∙ v.good.stored in
      (
        db,
        rw at opens,
        IsLinked-same lib g bc.storage db bs (get_block-reads lib bc.storage db reads) v.linked,
        rw (at, opens, newest) block,
      )
