-- ===== src/Chain/Runs/Valid.antt =====
-- What holds of a node at every moment of its life.
use mathlib.Core.Path.{subst}
use mathlib.Core.Option.{some-injective}
use sharded_blockchain_dashb.Base.{ℕ, ◌≡◌, ◌≢◌, refl, sym, ap, ◌∙◌, none, List, [], ◌∷◌}
use sharded_blockchain_dashb.Base.Keyed.{Bytes}
use sharded_blockchain_dashb.Base.Outcome.{ret, ret-injective}
use sharded_blockchain_dashb.Core.{Transaction, Time, Block, BlockHeader, ChainConfig}
use sharded_blockchain_dashb.Pool.{pack_txs}
use sharded_blockchain_dashb.Backend.{Backend, TrieLaws, DatabaseLaws, BoltLaws, GobLaws}
use sharded_blockchain_dashb.Storage.{get_block, get_newest_block_hash}
use sharded_blockchain_dashb.Chain.{Globals, BlockChain}
use sharded_blockchain_dashb.Chain.Partition.{map_info}
use sharded_blockchain_dashb.Chain.Status.{Shard}
use sharded_blockchain_dashb.Chain.Ledger.{Accounts, Transfer, plans, apply_transfers}
use sharded_blockchain_dashb.Chain.Commit.{shard_now}
use sharded_blockchain_dashb.Chain.Blocks.{
  genesis_header, send_tx2pool, chain_add_block, new_block_chain,
}
use sharded_blockchain_dashb.Chain.Blocks.Generate.{IsGood, EmptyFits, NextFits, mine}
use sharded_blockchain_dashb.Chain.Blocks.Restart.{
  no_accounts, new_block_chain_genesis, new_block_chain_restart,
}
use sharded_blockchain_dashb.Chain.Runs.{
  replay, IsFresh, Planned, IsForeign, Run, created, sent, mined, received, restarted, Links,
  IsLinked,
}
use sharded_blockchain_dashb.Chain.Runs.Advances.{Advances, mine-Advances, chain_add_block-Advances}

-- the shard of a configuration, with the built-in table
abbrev pub shard_of : ChainConfig → Shard
shard_of cc = record { partition_map = map_info; shard_id = cc.shard_id }

-- The node is good, its top block is the newest of the blocks, these are linked in its storage, and its
-- accounts are those that the blocks' transfers give.
pub record IsValid (lib : Backend) (g : Globals) (cc : ChainConfig) (bc : BlockChain lib)
    (bs : List Block) : Type 0 where
  pub current : BlockHeader
  pub accounts : Accounts
  pub below : List Block
  pub blocks_are : bs ≡ bc.current_block ∷ below
  pub config_is : bc.chain_config ≡ cc
  pub good : IsGood lib bc current accounts
  pub linked : IsLinked lib g bc.storage bs
  pub replayed : replay g (shard_of cc) bs ≡ ret accounts

module _ (lib : Backend) (g : Globals) where
  -- a storage in which the blocks are found as before
  IsLinked-keeps :
      (db db' : lib.Bolt) (hash : Bytes) (bs : List Block)
      → IsFresh hash bs
      → ((k : Bytes) → hash ≢ k → get_block lib db' k ≡ get_block lib db k)
      → IsLinked lib g db bs
      → IsLinked lib g db' bs
  IsLinked-keeps db db' hash [] fresh same linked = tt
  IsLinked-keeps db db' hash (b ∷ bs) (new, fresh) same (stored, links, linked) =
      (same b.hash new ∙ stored, links, IsLinked-keeps db db' hash bs fresh same linked)

  pub IsLinked-same :
      (db db' : lib.Bolt) (bs : List Block)
      → ((k : Bytes) → get_block lib db' k ≡ get_block lib db k)
      → IsLinked lib g db bs
      → IsLinked lib g db' bs
  IsLinked-same db db' [] same linked = tt
  IsLinked-same db db' (b ∷ bs) same (stored, links, linked) =
      (same b.hash ∙ stored, links, IsLinked-same db db' bs same linked)

  replay-next :
      (sh : Shard) (b p : Block) (bs : List Block) (ts : List Transfer) {m : Accounts}
      → replay g sh (p ∷ bs) ≡ ret m
      → plans g sh b.body ≡ ret ts
      → replay g sh (b ∷ p ∷ bs) ≡ ret (apply_transfers g.init_balance m 0 ts)
  unfolding replay
  replay-next sh b p bs ts h planned = rw (h, planned) refl

  -- one more block on a valid node, where the transfers of its body are `ts`
  advance-IsValid :
      (cc : ChainConfig) (bc bc' : BlockChain lib) (bs : List Block) (txs : List Transaction)
      (ts : List Transfer)
      → (v : IsValid lib g cc bc bs) → plans g (shard_now lib bc) txs ≡ ret ts
      → IsFresh bc'.current_block.hash bs
      → Advances lib bc bc' v.current txs (apply_transfers g.init_balance v.accounts 0 ts)
      → IsValid lib g cc bc' (bc'.current_block ∷ bs)
  advance-IsValid cc bc bc' bs txs ts v planned fresh a =
      let b = bc'.current_block in
      let top = bc.current_block in
      let planned_here : plans g (shard_of cc) b.body ≡ ret ts =
        ap (plans g (shard_of cc)) a.body_is
        ∙ subst (λ c. plans g (shard_of c) txs ≡ ret ts) v.config_is planned in
      let replayed_top =
        subst (λ l. replay g (shard_of cc) l ≡ ret v.accounts) v.blocks_are v.replayed in
      let links : Links lib g b (top ∷ v.below) =
        (a.header, v.current, a.good.top, v.good.top, a.parent_is, a.number_is) in
      record {
        current = a.header;
        accounts = apply_transfers g.init_balance v.accounts 0 ts;
        below = bs;
        blocks_are = refl;
        config_is = a.config_is ∙ v.config_is;
        good = a.good;
        linked = (
          a.good.stored,
          subst (Links lib g b) (sym v.blocks_are) links,
          IsLinked-keeps bc.storage bc'.storage b.hash bs fresh a.others v.linked,
        );
        replayed =
            subst
              (λ l.
                replay g (shard_of cc) (b ∷ l)
                ≡ ret (apply_transfers g.init_balance v.accounts 0 ts))
              (sym v.blocks_are)
              (replay-next (shard_of cc) b top v.below ts replayed_top planned_here);
      }

module _ (lib : Backend) (g : Globals) (laws : TrieLaws lib) (dblaws : DatabaseLaws lib)
    (bolt : BoltLaws lib) (gob : GobLaws lib) where
  created-IsValid :
      (cc : ChainConfig) (bc : BlockChain lib) (disk : lib.TrieDb) (file : lib.Bolt)
      → get_newest_block_hash lib file ≡ none
      → EmptyFits lib (genesis_header lib)
      → new_block_chain lib cc disk file ≡ ret bc
      → IsValid lib g cc bc (bc.current_block ∷ [])
  unfolding replay
  created-IsValid cc bc disk file fresh fits returns =
      let (bc', h, makes, config_is, _, _, _, good) =
        new_block_chain_genesis lib dblaws bolt gob fits cc disk file fresh in
      subst (λ c. IsValid lib g cc c (c.current_block ∷ [])) (ret-injective (sym makes ∙ returns))
        (record {
          current = h;
          accounts = no_accounts;
          below = [];
          blocks_are = refl;
          config_is = config_is;
          good = good;
          linked = (good.stored, tt, tt);
          replayed = refl;
        })

  -- a submission changes only the pool
  sent-IsValid :
      (cc : ChainConfig) (bc : BlockChain lib) (bs : List Block) (clock : ℕ → Time)
      (txs : List Transaction)
      → IsValid lib g cc bc bs
      → IsValid lib g cc (send_tx2pool lib clock bc txs) bs
  unfolding send_tx2pool
  sent-IsValid cc bc bs clock txs v = record {
    current = v.current;
    accounts = v.accounts;
    below = v.below;
    blocks_are = v.blocks_are;
    config_is = v.config_is;
    good = record {
      top = v.good.top;
      storage_open = v.good.storage_open;
      newest_is = v.good.newest_is;
      stored = v.good.stored;
      sound = v.good.sound;
    };
    linked = v.linked;
    replayed = v.replayed;
  }

  mined-IsValid :
      (cc : ChainConfig) (bc bc' : BlockChain lib) (bs : List Block) (now : Time)
      → cc.node_id ≡ 0
      → IsValid lib g cc bc bs
      → Planned lib g bc (pack_txs bc.txpool bc.chain_config.block_size).1
      → NextFits lib g now bc
      → mine lib g now bc ≡ ret bc'
      → IsFresh bc'.current_block.hash bs
      → IsValid lib g cc bc' (bc'.current_block ∷ bs)
  mined-IsValid cc bc bc' bs now own v p fits returns fresh =
      let own_here = ap (λ (c : ChainConfig). c.node_id) v.config_is ∙ own in
      let (made, mines, a) =
        mine-Advances lib g laws dblaws bolt gob now bc v.good own_here p fits in
      let same = ret-injective (sym mines ∙ returns) in
      let txs = (pack_txs bc.txpool bc.chain_config.block_size).1 in
      let m' = apply_transfers g.init_balance v.accounts 0 p.transfers in
      advance-IsValid lib g cc bc bc' bs txs p.transfers v p.planned fresh
        (subst (λ c. Advances lib bc c v.current txs m') same a)

  received-IsValid :
      (cc : ChainConfig) (bc bc' : BlockChain lib) (bs : List Block) (b : Block)
      {h current : BlockHeader}
      → IsValid lib g cc bc bs
      → IsForeign lib g bc b h current
      → Planned lib g bc b.body
      → chain_add_block lib g bc b ≡ ret bc'
      → IsFresh b.hash bs
      → IsValid lib g cc bc' (b ∷ bs)
  received-IsValid cc bc bc' bs b {h} {current} v f p returns fresh =
      let here : current ≡ v.current = some-injective current v.current (sym f.top ∙ v.good.top) in
      let (made, adds, on_top, a) =
        chain_add_block-Advances lib g laws dblaws bolt gob bc b v.good
          (subst (IsForeign lib g bc b h) here f) p in
      let same = ret-injective (sym adds ∙ returns) in
      let m' = apply_transfers g.init_balance v.accounts 0 p.transfers in
      let top : bc'.current_block ≡ b =
        ap (λ (c : BlockChain lib). c.current_block) (sym same) ∙ on_top in
      subst (λ k. IsValid lib g cc bc' (k ∷ bs)) top
        (advance-IsValid lib g cc bc bc' bs b.body p.transfers v p.planned
          (subst (λ (k : Block). IsFresh k.hash bs) (sym top) fresh)
          (subst (λ c. Advances lib bc c v.current b.body m') same a))

  restarted-IsValid :
      (cc : ChainConfig) (bc bc' : BlockChain lib) (bs : List Block)
      → IsValid lib g cc bc bs
      → new_block_chain lib cc bc.trie_db bc.storage ≡ ret bc'
      → IsValid lib g cc bc' bs
  restarted-IsValid cc bc bc' bs v returns =
      let (made, makes, config_is, top, reads, good) =
        new_block_chain_restart lib dblaws bolt gob cc bc v.good in
      subst (λ c. IsValid lib g cc c bs) (ret-injective (sym makes ∙ returns))
        (record {
          current = v.current;
          accounts = v.accounts;
          below = v.below;
          blocks_are = v.blocks_are ∙ ap (λ b. b ∷ v.below) (sym top);
          config_is = config_is;
          good = good;
          linked = IsLinked-same lib g bc.storage made.storage bs reads v.linked;
          replayed = v.replayed;
        })

  -- At every moment of the life of a node whose miner is 0, which began with a new chain, whatever was
  -- submitted, mined, received and restarted since: its top block is stored as the newest; its state
  -- root opens, now and after a restart, to the accounts that the transfers of all its blocks give; and
  -- its blocks are all stored, each linked to the one before it by its parent hash, and one higher.
  -- In such a life each block fits into the database and has a new hash; the transactions of mined and
  -- received blocks have a plan, and leave a changed trie where the loop over them counts one of them;
  -- and received blocks are valid, of another miner, with the state root that this node computes.
  pub Run-IsValid :
      (cc : ChainConfig) {bc : BlockChain lib} {bs : List Block}
      → cc.node_id ≡ 0
      → Run lib g cc bc bs
      → IsValid lib g cc bc bs
  Run-IsValid cc {bc} own (created disk file fresh fits returns) =
      created-IsValid cc bc disk file fresh fits returns
  Run-IsValid cc own (sent {bc} {bs} run clock txs) =
      sent-IsValid cc bc bs clock txs (Run-IsValid cc own run)
  Run-IsValid cc own (mined {bc} {bc'} {bs} run now planned fits returns fresh) =
      mined-IsValid cc bc bc' bs now own (Run-IsValid cc own run) planned fits returns fresh
  Run-IsValid cc own (received {bc} {bc'} {bs} {b} run foreign planned returns fresh) =
      received-IsValid cc bc bc' bs b (Run-IsValid cc own run) foreign planned returns fresh
  Run-IsValid cc own (restarted {bc} {bc'} {bs} run returns) =
      restarted-IsValid cc bc bc' bs (Run-IsValid cc own run) returns
