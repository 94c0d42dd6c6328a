-- ===== src/Chain/Commit.antt =====
-- The end of `GetUpdateStatusTrie`: the root that it returns opens to the new accounts, in the running
-- node and after a restart.
use sharded_blockchain_dashb.Base.{
  ℕ, zero, suc, ◌≡◌, ◌≢◌, refl, sym, ap, ◌∙◌, true, some, List, [], ◌∷◌, ◌⊎◌, inl, inr, arith,
}
use mathlib.Core.Path.{fun_ext, subst}
use sharded_blockchain_dashb.Base.Keyed.{Bytes}
use sharded_blockchain_dashb.Base.Outcome.{ret-injective, ret}
use sharded_blockchain_dashb.Core.{Transaction, BlockHeader}
use sharded_blockchain_dashb.Backend.{Backend, TrieLaws, DatabaseLaws, OpensAs, Holds}
use sharded_blockchain_dashb.Chain.{Globals, BlockChain}
use sharded_blockchain_dashb.Chain.Partition.{map_info}
use sharded_blockchain_dashb.Chain.Status.{
  Progress, Shard, process_txs, current_root, shard_of_chain, commit_status, update_status,
  get_update_status_trie,
}
use sharded_blockchain_dashb.Chain.Ledger.{Accounts, Transfer, plans, apply_transfers}
use sharded_blockchain_dashb.Chain.Refines.{view, IsReadable, Follows}
use sharded_blockchain_dashb.Chain.Refines.Loop.{process_txs_lem}

module _ (lib : Backend) where
  -- The top block's state root opens, now and after a restart, to a trie of encoded accounts.
  pub record IsSound (db : lib.TrieDb) (root : Bytes) (m : Accounts) : Type 0 where
    pub trie : lib.Trie
    pub holds : Holds lib db root trie
    pub readable : IsReadable lib trie
    pub shows : view lib trie ≡ m
    -- the root has the length of a hash
    pub is_hash : lib.bytes_to_hash root ≡ root

  -- the loop as `GetUpdateStatusTrie` starts it, on the trie that it opened
  abbrev pub from_trie : BlockChain lib → lib.Trie → Progress lib
  from_trie bc st = record { st = st; cnt = 0; all_state = bc.all_state_map_tx }

  -- an update of the accounts touches nothing else
  pub record Untouched (bc bc' : BlockChain lib) : Type 0 where
    pub block : bc'.current_block ≡ bc.current_block
    pub storage : bc'.storage ≡ bc.storage
    pub config : bc'.chain_config ≡ bc.chain_config
    pub pool : bc'.txpool ≡ bc.txpool

module _ (lib : Backend) where
  -- the table, and this chain's shard
  abbrev pub shard_now : BlockChain lib → Shard
  shard_now bc = record { partition_map = map_info; shard_id = bc.chain_config.shard_id }

  -- a trie that the loop wrote to has nodes to commit
  abbrev pub Commits : Globals → BlockChain lib → List Transaction → Type 0
  Commits g bc txs =
      (st : lib.Trie) (p : Progress lib)
      → process_txs lib g (shard_now bc) (from_trie lib bc st) 0 txs ≡ ret p
      → p.cnt ≢ 0
      → lib.IsDirty p.st

  pub view-OpensAs :
      {db : lib.TrieDb} {root : Bytes} {t : lib.Trie} (o : OpensAs lib db root t)
      → view lib o.opened ≡ view lib t
  view-OpensAs o = fun_ext λ k. rw (o.holds k, view)

  pub IsReadable-OpensAs :
      {db : lib.TrieDb} {root : Bytes} {t : lib.Trie} (o : OpensAs lib db root t)
      → IsReadable lib t
      → IsReadable lib o.opened
  IsReadable-OpensAs o r a b e = r a b (sym (o.holds a) ∙ e)

ℕ-cases : (n : ℕ) → (n ≡ 0) ⊎ ((k : ℕ) × (n ≡ suc k))
ℕ-cases zero = inl refl
ℕ-cases (suc k) = inr (k, refl)

module _ (lib : Backend) (laws : TrieLaws lib) (dblaws : DatabaseLaws lib) where
  commit_status_lem :
      (bc : BlockChain lib) (root : Bytes) (p : Progress lib) {m m' : Accounts}
      → (s : IsSound lib bc.trie_db root m)
      → Follows lib laws (from_trie lib bc s.holds.running.opened) p m'
      → (p.cnt ≢ 0 → lib.IsDirty p.st)
      → (bc' : BlockChain lib) × (root' : Bytes) × (commit_status lib bc root p ≡ ret (bc', root'))
        × IsSound lib bc'.trie_db root' m'
        × Untouched lib bc bc'
        × (bc'.partition_map ≡ bc.partition_map)
  unfolding commit_status
  commit_status_lem bc root p s f dirty = elim (ℕ-cases p.cnt) [
    | inl none_moved ↦
        let same : p.st ≡ s.holds.running.opened = elim f.moved [
          | inl still ↦ still.0
          | inr grew ↦ absurd (omega arith)
        ] in
        (
          record bc { all_state_map_tx = p.all_state },
          root,
          ground arith,
          record {
            trie = s.trie;
            holds = s.holds;
            readable = s.readable;
            shows = sym (view-OpensAs lib s.holds.running) ∙ sym (ap (view lib) same) ∙ f.shows;
            is_hash = s.is_hash;
          },
          record { block = refl; storage = refl; config = refl; pool = refl },
          refl,
        )
    | inr (k, moved) ↦
        let (staged, stages, o) = dblaws.stage_lem bc.trie_db p.st (dirty (omega arith)) in
        let (flushed, flushes, h) = dblaws.flush_lem staged (lib.commit p.st).0 p.st o in
        (
          record bc { trie_db = flushed; all_state_map_tx = p.all_state; flag = true },
          (lib.commit p.st).0,
          ground arith,
          record {
            trie = p.st;
            holds = h;
            readable = f.readable;
            shows = f.shows;
            is_hash = dblaws.bytes_to_hash-commit p.st;
          },
          record { block = refl; storage = refl; config = refl; pool = refl },
          refl,
        )
  ]

  update_status_lem :
      (g : Globals) (bc : BlockChain lib) (txs : List Transaction) (ts : List Transfer)
      {header : BlockHeader} {m : Accounts}
      → bc.partition_map ≡ map_info
      → bc.current_block.header ≡ some header
      → IsSound lib bc.trie_db (lib.bytes_to_hash header.state_root) m
      → plans g (shard_now lib bc) txs ≡ ret ts
      → Commits lib g bc txs
      → (bc' : BlockChain lib) × (root : Bytes) × (update_status lib g bc txs ≡ ret (bc', root))
        × IsSound lib bc'.trie_db root (apply_transfers g.init_balance m 0 ts)
        × Untouched lib bc bc'
        × (bc'.partition_map ≡ map_info)
  unfolding update_status current_root shard_of_chain plans apply_transfers
  update_status_lem g bc [] ts {header} {m} table top s planned dirty = (
    bc,
    lib.bytes_to_hash header.state_root,
    ground arith,
    record {
      trie = s.trie;
      holds = s.holds;
      readable = s.readable;
      shows = s.shows ∙ ap (apply_transfers g.init_balance m 0) (ret-injective planned);
      is_hash = s.is_hash;
    },
    record { block = refl; storage = refl; config = refl; pool = refl },
    table,
  )
  update_status_lem g bc (tx ∷ txs) ts {header} {m} table top s planned dirty =
      let o = s.holds.running in
      let (p, looped, f) =
        process_txs_lem lib laws g (shard_now lib bc) (from_trie lib bc o.opened) 0 (tx ∷ txs) ts
          (IsReadable-OpensAs lib o s.readable) planned in
      let f' =
        subst
          (λ n.
            Follows lib laws (from_trie lib bc o.opened) p (apply_transfers g.init_balance n 0 ts))
          (view-OpensAs lib o ∙ s.shows) f in
      let (bc', root, commits, sound, untouched, kept) =
        commit_status_lem bc (lib.bytes_to_hash header.state_root) p s f'
          (dirty o.opened p looped) in
      (bc', root, ground arith, sound, untouched, kept ∙ table)

  -- What `GetUpdateStatusTrie` does on a chain whose state root opens, now and after a restart, to the
  -- accounts `m`, for transactions that have a plan and of which, where the loop counts one, what it
  -- writes has changed the trie: it returns; its root opens, now and after a restart, to `m` with the
  -- planned transfers applied in order; the top block, the storage, the pool and the configuration are
  -- as before, and the partition map is the built-in table.
  pub get_update_status_trie_lem :
      (g : Globals) (bc : BlockChain lib) (txs : List Transaction) (ts : List Transfer)
      {header : BlockHeader} {m : Accounts}
      → bc.current_block.header ≡ some header
      → IsSound lib bc.trie_db (lib.bytes_to_hash header.state_root) m
      → plans g (shard_now lib bc) txs ≡ ret ts
      → Commits lib g bc txs
      → (bc' : BlockChain lib) × (root : Bytes) × (get_update_status_trie lib g bc txs
          ≡ ret (bc', root))
        × IsSound lib bc'.trie_db root (apply_transfers g.init_balance m 0 ts)
        × Untouched lib bc bc'
        × (bc'.partition_map ≡ map_info)
  unfolding get_update_status_trie
  get_update_status_trie_lem g bc txs ts top s planned dirty =
      let bc1 = record bc { partition_map = map_info } in
      let (bc', root, returns, sound, u, table) =
        update_status_lem g bc1 txs ts refl top s planned dirty in
      (
        bc',
        root,
        returns,
        sound,
        record { block = u.block; storage = u.storage; config = u.config; pool = u.pool },
        table,
      )
