-- ===== src/Chain/Accounts/Pay.antt =====
-- What `AddAccount` pays in, and the block that it puts on top.
use sharded_blockchain_dashb.Base.{
  ◌≤◌, ◌≡◌, ◌≢◌, refl, ap, ◌∙◌, Option, none, some, List, [], ◌∷◌, length, arith, Option-cases, inl,
  inr,
}
use sharded_blockchain_dashb.Base.Int.{ℤ, ◌+ℤ◌}
use sharded_blockchain_dashb.Base.Outcome.{ret}
use sharded_blockchain_dashb.Core.{Address, AccountState, fresh_account, BlockHeader, new_block}
use sharded_blockchain_dashb.Core.Account.{deposit}
use sharded_blockchain_dashb.Backend.{Backend, TrieLaws, DatabaseLaws, BoltLaws, GobLaws, OpensAs}
use sharded_blockchain_dashb.Storage.{get_block, get_newest_block_hash}
use sharded_blockchain_dashb.Storage.Laws.{IsOpen, add_block_lem}
use sharded_blockchain_dashb.Chain.{Globals, BlockChain}
use sharded_blockchain_dashb.Chain.Status.{current_root}
use sharded_blockchain_dashb.Chain.Ledger.{Accounts, put}
use sharded_blockchain_dashb.Chain.Refines.{view, IsReadable, Stored, store_account_lem}
use sharded_blockchain_dashb.Chain.Blocks.{next_number, append_block, chain_add_block}
use sharded_blockchain_dashb.Chain.Blocks.Generate.{EmptyFits, get_tx_tree_root_total, seal_total}
use sharded_blockchain_dashb.Chain.Accounts.{pay_accounts, pay_all, accounts_header, add_account}
use sharded_blockchain_dashb.Chain.Accounts.Lost.{commit_accounts_lem}

-- a new account gets the initial balance on top, an old one keeps its nonce
abbrev pub paid_state : ℤ → AccountState → Option AccountState → AccountState
paid_state init s none = fresh_account s.nonce (s.balance +ℤ init)
paid_state init s (some old) = record old { balance = old.balance +ℤ s.balance }

abbrev pub paid : ℤ → Accounts → List Address → List AccountState → Accounts
paid init m [] states = m
paid init m (a ∷ ac) [] = m
paid init m (a ∷ ac) (s ∷ states) = paid init (put m a (paid_state init s (m a))) ac states

module _ (lib : Backend) (laws : TrieLaws lib) (g : Globals) where
  paid_same :
      (st st1 : lib.Trie) (a : Address) (s s' : AccountState) (ac : List Address)
      (states : List AccountState)
      → Stored lib laws st st1 a s'
      → s' ≡ paid_state g.init_balance s (view lib st a)
      → paid g.init_balance (view lib st1) ac states
        ≡ paid g.init_balance (view lib st) (a ∷ ac) (s ∷ states)
  paid_same st st1 a s s' ac states stored seen =
      ap (λ n. paid g.init_balance n ac states) (stored.shows ∙ ap (put (view lib st) a) seen)

  pay_accounts_lem :
      (st : lib.Trie) (ac : List Address) (states : List AccountState)
      → IsReadable lib st
      → length ac ≤ length states
      → (st' : lib.Trie) × (pay_accounts lib g st ac states ≡ ret st')
        × IsReadable lib st'
        × (view lib st' ≡ paid g.init_balance (view lib st) ac states)
  unfolding pay_accounts deposit
  pay_accounts_lem st [] states r long = (st, refl, r, refl)
  pay_accounts_lem st (a ∷ ac) [] r long = absurd (omega (arith, long))
  pay_accounts_lem st (a ∷ ac) (s ∷ states) r long = elim (Option-cases (lib.get st a)) [
    | inl new ↦
        let s' = fresh_account s.nonce (s.balance +ℤ g.init_balance) in
        let (st1, stores, stored) = store_account_lem lib laws st a s' r in
        let (st2, pays, r2, shows) =
          pay_accounts_lem st1 ac states stored.readable (omega (arith, long)) in
        let seen : s' ≡ paid_state g.init_balance s (view lib st a) = rw new refl in
        (st2, rw (new, stores) pays, r2, shows ∙ paid_same st st1 a s s' ac states stored seen)
    | inr (b, old) ↦
        let (before, decodes) = r a b old in
        let s' = deposit before s.balance in
        let (st1, stores, stored) = store_account_lem lib laws st a s' r in
        let (st2, pays, r2, shows) =
          pay_accounts_lem st1 ac states stored.readable (omega (arith, long)) in
        let seen : s' ≡ paid_state g.init_balance s (view lib st a) = rw (old, decodes) refl in
        (
          st2,
          rw (old, decodes, stores) pays,
          r2,
          shows ∙ paid_same st st1 a s s' ac states stored seen,
        )
  ]

module _ (lib : Backend) where
  -- The chain after a payment: a block without transactions is next on top, stored as the newest; its
  -- state root opens in the running node to the accounts `m'`, and the disk is as it was.
  pub record IsPaid (bc bc' : BlockChain lib) (current h : BlockHeader) (m' : Accounts)
      : Type 0 where
    pub header_is : bc'.current_block.header ≡ some h
    pub number_is : h.number ≡ next_number current.number
    pub parent_is : h.parent_block_hash ≡ bc.current_block.hash
    pub body_is : bc'.current_block.body ≡ []
    pub newest_is : get_newest_block_hash lib bc'.storage ≡ some bc'.current_block.hash
    pub stored : get_block lib bc'.storage bc'.current_block.hash ≡ ret (some bc'.current_block)
    pub trie : lib.Trie
    pub opens : OpensAs lib bc'.trie_db h.state_root trie
    pub shows : view lib trie ≡ m'
    pub disk_same : lib.reopen bc'.trie_db ≡ lib.reopen bc.trie_db

module _ (lib : Backend) (laws : TrieLaws lib) (dblaws : DatabaseLaws lib) (bolt : BoltLaws lib)
    (gob : GobLaws lib) where
  -- On a chain of node 0 with an open storage, whose state root opens, now and from the disk, to one
  -- trie of accounts, let `AddAccount` get at least one address and an account for each, and let what it
  -- writes change the trie and its root, and the block that it makes fit into the database. It returns: a
  -- block without transactions is next on top, stored as the newest; its root opens in the running node
  -- to the accounts paid in, in order, whatever their shard, where a new one gets the initial balance
  -- on top; and the state database on the disk is as it was before.
  pub add_account_lem :
      (g : Globals) (bc : BlockChain lib) (addr : Address) (ac : List Address)
      (states : List AccountState) (t : lib.Trie) {current : BlockHeader}
      → bc.current_block.header ≡ some current
      → bc.chain_config.node_id ≡ 0
      → IsOpen lib bc.storage
      → lib.open_trie bc.trie_db (lib.bytes_to_hash current.state_root) ≡ some t
      → lib.open_trie (lib.reopen bc.trie_db) (lib.bytes_to_hash current.state_root) ≡ some t
      → IsReadable lib t
      → length (addr ∷ ac) ≤ length states
      → ((st : lib.Trie)
          → pay_accounts lib g t (addr ∷ ac) states ≡ ret st
          → lib.IsDirty st
            × ((lib.commit st).0 ≢ lib.bytes_to_hash current.state_root)
            × EmptyFits lib (accounts_header lib bc.current_block current (lib.commit st).0))
      → (bc' : BlockChain lib) × (h : BlockHeader) × (add_account lib g bc (addr ∷ ac) states
          ≡ ret bc')
        × IsPaid lib bc bc' current h (paid g.init_balance (view lib t) (addr ∷ ac) states)
  unfolding add_account pay_all current_root chain_add_block append_block
  add_account_lem g bc addr ac states t {current} top own is_open here there r long changes =
      let (st, pays, _, shows) = pay_accounts_lem lib laws g t (addr ∷ ac) states r long in
      let (dirty, new, fits) = changes st pays in
      let (db', commits, disk, o) =
        commit_accounts_lem lib dblaws bolt gob bc (lib.bytes_to_hash current.state_root) t st here
          there dirty new in
      let (tx_root, roots) = get_tx_tree_root_total lib gob [] in
      let h = accounts_header lib bc.current_block current (lib.commit st).0 tx_root in
      let (hash, seals, hashes) = seal_total lib gob h [] in
      let b = record (new_block h []) { hash = hash } in
      let (storage, adds, a) =
        add_block_lem lib bolt gob bc.storage b h is_open (fits tx_root b roots seals) in
      (
        record bc { trie_db = db'; current_block = b; storage = storage },
        h,
        ground arith,
        record {
          header_is = refl;
          number_is = refl;
          parent_is = refl;
          body_is = refl;
          newest_is = a.newest_is;
          stored = a.block_is;
          trie = st;
          opens = o;
          shows = shows;
          disk_same = disk;
        },
      )
