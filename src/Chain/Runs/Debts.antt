-- ===== src/Chain/Runs/Debts.antt =====
-- No account of a node is ever in debt.
use mathlib.Core.Path.{subst}
use sharded_blockchain_dashb.Base.{◌≡◌, ◌||◌, some, List, [], ◌∷◌, All, inl, inr, Bool-cases, ◌==◌}
use sharded_blockchain_dashb.Base.Int.{ℤ, pos, ◌≤ℤ◌}
use sharded_blockchain_dashb.Base.Outcome.{ret, deref, >>=-eq-ret, deref-eq-ret, ret-injective}
use sharded_blockchain_dashb.Core.{Address, Transaction, Block, ChainConfig}
use sharded_blockchain_dashb.Address.{addr2shard}
use sharded_blockchain_dashb.Backend.{Backend, TrieLaws, DatabaseLaws, BoltLaws, GobLaws}
use sharded_blockchain_dashb.Chain.{Globals, BlockChain}
use sharded_blockchain_dashb.Chain.Status.{Shard}
use sharded_blockchain_dashb.Chain.Partition.{get_partition_map}
use sharded_blockchain_dashb.Chain.Ledger.{Accounts, Transfer, is_mine, destination, plan, plans}
use sharded_blockchain_dashb.Chain.Ledger.Money.{IsSolvent, IsProper, apply_transfers-IsSolvent}
use sharded_blockchain_dashb.Chain.Runs.{replay, Run}
use sharded_blockchain_dashb.Chain.Runs.Valid.{shard_of, IsValid, Run-IsValid}

-- the transaction moves no negative amount
abbrev pub NoNegative : Transaction → Type 0
NoNegative tx = (v : ℤ) → tx.value ≡ some v → pos 0 ≤ℤ v

-- new accounts do not start in debt
abbrev pub StartsPaid : Globals → Type 0
StartsPaid g = (pos 0 ≤ℤ g.init_balance) × (pos 0 ≤ℤ g.virtual_init_balance)

module _ (g : Globals) (sh : Shard) (start : StartsPaid g) where
  destination-nonneg :
      (tx : Transaction) (target : Address × ℤ)
      → destination g sh tx ≡ ret target
      → pos 0 ≤ℤ target.1
  unfolding destination
  destination-nonneg tx target h =
      let (shard, e, rest) =
        >>=-eq-ret (get_partition_map g.shard_num sh.partition_map tx.recipient) _ h in
      elim (Bool-cases (shard == sh.shard_id || tx.has_broker)) [
        | inl real ↦
            subst (λ (p : Address × ℤ). pos 0 ≤ℤ p.1) (ret-injective (rw real at rest)) start.0
        | inr virtual ↦
            let (main_shard, _, made) =
              >>=-eq-ret (addr2shard g.shard_num tx.sender) _ (rw virtual at rest) in
            subst (λ (p : Address × ℤ). pos 0 ≤ℤ p.1) (ret-injective made) start.1
      ]

  plan-IsProper :
      (tx : Transaction) (t : Transfer) → NoNegative tx → plan g sh tx ≡ ret t → IsProper t
  unfolding plan
  plan-IsProper tx t h e =
      let (amount, valued, e1) = >>=-eq-ret (deref tx.value) _ e in
      let (mine, _, e2) = >>=-eq-ret (is_mine g sh tx) _ e1 in
      let (target, targets, e3) = >>=-eq-ret (destination g sh tx) _ e2 in
      subst IsProper (ret-injective e3)
        (h amount (deref-eq-ret tx.value valued), destination-nonneg tx target targets)

  plans-IsProper :
      (txs : List Transaction) (ts : List Transfer)
      → All NoNegative txs
      → plans g sh txs ≡ ret ts
      → All IsProper ts
  unfolding plans
  plans-IsProper [] ts h e = subst (All IsProper) (ret-injective e) tt
  plans-IsProper (tx ∷ txs) ts (h, hs) e =
      let (first, plans_first, e1) = >>=-eq-ret (plan g sh tx) _ e in
      let (others, plans_others, e2) = >>=-eq-ret (plans g sh txs) _ e1 in
      subst (All IsProper) (ret-injective e2)
        (plan-IsProper tx first h plans_first, plans-IsProper txs others hs plans_others)

  replay-IsSolvent :
      (bs : List Block) (m : Accounts)
      → All (λ (b : Block). All NoNegative b.body) bs
      → replay g sh bs ≡ ret m
      → IsSolvent m
  unfolding replay
  replay-IsSolvent [] m h e = subst IsSolvent (ret-injective e) (λ a s none_there. cc)
  replay-IsSolvent (b ∷ []) m h e = subst IsSolvent (ret-injective e) (λ a s none_there. cc)
  replay-IsSolvent (b ∷ p ∷ bs) m (body, h) e =
      let (before, replays, e1) = >>=-eq-ret (replay g sh (p ∷ bs)) _ e in
      let (ts, planned, e2) = >>=-eq-ret (plans g sh b.body) _ e1 in
      subst IsSolvent (ret-injective e2) (
        apply_transfers-IsSolvent g.init_balance start.0 before 0 ts
          (replay-IsSolvent (p ∷ bs) before h replays) (plans-IsProper b.body ts body planned))

module _ (lib : Backend) (g : Globals) (laws : TrieLaws lib) (dblaws : DatabaseLaws lib)
    (bolt : BoltLaws lib) (gob : GobLaws lib) where
  -- At every moment of the life of a node whose miner is 0, which began with a new chain, where new
  -- accounts do not start in debt and no transaction of its blocks moves a negative amount, its state
  -- root opens to accounts none of which is in debt. In such a life each block fits into the database
  -- and has a new hash; the transactions of mined and received blocks have a plan, and leave a changed
  -- trie where the loop over them counts one of them; and received blocks are valid, of another miner,
  -- with the state root that this node computes.
  pub Run-IsSolvent :
      (cc : ChainConfig) {bc : BlockChain lib} {bs : List Block}
      → cc.node_id ≡ 0
      → StartsPaid g
      → Run lib g cc bc bs
      → All (λ (b : Block). All NoNegative b.body) bs
      → (v : IsValid lib g cc bc bs) × IsSolvent v.accounts
  Run-IsSolvent cc {bc} {bs} own start run all =
      let v = Run-IsValid lib g laws dblaws bolt gob cc own run in
      (v, replay-IsSolvent g (shard_of cc) start bs v.accounts all v.replayed)
