-- ===== src/Chain/Accounts/Fetch.antt =====
-- What `AddAccounts` writes, and what `FetchAccounts` reads.
use sharded_blockchain_dashb.Base.{
  ℕ, ◌≡◌, refl, ap, ◌∙◌, List, [], ◌∷◌, map, ◌==◌, if◌then◌else◌, arith, Bool-cases, inl, inr,
}
use sharded_blockchain_dashb.Base.Dict.{Dict}
use sharded_blockchain_dashb.Base.Outcome.{ret-injective, Outcome, ret, ◌>>=◌, >>=-eq-ret}
use sharded_blockchain_dashb.Core.{BlockHeader, Address, AccountState, fresh_account}
use sharded_blockchain_dashb.Backend.{Backend, TrieLaws}
use sharded_blockchain_dashb.Chain.{Globals, BlockChain}
use sharded_blockchain_dashb.Chain.Partition.{get_partition_map}
use sharded_blockchain_dashb.Chain.Status.{current_root}
use sharded_blockchain_dashb.Chain.Ledger.{Accounts, put, account_or}
use sharded_blockchain_dashb.Chain.Refines.{view, IsReadable, load_account_lem, store_account_lem}
use sharded_blockchain_dashb.Chain.Commit.{IsReadable-OpensAs, view-OpensAs}
use sharded_blockchain_dashb.Chain.Blocks.Generate.{IsGood}
use sharded_blockchain_dashb.Chain.Accounts.{
  next_account, rest_accounts, write_accounts, fetch_each, fetch_accounts,
}

module _ (lib : Backend) (laws : TrieLaws lib) where
  fetch_each_lem :
      (g : Globals) (st : lib.Trie) (addrs : List Address)
      → IsReadable lib st
      → fetch_each lib g st addrs
        ≡ ret (map (λ a. account_or (view lib st a) 0 g.init_balance) addrs)
  unfolding fetch_each
  fetch_each_lem g st [] r = refl
  fetch_each_lem g st (a ∷ addrs) r =
      ground (arith, load_account_lem lib laws st a 0 g.init_balance r, fetch_each_lem g st addrs r)

  -- On a good chain with the accounts `m`, `FetchAccounts` returns the states of the addresses in
  -- order, a new account with the initial balance for an address that has none.
  pub fetch_accounts_lem :
      (g : Globals) (bc : BlockChain lib) (addrs : List Address) {current : BlockHeader}
      {m : Accounts}
      → IsGood lib bc current m
      → fetch_accounts lib g bc addrs ≡ ret (map (λ a. account_or (m a) 0 g.init_balance) addrs)
  unfolding fetch_accounts current_root
  fetch_accounts_lem g bc addrs good =
      let o = good.sound.holds.running in
      let found = fetch_each_lem g o.opened addrs (IsReadable-OpensAs lib o good.sound.readable) in
      ground (
        arith,
        good.top,
        o.opens,
        found,
        ap (λ (n : Accounts). map (λ a. account_or (n a) 0 g.init_balance) addrs)
            (view-OpensAs lib o ∙ good.sound.shows),
      )

-- The accounts that `AddAccounts` writes on this shard, in order.
unfoldable pub grants :
    ℕ
    → Dict Address ℕ
    → ℕ
    → List Address
    → List AccountState
    → Outcome (List (Address × AccountState))
grants shard_num table shard_id [] states = ret []
grants shard_num table shard_id (addr ∷ ac) states = do
  shard ← get_partition_map shard_num table addr
  others ← grants shard_num table shard_id ac (rest_accounts states)
  if shard == shard_id
      then (do s ← next_account states; ret ((addr, fresh_account s.nonce s.balance) ∷ others))
      else ret others

abbrev pub put_all : Accounts → List (Address × AccountState) → Accounts
put_all m [] = m
put_all m ((a, s) ∷ gs) = put_all (put m a s) gs

module _ (lib : Backend) (laws : TrieLaws lib) where
  -- The loop of `AddAccounts` writes exactly the accounts that the partition map puts on this shard,
  -- with their balance and nonce, over whatever stood there, and leaves the others as they were.
  pub write_accounts_lem :
      (g : Globals) (bc : BlockChain lib) (st : lib.Trie) (ac : List Address)
      (states : List AccountState) (gs : List (Address × AccountState))
      → IsReadable lib st
      → grants g.shard_num bc.partition_map bc.chain_config.shard_id ac states ≡ ret gs
      → (st' : lib.Trie) × (write_accounts lib g bc st ac states ≡ ret st')
        × IsReadable lib st'
        × (view lib st' ≡ put_all (view lib st) gs)
  unfolding write_accounts grants
  write_accounts_lem g bc st [] states gs r e =
      (st, refl, r, ap (put_all (view lib st)) (ret-injective e))
  write_accounts_lem g bc st (addr ∷ ac) states gs r e =
      let (shard, at_shard, e1) =
        >>=-eq-ret (get_partition_map g.shard_num bc.partition_map addr) _ e in
      let (others, rest, e2) =
        >>=-eq-ret
          (grants g.shard_num bc.partition_map bc.chain_config.shard_id ac (rest_accounts states)) _
          e1 in
      elim (Bool-cases (shard == bc.chain_config.shard_id)) [
        | inl mine ↦
            let (s, at_s, e3) = >>=-eq-ret (next_account states) _ (rw mine at e2) in
            let s' = fresh_account s.nonce s.balance in
            let (st1, stores, stored) = store_account_lem lib laws st addr s' r in
            let (st2, writes, r2, shows) =
              write_accounts_lem g bc st1 ac (rest_accounts states) others stored.readable rest in
            (
              st2,
              ground arith,
              r2,
              shows
                  ∙ ap (λ n. put_all n others) stored.shows
                  ∙ ap (put_all (view lib st)) (ret-injective e3),
            )
        | inr foreign ↦
            let (st2, writes, r2, shows) =
              write_accounts_lem g bc st ac (rest_accounts states) others r rest in
            (
              st2,
              ground arith,
              r2,
              shows ∙ ap (put_all (view lib st)) (ret-injective (rw foreign at e2)),
            )
      ]
