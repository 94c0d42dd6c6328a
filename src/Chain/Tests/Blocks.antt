-- ===== src/Chain/Tests/Blocks.antt =====
-- Mining, restarting and adding accounts, on the small chain.
use sharded_blockchain_dashb.Base.Keyed.{bytes_is_eq}
use sharded_blockchain_dashb.Base.{◌≡◌, ◌≢◌, refl, none, some, List, [], ◌∷◌, map, arith}
use sharded_blockchain_dashb.Base.Keyed.{Bytes}
use sharded_blockchain_dashb.Base.Dict.{lookup, insert}
use sharded_blockchain_dashb.Base.Int.{pos}
use sharded_blockchain_dashb.Base.Text.{parse_hex}
use sharded_blockchain_dashb.Base.Outcome.{ret, panic}
use sharded_blockchain_dashb.Core.{AccountState, fresh_account, BlockHeader, Block}
use sharded_blockchain_dashb.Pool.{pack_txs}
use sharded_blockchain_dashb.Address.{addr2shard, last8}
use sharded_blockchain_dashb.Backend.{OpensAs}
use sharded_blockchain_dashb.Backend.Sample.{
  read, read_found, sample, open_trie, reopen, state, Contents, Buckets,
}
use sharded_blockchain_dashb.Backend.Sample.Laws.{
  sample_trie, sample_database, sample_bolt, sample_gob,
}
use sharded_blockchain_dashb.Storage.{get_block, get_newest_block_hash}
use sharded_blockchain_dashb.Chain.{defaults, BlockChain}
use sharded_blockchain_dashb.Chain.Partition.{get_partition_map}
use sharded_blockchain_dashb.Chain.Status.{get_update_status_trie, store_account}
use sharded_blockchain_dashb.Chain.Ledger.{account_or, apply_transfers}
use sharded_blockchain_dashb.Chain.Refines.{view, IsReadable}
use sharded_blockchain_dashb.Chain.Commit.{IsSound, Untouched, get_update_status_trie_lem}
use sharded_blockchain_dashb.Chain.Partition
use sharded_blockchain_dashb.Chain.Blocks.{
  genesis_header, generate_block, new_block_chain, next_number,
}
use sharded_blockchain_dashb.Chain.Blocks.Generate.{
  IsGood, IsNext, generate_block_lem, mine, mine_lem,
}
use sharded_blockchain_dashb.Chain.Blocks.Restart.{
  no_accounts, new_block_chain_restart, new_block_chain_genesis,
}
use sharded_blockchain_dashb.Chain.Accounts.{fetch_accounts, write_accounts, add_accounts}
use sharded_blockchain_dashb.Chain.Accounts.Fetch.{
  fetch_accounts_lem, grants, put_all, write_accounts_lem,
}
use sharded_blockchain_dashb.Chain.Accounts.Lost.{add_accounts_lost}
use sharded_blockchain_dashb.Chain.Tests.Setup.{
  alice, bob, carol, txs, transfers, genesis, chain, config, chain-IsOpen, chain-IsSound,
  chain-IsGood, txs-plans, txs-Commits, next-Fits, empty-Fits,
}

get_update_status_trie_lem_example :
    (bc' : BlockChain sample) × (root : Bytes) × (get_update_status_trie sample defaults chain txs
      ≡ ret (bc', root))
    × IsSound sample bc'.trie_db root
        (apply_transfers defaults.init_balance no_accounts 0 transfers)
    × Untouched sample chain bc'
    × (bc'.partition_map ≡ Partition.map_info)
get_update_status_trie_lem_example =
    get_update_status_trie_lem sample sample_trie sample_database defaults chain txs transfers refl
      chain-IsSound txs-plans txs-Commits

generate_block_lem_example :
    (bc' : BlockChain sample) × (b : Block) × (h : BlockHeader) × (generate_block sample defaults 9
        chain
      ≡ ret (bc', b))
    × IsNext sample chain bc' genesis
        (pack_txs chain.txpool 6000).1
        (apply_transfers defaults.init_balance no_accounts 0 transfers)
        b
        h
    × Untouched sample (record chain { txpool = (pack_txs chain.txpool 6000).0 }) bc'
unfolding pack_txs
generate_block_lem_example =
    generate_block_lem sample sample_trie sample_database sample_gob defaults 9 chain transfers refl
      chain-IsSound txs-plans txs-Commits

mine_lem_example :
    (bc' : BlockChain sample) × (h : BlockHeader) × (mine sample defaults 9 chain ≡ ret bc')
    × IsGood sample bc' h (apply_transfers defaults.init_balance no_accounts 0 transfers)
    × (h.number ≡ next_number genesis.number)
    × (h.parent_block_hash ≡ chain.current_block.hash)
    × (bc'.current_block.body ≡ (pack_txs chain.txpool chain.chain_config.block_size).1)
    × (bc'.chain_config ≡ config)
    × ((k : Bytes)
        → bc'.current_block.hash ≢ k
        → get_block sample bc'.storage k ≡ get_block sample chain.storage k)
unfolding pack_txs
mine_lem_example =
    mine_lem sample sample_trie sample_database sample_bolt sample_gob defaults 9 chain transfers
      chain-IsGood refl txs-plans txs-Commits (next-Fits 9 chain (omega arith))

new_block_chain_restart_example :
    (bc' : BlockChain sample) × (new_block_chain sample config chain.trie_db chain.storage
      ≡ ret bc')
    × (bc'.chain_config ≡ config)
    × (bc'.current_block ≡ chain.current_block)
    × ((k : Bytes) → get_block sample bc'.storage k ≡ get_block sample chain.storage k)
    × IsGood sample bc' genesis no_accounts
new_block_chain_restart_example =
    new_block_chain_restart sample sample_database sample_bolt sample_gob config chain chain-IsGood

abbrev no_buckets : Buckets
no_buckets = []

no_newest : get_newest_block_hash sample no_buckets ≡ none
unfolding get_newest_block_hash read read_found lookup
no_newest = refl

new_block_chain_genesis_example :
    (bc : BlockChain sample) × (h : BlockHeader) × (new_block_chain sample config chain.trie_db
        no_buckets
      ≡ ret bc)
    × (bc.chain_config ≡ config)
    × (h.number ≡ 0)
    × (h.parent_block_hash ≡ [])
    × (bc.current_block.body ≡ [])
    × IsGood sample bc h no_accounts
new_block_chain_genesis_example =
    new_block_chain_genesis sample sample_database sample_bolt sample_gob
      (empty-Fits (genesis_header sample)) config chain.trie_db no_buckets no_newest

new_accounts_fetched :
    fetch_accounts sample defaults chain (alice ∷ bob ∷ [])
    ≡ ret (map (λ a. account_or (no_accounts a) 0 defaults.init_balance) (alice ∷ bob ∷ []))
new_accounts_fetched =
    fetch_accounts_lem sample sample_trie defaults chain (alice ∷ bob ∷ []) chain-IsGood

abbrev given : List AccountState
given = fresh_account 0 (pos 3) ∷ fresh_account 0 (pos 4) ∷ []

abbrev written : Contents
written = (alice, state (fresh_account 0 (pos 3))) ∷ []

given-grants :
    grants 4 [] 0 (alice ∷ carol ∷ []) given ≡ ret ((alice, fresh_account 0 (pos 3)) ∷ [])
unfolding grants get_partition_map lookup addr2shard last8 parse_hex
given-grants = refl

given-writes : write_accounts sample defaults chain [] (alice ∷ carol ∷ []) given ≡ ret written
unfolding write_accounts store_account get_partition_map lookup insert addr2shard last8 parse_hex
given-writes = refl

abbrev no_contents : Contents
no_contents = []

no_contents-IsReadable : IsReadable sample no_contents
unfolding lookup
no_contents-IsReadable a b e = cc

write_accounts_lem_example :
    (st' : Contents) × (write_accounts sample defaults chain no_contents (alice ∷ carol ∷ []) given
      ≡ ret st')
    × IsReadable sample st'
    × (view sample st' ≡ put_all (view sample no_contents) ((alice, fresh_account 0 (pos 3)) ∷ []))
write_accounts_lem_example =
    write_accounts_lem sample sample_trie defaults chain no_contents (alice ∷ carol ∷ []) given
      ((alice, fresh_account 0 (pos 3)) ∷ []) no_contents-IsReadable given-grants

add_accounts_lost_example :
    (bc' : BlockChain sample) × (h : BlockHeader) × (add_accounts sample defaults chain
        (alice ∷ carol ∷ [])
        given
      ≡ ret bc')
    × (bc'.current_block.header ≡ some h)
    × OpensAs sample bc'.trie_db h.state_root written
    × (new_block_chain sample config bc'.trie_db bc'.storage ≡ panic)
unfolding open_trie reopen lookup
add_accounts_lost_example =
    add_accounts_lost sample sample_database sample_bolt sample_gob defaults config chain alice
      (carol ∷ []) given [] written refl chain-IsOpen refl refl given-writes tt (λ e. cc) refl
      (empty-Fits _)
