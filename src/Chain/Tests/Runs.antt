-- ===== src/Chain/Tests/Runs.antt =====
-- The life of a small node: created on an empty disk, sent three transactions, mined, restarted.
use sharded_blockchain_dashb.Base.Keyed.{bytes_is_eq}
use sharded_blockchain_dashb.Base.{ℕ, ◌<◌, length, ◌≡◌, ◌≢◌, refl, none, some, [], ◌∷◌, All, arith}
use sharded_blockchain_dashb.Base.Keyed.{bytes_eq}
use sharded_blockchain_dashb.Base.Dict.{lookup, insert}
use sharded_blockchain_dashb.Base.Int.{ℤ, pos, ◌≤ℤ◌, ◌+ℤ◌, ◌-ℤ◌}
use sharded_blockchain_dashb.Base.Text.{parse_hex, itoa}
use sharded_blockchain_dashb.Base.Outcome.{Outcome, ret, panic}
use sharded_blockchain_dashb.Core.{Block}
use sharded_blockchain_dashb.Core.Account.{deduct, deposit}
use sharded_blockchain_dashb.Address.{addr2shard, last8, addr_virtual_account}
use sharded_blockchain_dashb.Pool.{pack_txs, add_txs2pool, add_each, add_tx2pool, stamp}
use sharded_blockchain_dashb.Backend.Sample.{
  sample, Buckets, TrieDb, digest, open_trie, stage, flush, flush_found, reopen, read, read_found,
  as_block, as_raw, as_state, create_bucket, or_create, put, put_found,
}
use sharded_blockchain_dashb.Backend.Sample.Laws.{
  sample_trie, sample_database, sample_bolt, sample_gob,
}
use sharded_blockchain_dashb.Storage.{
  new_storage, update_newest_block, add_block, add_block_header, get_block, get_newest_block_hash,
}
use sharded_blockchain_dashb.Chain.{defaults, BlockChain}
use sharded_blockchain_dashb.Chain.Partition.{get_partition_map, map_info}
use sharded_blockchain_dashb.Chain.Status.{
  get_update_status_trie, update_status, current_root, commit_status, process_txs, process_tx,
  sender_in_shard, charge, credit, credit_real, credit_virtual, load_account, store_account,
  shard_of_chain,
}
use sharded_blockchain_dashb.Chain.Ledger.{plans, plan, is_mine, destination}
use sharded_blockchain_dashb.Chain.Blocks.{
  genesis_header, put_txs, get_tx_tree_root, header_hash, seal, generate_block, new_genisis_block,
  add_genisis_block, append_block, chain_add_block, bare_chain, new_block_chain, send_tx2pool,
}
use sharded_blockchain_dashb.Chain.Blocks.Generate.{mine}
use sharded_blockchain_dashb.Chain.Runs.{Run, created, sent, mined, restarted, Planned, IsLinked}
use sharded_blockchain_dashb.Query.{init_storage, query_newest_block}
use sharded_blockchain_dashb.Chain.Runs.Queries.{query_newest_block-Run}
use sharded_blockchain_dashb.Chain.Runs.Valid.{IsValid, Run-IsValid}
use sharded_blockchain_dashb.Chain.Runs.Debts.{NoNegative, Run-IsSolvent}
use sharded_blockchain_dashb.Chain.Ledger.Money.{IsSolvent}
use sharded_blockchain_dashb.Chain.Tests.Setup.{config, txs, transfers, next-Fits, empty-Fits}

abbrev no_node : BlockChain sample
no_node = bare_chain sample config (record { memory = []; disk = [] }) []

-- what a call returned
abbrev node_of : Outcome (BlockChain sample) → BlockChain sample
node_of (ret bc) = bc
node_of panic = no_node

abbrev empty_disk : TrieDb
empty_disk = record { memory = []; disk = [] }

abbrev no_buckets : Buckets
no_buckets = []

no_newest : get_newest_block_hash sample no_buckets ≡ none
unfolding get_newest_block_hash read read_found lookup
no_newest = refl

unfoldable new_node : BlockChain sample
new_node = node_of (new_block_chain sample config empty_disk no_buckets)

unfoldable restarted_node : BlockChain sample
restarted_node = node_of (new_block_chain sample config new_node.trie_db new_node.storage)

unfoldable sent_node : BlockChain sample
sent_node = send_tx2pool sample (λ i. i) restarted_node txs

unfoldable mined_node : BlockChain sample
mined_node = node_of (mine sample defaults 9 sent_node)

new_node-made : new_block_chain sample config empty_disk no_buckets ≡ ret new_node
unfolding new_node new_block_chain new_storage create_bucket or_create get_newest_block_hash read
    read_found as_raw as_block new_genisis_block add_genisis_block get_tx_tree_root put_txs seal
    header_hash digest add_block add_block_header update_newest_block put put_found get_block lookup
    insert bytes_eq reopen
new_node-made = refl

restarted_node-made :
    new_block_chain sample config new_node.trie_db new_node.storage ≡ ret restarted_node
unfolding new_node restarted_node new_block_chain new_storage create_bucket or_create
    get_newest_block_hash read read_found as_raw as_block new_genisis_block add_genisis_block
    get_tx_tree_root put_txs seal header_hash digest add_block add_block_header update_newest_block
    put put_found get_block lookup insert bytes_eq reopen open_trie
restarted_node-made = refl

mined_node-made : mine sample defaults 9 sent_node ≡ ret mined_node
unfolding new_node restarted_node open_trie sent_node mined_node send_tx2pool add_txs2pool add_each
    add_tx2pool stamp mine generate_block pack_txs get_update_status_trie update_status current_root
    shard_of_chain commit_status process_txs process_tx sender_in_shard charge credit credit_real
    credit_virtual load_account store_account get_partition_map map_info addr2shard last8 parse_hex
    addr_virtual_account itoa deduct deposit ◌+ℤ◌ ◌-ℤ◌ as_state stage flush flush_found
    chain_add_block append_block new_block_chain new_storage create_bucket or_create
    get_newest_block_hash read read_found as_raw as_block new_genisis_block add_genisis_block
    get_tx_tree_root put_txs seal header_hash digest add_block add_block_header update_newest_block
    put put_found get_block lookup insert bytes_eq reopen
mined_node-made = refl

sent_node-Planned :
    Planned sample defaults sent_node
      (pack_txs sent_node.txpool sent_node.chain_config.block_size).1
unfolding new_node restarted_node open_trie sent_node send_tx2pool add_txs2pool add_each add_tx2pool
    stamp pack_txs plans plan is_mine destination get_partition_map map_info lookup insert bytes_eq
    addr2shard last8 parse_hex addr_virtual_account itoa new_block_chain new_storage create_bucket
    or_create get_newest_block_hash read read_found as_raw as_block new_genisis_block
    add_genisis_block get_tx_tree_root put_txs seal header_hash digest add_block add_block_header
    update_newest_block put put_found get_block reopen
sent_node-Planned = record { transfers = transfers; planned = refl; commits = λ st p e ne. tt }

sent_node_few : length (pack_txs sent_node.txpool sent_node.chain_config.block_size).1 < 1000
unfolding new_node restarted_node sent_node send_tx2pool add_txs2pool add_each add_tx2pool stamp
    pack_txs new_block_chain new_storage create_bucket or_create get_newest_block_hash read
    read_found as_raw as_block new_genisis_block add_genisis_block get_tx_tree_root put_txs seal
    header_hash digest add_block add_block_header update_newest_block put put_found get_block lookup
    insert bytes_eq reopen open_trie
sent_node_few = omega arith

hash_fresh : mined_node.current_block.hash ≢ new_node.current_block.hash
unfolding new_node restarted_node open_trie sent_node mined_node send_tx2pool add_txs2pool add_each
    add_tx2pool stamp mine generate_block pack_txs get_update_status_trie update_status current_root
    shard_of_chain commit_status process_txs process_tx sender_in_shard charge credit credit_real
    credit_virtual load_account store_account get_partition_map map_info addr2shard last8 parse_hex
    addr_virtual_account itoa deduct deposit ◌+ℤ◌ ◌-ℤ◌ as_state stage flush flush_found
    chain_add_block append_block new_block_chain new_storage create_bucket or_create
    get_newest_block_hash read read_found as_raw as_block new_genisis_block add_genisis_block
    get_tx_tree_root put_txs seal header_hash digest add_block add_block_header update_newest_block
    put put_found get_block lookup insert bytes_eq reopen
hash_fresh = λ e. cc

small-Run :
    Run sample defaults config mined_node (mined_node.current_block ∷ new_node.current_block ∷ [])
unfolding sent_node
small-Run =
    mined
      (sent
        (restarted
          (created empty_disk no_buckets no_newest (empty-Fits (genesis_header sample))
            new_node-made)
          restarted_node-made)
        (λ i. i) txs)
      9 sent_node-Planned (next-Fits 9 sent_node sent_node_few) mined_node-made (hash_fresh, tt)

Run-IsValid_example :
    IsValid sample defaults config mined_node
      (mined_node.current_block ∷ new_node.current_block ∷ [])
Run-IsValid_example =
    Run-IsValid sample defaults sample_trie sample_database sample_bolt sample_gob config refl
      small-Run

amount_paid : (n : ℕ) (v : ℤ) → some (pos n) ≡ some v → pos 0 ≤ℤ v
amount_paid n v e = ground (arith, e)

bodies-NoNegative :
    All
      (λ (b : Block). All NoNegative b.body)
      (mined_node.current_block ∷ new_node.current_block ∷ [])
unfolding new_node restarted_node open_trie sent_node mined_node send_tx2pool add_txs2pool add_each
    add_tx2pool stamp mine generate_block pack_txs get_update_status_trie update_status current_root
    shard_of_chain commit_status process_txs process_tx sender_in_shard charge credit credit_real
    credit_virtual load_account store_account get_partition_map map_info addr2shard last8 parse_hex
    addr_virtual_account itoa deduct deposit ◌+ℤ◌ ◌-ℤ◌ as_state stage flush flush_found
    chain_add_block append_block new_block_chain new_storage create_bucket or_create
    get_newest_block_hash read read_found as_raw as_block new_genisis_block add_genisis_block
    get_tx_tree_root put_txs seal header_hash digest add_block add_block_header update_newest_block
    put put_found get_block lookup insert bytes_eq reopen
bodies-NoNegative = ((amount_paid 5, (amount_paid 7, (amount_paid 2, tt))), (tt, tt))

Run-IsSolvent_example :
    (v : IsValid sample defaults config mined_node
      (mined_node.current_block ∷ new_node.current_block ∷ []))
    × IsSolvent v.accounts
Run-IsSolvent_example =
    Run-IsSolvent sample defaults sample_trie sample_database sample_bolt sample_gob config refl
      (omega arith) small-Run bodies-NoNegative

query_newest_block-Run_example :
    (db : Buckets) × (init_storage sample (λ name. mined_node.storage) 0 0 ≡ ret db)
    × IsLinked sample defaults db (mined_node.current_block ∷ new_node.current_block ∷ [])
    × (query_newest_block sample (λ name. mined_node.storage) 0 0
        ≡ ret (some mined_node.current_block))
query_newest_block-Run_example =
    query_newest_block-Run sample defaults sample_trie sample_database sample_bolt sample_gob
      (λ name. mined_node.storage) config refl small-Run refl
