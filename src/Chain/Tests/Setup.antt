-- ===== src/Chain/Tests/Setup.antt =====
-- A chain of one block, with three transactions in its pool.
use sharded_blockchain_dashb.Base.Keyed.{bytes_is_eq}
use mathlib.Core.Option.{some-injective}
use sharded_blockchain_dashb.Base.{
  ◌^◌, ◌<◌, ◌≡◌, refl, sym, ◌∙◌, ap, length, true, false, some, List, [], ◌∷◌, arith,
}
use sharded_blockchain_dashb.Base.Keyed.{Bytes, bytes_eq}
use sharded_blockchain_dashb.Base.Dict.{lookup, insert}
use sharded_blockchain_dashb.Base.Int.{pos}
use sharded_blockchain_dashb.Base.Text.{codes, parse_hex, itoa}
use sharded_blockchain_dashb.Base.Outcome.{ret-injective, ret, deref, >>=-eq-ret}
use sharded_blockchain_dashb.Core.{
  Address, Transaction, Time, bare_transaction, BlockHeader, Block, ChainConfig,
}
use sharded_blockchain_dashb.Address.{addr2shard, last8, addr_virtual_account}
use sharded_blockchain_dashb.Pool.{pack_txs}
use sharded_blockchain_dashb.Backend.Sample.{
  sample, zeros, block, header, raw, digest, open_trie, reopen, read, read_found, as_block, as_raw,
  InBuckets, Buckets,
}
use sharded_blockchain_dashb.Storage.{
  block_bucket, block_header_bucket, newest_block_hash_bucket, only_newest_block, get_block,
  get_newest_block_hash,
}
use sharded_blockchain_dashb.Storage.Laws.{IsOpen, Fits}
use sharded_blockchain_dashb.Chain.{defaults, BlockChain}
use sharded_blockchain_dashb.Chain.Partition.{get_partition_map, map_info}
use sharded_blockchain_dashb.Chain.Ledger.{Transfer, plans, plan, is_mine, destination}
use sharded_blockchain_dashb.Chain.Commit.{IsSound, Commits, shard_now}
use sharded_blockchain_dashb.Chain.Blocks.{
  header_hash, seal, get_tx_tree_root, generated_header, generate_block,
}
use sharded_blockchain_dashb.Chain.Blocks.Generate.{IsGood, EmptyFits, NextFits}
use sharded_blockchain_dashb.Chain.Status.{get_update_status_trie}
use sharded_blockchain_dashb.Chain.Blocks.Restart.{no_accounts}

-- in shard 0, in shard 0, and in shard 1
abbrev pub alice : Address
alice = codes "a0000000"

abbrev pub bob : Address
bob = codes "b0000000"

abbrev pub carol : Address
carol = codes "c0000001"

abbrev pub pay_bob : Transaction
pay_bob = bare_transaction alice bob (some (pos 5)) 0

abbrev pub pay_carol : Transaction
pay_carol = bare_transaction bob carol (some (pos 7)) 0

abbrev pub from_carol : Transaction
from_carol = bare_transaction carol alice (some (pos 2)) 0

abbrev pub txs : List Transaction
txs = pay_bob ∷ pay_carol ∷ from_carol ∷ []

abbrev pub transfers : List Transfer
transfers =
    record { from = alice; to = bob; amount = pos 5; mine = true; to_init = pos (10 ^ 45) }
    ∷ record { from = bob; to = codes "c00000010"; amount = pos 7; mine = true; to_init = pos 0 }
    ∷ record { from = carol; to = alice; amount = pos 2; mine = false; to_init = pos (10 ^ 45) }
    ∷ []

abbrev pub genesis : BlockHeader
genesis = record {
  parent_block_hash = [];
  state_root = [];
  tx_root = [];
  number = 0;
  time = 0;
  miner = 0;
  all_state_root = [];
  tx_num = 0;
}

abbrev pub genesis_hash : Bytes
genesis_hash = zeros 32

abbrev pub genesis_block : Block
genesis_block = record { header = some genesis; body = []; hash = genesis_hash }

abbrev pub config : ChainConfig
config = record {
  chain_id = 0;
  node_id = 0;
  shard_id = 0;
  nodes_per_shard = 2;
  shard_nums = 4;
  block_size = 6000;
  block_interval = 5000;
  inject_speed = 5000;
  max_relay_block_size = 0;
}

abbrev pub buckets : Buckets
buckets =
    (block_bucket, (genesis_hash, block genesis_block) ∷ [])
    ∷ (block_header_bucket, (genesis_hash, header genesis) ∷ [])
    ∷ (newest_block_hash_bucket, (only_newest_block, raw genesis_hash) ∷ [])
    ∷ []

abbrev pub chain : BlockChain sample
chain = record {
  trie_db = record { memory = []; disk = [] };
  chain_config = config;
  current_block = genesis_block;
  storage = buckets;
  txpool = record { tx_queue = txs; relay_pool = some [] };
  partition_map = [];
  all_state_map_tx = [];
  flag = false;
}

pub chain-IsOpen : IsOpen sample buckets
unfolding InBuckets lookup bytes_eq
chain-IsOpen = record {
  blocks = ((genesis_hash, block genesis_block) ∷ [], refl);
  headers = ((genesis_hash, header genesis) ∷ [], refl);
  newest = ((only_newest_block, raw genesis_hash) ∷ [], refl);
}

pub chain-IsSound : IsSound sample chain.trie_db [] no_accounts
unfolding open_trie reopen lookup
chain-IsSound = record {
  trie = [];
  holds = record {
    running = record { opened = []; opens = refl; holds = λ k. refl };
    restarted = record { opened = []; opens = refl; holds = λ k. refl };
  };
  readable = λ a b e. cc;
  shows = refl;
  is_hash = refl;
}

pub chain-IsGood : IsGood sample chain genesis no_accounts
unfolding get_block get_newest_block_hash read read_found as_block as_raw lookup bytes_eq
chain-IsGood = record {
  top = refl;
  storage_open = chain-IsOpen;
  newest_is = refl;
  stored = refl;
  sound = chain-IsSound;
}

pub txs-plans : plans defaults (shard_now sample chain) txs ≡ ret transfers
unfolding plans plan is_mine destination get_partition_map map_info lookup insert bytes_eq
    addr2shard last8 parse_hex addr_virtual_account itoa
txs-plans = refl

pub txs-Commits : Commits sample defaults chain txs
txs-Commits st p e ne = tt

pub txs-packed : (pack_txs chain.txpool 6000).1 ≡ txs
unfolding pack_txs
txs-packed = refl

-- a sealed block of few transactions fits
pub sealed-Fits :
    (h : BlockHeader) (txs : List Transaction) (b : Block)
    → length txs < 1000
    → seal sample h txs ≡ ret b
    → Fits sample b h
unfolding seal header_hash digest
sealed-Fits h txs b few made =
    let same = ret-injective made in
    let long : 32 ≡ length b.hash = ap (λ (k : Block). length k.hash) same in
    let body : length txs ≡ length b.body = ap (λ (k : Block). length k.body) same in
    record {
      header_is = ap (λ (k : Block). k.header) (sym same);
      hash_some = omega (arith, long);
      hash_short = omega (arith, long);
      block_small = λ enc e. ground (arith, few, body, e);
      header_small = λ enc e. ground (arith, e);
      hash_small = omega (arith, long);
    }

pub empty-Fits : (make : Bytes → BlockHeader) → EmptyFits sample make
empty-Fits make tx_root b roots seals = sealed-Fits (make tx_root) [] b (omega arith) seals

pub next-Fits :
    (now : Time) (bc : BlockChain sample)
    → length (pack_txs bc.txpool bc.chain_config.block_size).1 < 1000
    → NextFits sample defaults now bc
unfolding generate_block
next-Fits now bc few bc' b h made top =
    let txs = (pack_txs bc.txpool bc.chain_config.block_size).1 in
    let (parent, _, e1) = >>=-eq-ret (deref bc.current_block.header) _ made in
    let (updated, _, e2) = >>=-eq-ret (get_update_status_trie sample defaults _ txs) _ e1 in
    let (tx_root, _, e3) = >>=-eq-ret (get_tx_tree_root sample txs) _ e2 in
    let h0 = generated_header sample now bc.current_block parent txs updated.1 tx_root in
    let (b0, seals, e4) = >>=-eq-ret (seal sample h0 txs) _ e3 in
    let same : b0 ≡ b = ap (λ r. r.1) (ret-injective e4) in
    let fits = sealed-Fits h0 txs b0 few seals in
    let header : h0 ≡ h =
      some-injective h0 h (sym fits.header_is ∙ ap (λ (k : Block). k.header) same ∙ top) in
    rw (← same, ← header) fits
