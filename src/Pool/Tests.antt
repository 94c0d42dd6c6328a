-- ===== src/Pool/Tests.antt =====
-- The properties of core/txpool.go at concrete pools, and runs of its methods.
use sharded_blockchain_dashb.Base.Keyed.{nat_eq}
use sharded_blockchain_dashb.Base.{
  ℕ, ◌+◌, ◌<◌, ◌≤◌, ◌≡◌, ◌≢◌, ◌⊎◌, refl, min, none, some, List, [], ◌∷◌, ◌++◌, length, keep,
  get_elem?, arith, true, false,
}
use sharded_blockchain_dashb.Base.Keyed.{bytes_eq}
use sharded_blockchain_dashb.Base.Dict.{lookup, insert}
use sharded_blockchain_dashb.Base.Outcome.{ret, panic}
use sharded_blockchain_dashb.Base.Int.{pos}
use sharded_blockchain_dashb.Base.Text.{codes}
use sharded_blockchain_dashb.Core.{Transaction, bare_transaction}
use sharded_blockchain_dashb.Pool.{
  TxPool, RelayPool, or_empty, read_relay, relay_entries, get_tx_queue_len, add_relay_tx,
  clear_relay_pool, pack_relay_txs, transfer_txs, split_queue, split_relay, split_shard,
  append_kept,
}
use sharded_blockchain_dashb.Pool.Queue.Turns.{run_packs}
use sharded_blockchain_dashb.Pool.Queue.{Op, submit, submit_all, pack, run, submitted, run_fifo}
use sharded_blockchain_dashb.Pool.Relay.{add_relay_tx-clear, pack_relay_txs_lem}
use sharded_blockchain_dashb.Pool.Transfer.{sent_by, not_by, all_relayed, gather, transfer_txs_lem}

abbrev tx_a : Transaction
tx_a = bare_transaction (codes "alice") (codes "bob") (some (pos 1)) 0

abbrev tx_b : Transaction
tx_b = bare_transaction (codes "bob") (codes "carol") (some (pos 2)) 0

abbrev relay : RelayPool
relay = (1, tx_a ∷ tx_b ∷ []) ∷ (2, tx_b ∷ []) ∷ []

abbrev pool : TxPool
pool = record { tx_queue = tx_a ∷ tx_b ∷ tx_a ∷ []; relay_pool = some relay }

abbrev ops : List Op
ops = submit 7 tx_b ∷ pack 2 ∷ submit_all (λ i. i + 9) (tx_a ∷ tx_b ∷ []) ∷ pack 3 ∷ []

run_fifo_example : (run pool ops).1 ++ (run pool ops).0.tx_queue ≡ pool.tx_queue ++ submitted ops
run_fifo_example = run_fifo ops pool

run_packs_example : get_elem? (run pool ops).1 2 ≡ some tx_a
unfolding get_tx_queue_len
run_packs_example = run_packs ops pool 2 (omega arith) (omega arith)

add_relay_tx-clear_example : add_relay_tx (clear_relay_pool pool) tx_a 1 ≡ panic
add_relay_tx-clear_example = add_relay_tx-clear pool tx_a 1

pack_relay_txs_lem_example :
    (((lookup 1 relay ≡ none) ⊎ (length (or_empty (lookup 1 relay)) < 1))
      × (pack_relay_txs pool 1 1 1 ≡ ret (pool, [], false)))
    ⊎ ((m' : RelayPool) × (txs : List Transaction) × (1 ≤ length (or_empty (lookup 1 relay)))
        × (pack_relay_txs pool 1 1 1 ≡ ret (record pool { relay_pool = some m' }, txs, true))
        × (txs ++ or_empty (lookup 1 m') ≡ or_empty (lookup 1 relay))
        × (length txs ≡ min 1 (length (or_empty (lookup 1 relay))))
        × ((j : ℕ) → 1 ≢ j → lookup j m' ≡ lookup j relay))
pack_relay_txs_lem_example = pack_relay_txs_lem pool relay 1 1 1 refl (omega arith)

transfer_txs_lem_example :
    ((transfer_txs pool (codes "bob")).1
      ≡ keep (sent_by (codes "bob")) pool.tx_queue
        ++ keep (sent_by (codes "bob")) (all_relayed (relay_entries pool.relay_pool)))
    × ((transfer_txs pool (codes "bob")).0.tx_queue ≡ keep (not_by (codes "bob")) pool.tx_queue)
    × ((j : ℕ)
        → or_empty (read_relay (transfer_txs pool (codes "bob")).0.relay_pool j)
          ≡ keep (not_by (codes "bob")) (gather j (relay_entries pool.relay_pool)))
transfer_txs_lem_example = transfer_txs_lem pool (codes "bob")

transfer_run : (transfer_txs pool (codes "alice")).1 ≡ tx_a ∷ tx_a ∷ tx_a ∷ []
unfolding transfer_txs split_queue split_relay split_shard append_kept bytes_eq lookup insert
transfer_run = refl
