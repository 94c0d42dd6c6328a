-- ===== src/Pool/Relay.antt =====
-- The relay pool of core/txpool.go, one queue for each shard.
use sharded_blockchain_dashb.Base.Keyed.{nat_eq}
use sharded_blockchain_dashb.Base.{
  ℕ, ◌^◌, ◌≡◌, refl, true, false, none, some, List, [], ◌∷◌, ◌++◌, ltb, ◌==◌, if◌then◌else◌, length,
  take, drop, take-append-drop, length-take, arith, ==_iff, min, Option-cases, Bool-cases, ◌≢◌, ◌<◌,
  ◌≤◌, ◌⊎◌, inl, inr,
}
use sharded_blockchain_dashb.Base.Dict.{lookup, insert, lookup-insert, lookup-insert_self}
use sharded_blockchain_dashb.Base.Outcome.{ret, panic}
use sharded_blockchain_dashb.Core.{Transaction}
use sharded_blockchain_dashb.Pool.{
  RelayPool, TxPool, or_empty, add_relay_tx, clear_relay_pool, pack_relay_txs, pack_found,
  below_int,
}

abbrev no_txs : List Transaction
no_txs = []

-- the pool that `AddRelayTx` leaves, on a map that is not nil
abbrev pub appended : RelayPool → Transaction → ℕ → RelayPool
appended m tx shard =
    insert shard (or_empty (lookup shard m) ++ tx ∷ [])
      (elim (lookup shard m) [ none ↦ insert shard [] m | some _ ↦ m ])

-- On a map that is not nil `AddRelayTx` returns: the transaction is the last of its shard's queue,
-- and every other shard's queue and the transaction queue are as before.
pub add_relay_tx_lem :
    (pool : TxPool) (m : RelayPool) (tx : Transaction) (shard : ℕ)
    → pool.relay_pool ≡ some m
    → (m' : RelayPool) × (add_relay_tx pool tx shard ≡ ret (record pool { relay_pool = some m' }))
      × ((j : ℕ)
          → lookup j m'
            ≡ (if shard == j then some (or_empty (lookup shard m) ++ tx ∷ []) else lookup j m))
unfolding add_relay_tx
add_relay_tx_lem pool m tx shard h = (
  appended m tx shard,
  ground (arith, lookup-insert shard shard no_txs m),
  λ j. ground (
    arith,
    lookup-insert shard j (or_empty (lookup shard m) ++ tx ∷ []) m,
    lookup-insert shard j (or_empty (lookup shard m) ++ tx ∷ []) (insert shard [] m),
    lookup-insert shard j no_txs m,
  ),
)

-- After `ClearRelayPool` every `AddRelayTx` panics, since it writes to a nil map.
pub add_relay_tx-clear :
    (pool : TxPool) (tx : Transaction) (shard : ℕ)
    → add_relay_tx (clear_relay_pool pool) tx shard ≡ panic
unfolding add_relay_tx clear_relay_pool
add_relay_tx-clear pool tx shard = refl

-- On a map that is not nil, and with `min_size` below 2^63, `PackRelayTxs` returns. It refuses, and
-- changes nothing, exactly when the shard has no queue or fewer than `min_size` transactions; otherwise
-- it takes the oldest, as many as there are up to `max_size`, leaves the others in order, and touches
-- no other shard.
pub pack_relay_txs_lem :
    (pool : TxPool) (m : RelayPool) (shard min_size max_size : ℕ)
    → pool.relay_pool ≡ some m
    → min_size < 2 ^ 63
    → (((lookup shard m ≡ none) ⊎ (length (or_empty (lookup shard m)) < min_size))
        × (pack_relay_txs pool shard min_size max_size ≡ ret (pool, [], false)))
      ⊎ ((m' : RelayPool) × (txs : List Transaction) × (min_size
            ≤ length (or_empty (lookup shard m)))
          × (pack_relay_txs pool shard min_size max_size
              ≡ ret (record pool { relay_pool = some m' }, txs, true))
          × (txs ++ or_empty (lookup shard m') ≡ or_empty (lookup shard m))
          × (length txs ≡ min max_size (length (or_empty (lookup shard m))))
          × ((j : ℕ) → shard ≢ j → lookup j m' ≡ lookup j m))
unfolding pack_relay_txs pack_found
pack_relay_txs_lem pool m shard min_size max_size h small = elim (Option-cases (lookup shard m)) [
  | inl missing ↦ inl (inl missing, ground arith)
  | inr (txs, found) ↦ elim (Bool-cases (below_int (length txs) min_size)) [
    | inl few ↦ inl (inr (ground arith), ground arith)
    | inr many ↦
        let k = if ltb (length txs) max_size then length txs else max_size in
        inr (
          insert shard (drop k txs) m,
          take k txs,
          ground arith,
          ground arith,
          ground (arith, lookup-insert_self shard (drop k txs) m, take-append-drop k txs),
          ground (arith, length-take k txs),
          λ j ne. ground (arith, lookup-insert shard j (drop k txs) m, ==_iff shard j),
        )
  ]
]
