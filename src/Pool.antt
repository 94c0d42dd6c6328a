-- ===== src/Pool.antt =====
-- core/txpool.go: the transaction queue and the relay pool. Each method runs under the pool's lock,
-- so it is one step on the pool's state. `RelayPool` is nil after `ClearRelayPool`; a nil map reads
-- as empty and panics when written.
pub mod Queue
pub mod Relay
pub mod Transfer
mod Tests
use sharded_blockchain_dashb.Base.Keyed.{nat_eq}
use sharded_blockchain_dashb.Base.{
  ℕ, ◌+◌, ◌^◌, Bool, true, false, ◌&&◌, Option, none, some, List, [], ◌∷◌, ◌++◌, ltb, if◌then◌else◌,
  length, take, drop,
}
use sharded_blockchain_dashb.Base.Keyed.{bytes_eq}
use sharded_blockchain_dashb.Base.Dict.{Dict, lookup, insert}
use sharded_blockchain_dashb.Base.Outcome.{Outcome, ret, panic, ◌>>=◌}
use sharded_blockchain_dashb.Core.{Transaction, Time, is_zero, Address}

abbrev pub RelayPool : Type 0
RelayPool = Dict ℕ (List Transaction)

pub record TxPool : Type 0 where
  pub tx_queue : List Transaction
  pub relay_pool : Option RelayPool

abbrev pub new_tx_pool : TxPool
new_tx_pool = record { tx_queue = []; relay_pool = some [] }

-- `tx.Time = time.Now()` where the time is not set; `now` is what the clock shows
unfoldable pub stamp : Time → Transaction → Transaction
stamp now tx = if is_zero tx.time then record tx { time = now } else tx

unfoldable pub add_tx2pool : Time → TxPool → Transaction → TxPool
unfolding stamp
add_tx2pool now pool tx = record pool { tx_queue = pool.tx_queue ++ stamp now tx ∷ [] }

-- the loop of `AddTxs2Pool`; `clock i` is what `time.Now` shows in round `i`
unfoldable pub add_each : (ℕ → Time) → ℕ → TxPool → List Transaction → TxPool
unfolding add_tx2pool
add_each clock i pool [] = pool
add_each clock i pool (tx ∷ txs) = add_each clock (i + 1) (add_tx2pool (clock i) pool tx) txs

unfoldable pub add_txs2pool : (ℕ → Time) → TxPool → List Transaction → TxPool
unfolding add_each
add_txs2pool clock pool txs = add_each clock 0 pool txs

pub add_txs2pool_head : TxPool → List Transaction → TxPool
add_txs2pool_head pool txs = record pool { tx_queue = txs ++ pool.tx_queue }

unfoldable pub pack_txs : TxPool → ℕ → TxPool × List Transaction
pack_txs pool max_txs =
    let tx_num = if ltb (length pool.tx_queue) max_txs then length pool.tx_queue else max_txs in
    (record pool { tx_queue = drop tx_num pool.tx_queue }, take tx_num pool.tx_queue)

-- reading a possibly nil map
abbrev pub read_relay : Option RelayPool → ℕ → Option (List Transaction)
read_relay none shard = none
read_relay (some m) shard = lookup shard m

-- writing a possibly nil map
abbrev pub write_relay : Option RelayPool → ℕ → List Transaction → Outcome RelayPool
write_relay none shard txs = panic
write_relay (some m) shard txs = ret (insert shard txs m)

-- what indexing the map gives: the zero value, an empty slice, on a missing key
abbrev pub or_empty : Option (List Transaction) → List Transaction
or_empty none = []
or_empty (some txs) = txs

abbrev is_some : Option (List Transaction) → Bool
is_some none = false
is_some (some _) = true

-- the body of `AddRelayTx`, on the map
pub append_relay : Option RelayPool → Transaction → ℕ → Outcome RelayPool
append_relay relay tx shard =
    if is_some (read_relay relay shard)
    then write_relay relay shard (or_empty (read_relay relay shard) ++ tx ∷ [])
    else (do
      made ← write_relay relay shard []
      write_relay (some made) shard (or_empty (lookup shard made) ++ tx ∷ []))

pub add_relay_tx : TxPool → Transaction → ℕ → Outcome TxPool
unfolding append_relay
add_relay_tx pool tx shard = do
  relay ← append_relay pool.relay_pool tx shard
  ret (record pool { relay_pool = some relay })

pub get_tx_queue_len : TxPool → ℕ
get_tx_queue_len pool = length pool.tx_queue

pub clear_relay_pool : TxPool → TxPool
clear_relay_pool pool = record pool { relay_pool = none }

-- `n < int(m)`: the conversion of a `uint64` from 2^63 on is negative
abbrev pub below_int : ℕ → ℕ → Bool
below_int n m = ltb m (2 ^ 63) && ltb n m

-- `PackRelayTxs` behind its first test
pub pack_found :
    TxPool → ℕ → ℕ → ℕ → Option (List Transaction) → Outcome (TxPool × List Transaction × Bool)
pack_found pool shard min_size max_size none = ret (pool, [], false)
pack_found pool shard min_size max_size (some txs) =
    let tx_num = if ltb (length txs) max_size then length txs else max_size in
    if below_int (length txs) min_size then ret (pool, [], false) else (do
      relay ← write_relay pool.relay_pool shard (drop tx_num txs)
      ret (record pool { relay_pool = some relay }, take tx_num txs, true))

pub pack_relay_txs : TxPool → ℕ → ℕ → ℕ → Outcome (TxPool × List Transaction × Bool)
unfolding pack_found
pack_relay_txs pool shard min_size max_size =
    pack_found pool shard min_size max_size (read_relay pool.relay_pool shard)

-- The slices and the new map that `TransferTxs` builds.
pub record Transferring : Type 0 where
  pub tx_transfered : List Transaction
  pub new_tx_queue : List Transaction
  pub new_relay_pool : RelayPool

-- the first loop, over the queue
pub split_queue : Address → List Transaction → Transferring → Transferring
split_queue addr [] acc = acc
split_queue addr (tx ∷ txs) acc = split_queue addr txs (
    if bytes_eq tx.sender addr
    then record acc { tx_transfered = acc.tx_transfered ++ tx ∷ [] }
    else record acc { new_tx_queue = acc.new_tx_queue ++ tx ∷ [] })

-- make the shard's slice if it is missing, then append
pub append_kept : ℕ → Transaction → RelayPool → RelayPool
append_kept shard tx m =
    let made = if is_some (lookup shard m) then m else insert shard [] m in
    insert shard (or_empty (lookup shard made) ++ tx ∷ []) made

-- the loop over one shard's slice
pub split_shard : Address → ℕ → List Transaction → Transferring → Transferring
unfolding append_kept
split_shard addr shard [] acc = acc
split_shard addr shard (tx ∷ txs) acc = split_shard addr shard txs (
    if bytes_eq tx.sender addr
    then record acc { tx_transfered = acc.tx_transfered ++ tx ∷ [] }
    else record acc { new_relay_pool = append_kept shard tx acc.new_relay_pool })

-- the loop over the relay pool, in the order in which the map is iterated
pub split_relay : Address → RelayPool → Transferring → Transferring
unfolding split_shard
split_relay addr [] acc = acc
split_relay addr ((shard, txs) ∷ m) acc = split_relay addr m (split_shard addr shard txs acc)

abbrev relay_entries : Option RelayPool → RelayPool
relay_entries none = []
relay_entries (some m) = m

abbrev no_transfer : Transferring
no_transfer = record { tx_transfered = []; new_tx_queue = []; new_relay_pool = [] }

-- Go iterates a map in any order; here it is the order in which the relay pool lists its entries.
pub transfer_txs : TxPool → Address → TxPool × List Transaction
unfolding split_queue split_relay
transfer_txs pool addr =
    let queued = split_queue addr pool.tx_queue no_transfer in
    let done = split_relay addr (relay_entries pool.relay_pool) queued in
    (
      record { tx_queue = done.new_tx_queue; relay_pool = some done.new_relay_pool },
      done.tx_transfered,
    )
