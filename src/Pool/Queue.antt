-- ===== src/Pool/Queue.antt =====
-- The transaction queue of core/txpool.go is first in, first out.
pub mod Turns
use mathlib.Core.List.{append-nil, append_assoc}
use sharded_blockchain_dashb.Base.{
  ℕ, ◌+◌, ◌-◌, min, ◌≡◌, refl, sym, ap, ◌∙◌, List, [], ◌∷◌, ◌++◌, ltb, if◌then◌else◌, length,
  take-append-drop, length-take, length-drop, length-append, take-append, arith, Bool-cases, inl,
  inr,
}
use sharded_blockchain_dashb.Core.{Transaction, Time, is_zero}
use sharded_blockchain_dashb.Pool.{
  TxPool, stamp, add_tx2pool, add_each, add_txs2pool, add_txs2pool_head, pack_txs, get_tx_queue_len,
}

-- `PackTxs` takes the oldest transactions, as many as there are up to the limit, in order, and leaves
-- the others in order; the relay pool stays.
pub pack_txs_lem :
    (pool : TxPool) (n : ℕ)
    → ((pack_txs pool n).1 ++ (pack_txs pool n).0.tx_queue ≡ pool.tx_queue)
      × (length (pack_txs pool n).1 ≡ min n (get_tx_queue_len pool))
      × (get_tx_queue_len (pack_txs pool n).0 ≡ get_tx_queue_len pool - n)
      × ((pack_txs pool n).0.relay_pool ≡ pool.relay_pool)
unfolding pack_txs get_tx_queue_len
pack_txs_lem pool n =
    let k = if ltb (length pool.tx_queue) n then length pool.tx_queue else n in
    (
      take-append-drop k pool.tx_queue,
      ground (arith, length-take k pool.tx_queue),
      ground (arith, length-drop k pool.tx_queue),
      refl,
    )

-- what `AddTxs2Pool` appends
abbrev pub stamped : (ℕ → Time) → ℕ → List Transaction → List Transaction
stamped clock i [] = []
stamped clock i (tx ∷ txs) = stamp (clock i) tx ∷ stamped clock (i + 1) txs

add_each_lem :
    (clock : ℕ → Time) (i : ℕ) (pool : TxPool) (txs : List Transaction)
    → add_each clock i pool txs ≡ record pool { tx_queue = pool.tx_queue ++ stamped clock i txs }
unfolding add_each
add_each_lem clock i pool [] =
    ap (λ q. record pool { tx_queue = q }) (sym (append-nil pool.tx_queue))
add_each_lem clock i pool (tx ∷ txs) =
    add_each_lem clock (i + 1) (add_tx2pool (clock i) pool tx) txs
    ∙ ap (λ q. record pool { tx_queue = q })
        (append_assoc pool.tx_queue (stamp (clock i) tx ∷ []) (stamped clock (i + 1) txs))

pub add_txs2pool_lem :
    (clock : ℕ → Time) (pool : TxPool) (txs : List Transaction)
    → add_txs2pool clock pool txs ≡ record pool { tx_queue = pool.tx_queue ++ stamped clock 0 txs }
unfolding add_txs2pool
add_txs2pool_lem clock pool txs = add_each_lem clock 0 pool txs

-- A submission or a packing, as callers interleave them under the lock.
pub data Op : Type 0 where
  submit : Time → Transaction → Op
  submit_all : (ℕ → Time) → List Transaction → Op
  pack : ℕ → Op

-- the pool after the steps, and all that they packed, in order
pub run : TxPool → List Op → TxPool × List Transaction
run pool [] = (pool, [])
run pool (submit now tx ∷ ops) = run (add_tx2pool now pool tx) ops
run pool (submit_all clock txs ∷ ops) = run (add_txs2pool clock pool txs) ops
run pool (pack n ∷ ops) =
    let (pool', txs) = pack_txs pool n in let (last, later) = run pool' ops in (last, txs ++ later)

abbrev pub submitted : List Op → List Transaction
submitted [] = []
submitted (submit now tx ∷ ops) = stamp now tx ∷ submitted ops
submitted (submit_all clock txs ∷ ops) = stamped clock 0 txs ++ submitted ops
submitted (pack n ∷ ops) = submitted ops

-- In every interleaving of `AddTx2Pool`, `AddTxs2Pool` and `PackTxs`, what was packed, followed by
-- what is still queued, is what was queued at the start followed by what was submitted: no
-- transaction is lost, doubled or reordered.
pub run_fifo :
    (ops : List Op) (pool : TxPool)
    → (run pool ops).1 ++ (run pool ops).0.tx_queue ≡ pool.tx_queue ++ submitted ops
unfolding run
run_fifo [] pool = sym (append-nil pool.tx_queue)
run_fifo (submit now tx ∷ ops) pool =
    run_fifo ops (add_tx2pool now pool tx)
    ∙ (unfold add_tx2pool in append_assoc pool.tx_queue (stamp now tx ∷ []) (submitted ops))
run_fifo (submit_all clock txs ∷ ops) pool =
    run_fifo ops (add_txs2pool clock pool txs)
    ∙ ap (λ (p : TxPool). p.tx_queue ++ submitted ops) (add_txs2pool_lem clock pool txs)
    ∙ append_assoc pool.tx_queue (stamped clock 0 txs) (submitted ops)
run_fifo (pack n ∷ ops) pool =
    append_assoc (pack_txs pool n).1 (run (pack_txs pool n).0 ops).1 _
    ∙ ap (λ q. (pack_txs pool n).1 ++ q) (run_fifo ops (pack_txs pool n).0)
    ∙ sym (append_assoc (pack_txs pool n).1 (pack_txs pool n).0.tx_queue (submitted ops))
    ∙ ap (λ q. q ++ submitted ops) (pack_txs_lem pool n).0

-- Transactions put at the head are packed before all that was queued.
pub pack-add_head :
    (pool : TxPool) (txs : List Transaction)
    → (pack_txs (add_txs2pool_head pool txs) (length txs)).1 ≡ txs
unfolding pack_txs add_txs2pool_head
pack-add_head pool txs = elim (Bool-cases (ltb (length (txs ++ pool.tx_queue)) (length txs))) [
  | inl short ↦ absurd (ground (arith, length-append txs pool.tx_queue))
  | inr enough ↦ rw enough (take-append txs pool.tx_queue)
]

-- A submitted transaction whose time was set keeps it, and one whose time was not set gets the
-- clock's; all else of it is kept.
pub stamp_time :
    (now : Time) (tx : Transaction)
    → ((stamp now tx).time ≡ (if is_zero tx.time then now else tx.time))
      × (record (stamp now tx) { time = tx.time } ≡ tx)
unfolding stamp
stamp_time now tx = ground arith
