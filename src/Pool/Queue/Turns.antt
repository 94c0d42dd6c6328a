-- ===== src/Pool/Queue/Turns.antt =====
-- Every queued transaction of core/txpool.go gets its turn.
use sharded_blockchain_dashb.Base.{
  ℕ, zero, suc, ◌+◌, min, ◌<◌, ◌≤◌, ◌≡◌, refl, sym, ap, ◌∙◌, List, [], ◌∷◌, ◌++◌, length, get_elem?,
  length-append, arith,
}
use sharded_blockchain_dashb.Pool.{
  TxPool, add_tx2pool, add_txs2pool, pack_txs, get_tx_queue_len, stamp,
}
use sharded_blockchain_dashb.Pool.Queue.{
  Op, submit, submit_all, pack, run, run_fifo, submitted, stamped, pack_txs_lem, add_txs2pool_lem,
}

-- what the packings may take together
abbrev pub pack_limits : List Op → ℕ
pack_limits [] = 0
pack_limits (submit now tx ∷ ops) = pack_limits ops
pack_limits (submit_all clock txs ∷ ops) = pack_limits ops
pack_limits (pack n ∷ ops) = n + pack_limits ops

get_elem?-append {ℓ} :
    {A : Type ℓ} (xs ys : List A) (i : ℕ) → i < length xs → get_elem? (xs ++ ys) i ≡ get_elem? xs i
get_elem?-append [] ys i h = absurd (omega (arith, h))
get_elem?-append (x ∷ xs) ys zero h = refl
get_elem?-append (x ∷ xs) ys (suc i) h = get_elem?-append xs ys i (omega (arith, h))

length-run :
    (ops : List Op) (pool : TxPool)
    → min (pack_limits ops) (get_tx_queue_len pool) ≤ length (run pool ops).1
unfolding run get_tx_queue_len
length-run [] pool = omega arith
length-run (submit now tx ∷ ops) pool =
    let next = length-run ops (add_tx2pool now pool tx) in
    let grown : length (add_tx2pool now pool tx).tx_queue ≡ length pool.tx_queue + 1 =
      unfold add_tx2pool in length-append pool.tx_queue (stamp now tx ∷ []) in
    omega (arith, next, grown)
length-run (submit_all clock txs ∷ ops) pool =
    let next = length-run ops (add_txs2pool clock pool txs) in
    let grown = ap (λ (p : TxPool). length p.tx_queue) (add_txs2pool_lem clock pool txs) in
    let more = length-append pool.tx_queue (stamped clock 0 txs) in omega (arith, next, grown, more)
length-run (pack n ∷ ops) pool =
    let next = length-run ops (pack_txs pool n).0 in
    let taken = (pack_txs_lem pool n).1 in
    let left = (pack_txs_lem pool n).2 in
    let both = length-append (pack_txs pool n).1 (run (pack_txs pool n).0 ops).1 in
    omega (arith, next, taken, left, both)

-- In every interleaving of `AddTx2Pool`, `AddTxs2Pool` and `PackTxs`, the transaction at place `i` of
-- the queue has been packed, as number `i`, once the limits of the packings add up to more than `i`,
-- whatever else was submitted.
pub run_packs :
    (ops : List Op) (pool : TxPool) (i : ℕ)
    → i < get_tx_queue_len pool
    → i < pack_limits ops
    → get_elem? (run pool ops).1 i ≡ get_elem? pool.tx_queue i
unfolding get_tx_queue_len
run_packs ops pool i queued turn =
    sym (
      get_elem?-append (run pool ops).1 (run pool ops).0.tx_queue i
        (omega (arith, length-run ops pool, queued, turn)))
    ∙ ap (λ q. get_elem? q i) (run_fifo ops pool)
    ∙ get_elem?-append pool.tx_queue (submitted ops) i queued
