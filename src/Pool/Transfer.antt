-- ===== src/Pool/Transfer.antt =====
-- `TransferTxs` of core/txpool.go, against filters of the queue and of the relay pool.
use sharded_blockchain_dashb.Base.Keyed.{nat_eq}
use mathlib.Core.List.{append-nil, append_assoc}
use sharded_blockchain_dashb.Base.{
  ℕ, ◌≡◌, refl, sym, ap, ◌∙◌, Bool, not, List, [], ◌∷◌, ◌++◌, ◌==◌, if◌then◌else◌, keep,
  keep-append, arith, Bool-cases, inl, inr,
}
use sharded_blockchain_dashb.Base.Keyed.{bytes_eq}
use sharded_blockchain_dashb.Base.Dict.{lookup, insert, lookup-insert}
use sharded_blockchain_dashb.Core.{Transaction, Address}
use sharded_blockchain_dashb.Pool.{
  RelayPool, TxPool, read_relay, Transferring, or_empty, relay_entries, split_queue, append_kept,
  split_shard, split_relay, no_transfer, transfer_txs,
}

abbrev pub sent_by : Address → Transaction → Bool
sent_by addr tx = bytes_eq tx.sender addr

abbrev pub not_by : Address → Transaction → Bool
not_by addr tx = not (bytes_eq tx.sender addr)

-- all that the relay pool holds, in the order of its entries
abbrev pub all_relayed : RelayPool → List Transaction
all_relayed [] = []
all_relayed ((shard, txs) ∷ m) = txs ++ all_relayed m

-- all that the relay pool holds for one shard
abbrev pub gather : ℕ → RelayPool → List Transaction
gather j [] = []
gather j ((shard, txs) ∷ m) = (if shard == j then txs else []) ++ gather j m

abbrev no_txs : List Transaction
no_txs = []

split_queue_lem :
    (addr : Address) (txs : List Transaction) (acc : Transferring)
    → split_queue addr txs acc ≡ record acc {
      tx_transfered = acc.tx_transfered ++ keep (sent_by addr) txs;
      new_tx_queue = acc.new_tx_queue ++ keep (not_by addr) txs;
    }
unfolding split_queue
split_queue_lem addr [] acc = simp append-nil
split_queue_lem addr (tx ∷ txs) acc = elim (Bool-cases (bytes_eq tx.sender addr)) [
  | inl mine ↦ rw mine (simp (split_queue_lem addr txs, append_assoc))
  | inr other ↦ rw other (simp (split_queue_lem addr txs, append_assoc))
]

append_kept_lem :
    (shard j : ℕ) (tx : Transaction) (m : RelayPool)
    → or_empty (lookup j (append_kept shard tx m))
      ≡ or_empty (lookup j m) ++ (if shard == j then tx ∷ [] else [])
unfolding append_kept
append_kept_lem shard j tx m = ground (
  arith,
  lookup-insert shard j (or_empty (lookup shard m) ++ tx ∷ []) m,
  lookup-insert shard j (or_empty (lookup shard (insert shard no_txs m)) ++ tx ∷ [])
      (insert shard no_txs m),
  lookup-insert shard j no_txs m,
  lookup-insert shard shard no_txs m,
  append-nil (or_empty (lookup j m)),
)

-- what `split_shard` and `split_relay` leave alone, and what they collect
record Splits (addr : Address) (taken : List Transaction) (kept : ℕ → List Transaction)
    (acc acc' : Transferring) : Type 0 where
  queue : acc'.new_tx_queue ≡ acc.new_tx_queue
  transfered : acc'.tx_transfered ≡ acc.tx_transfered ++ taken
  relay :
      (j : ℕ)
      → or_empty (lookup j acc'.new_relay_pool) ≡ or_empty (lookup j acc.new_relay_pool) ++ kept j

-- the part of one shard's slice that is kept at `j`
abbrev kept_at : Address → ℕ → List Transaction → ℕ → List Transaction
kept_at addr shard txs j = if shard == j then keep (not_by addr) txs else []

module _ {addr : Address} {t u : List Transaction} {k l : ℕ → List Transaction}
    {a b c : Transferring} where
  Splits-trans :
      Splits addr t k a b → Splits addr u l b c → Splits addr (t ++ u) (λ j. k j ++ l j) a c
  Splits-trans p q = record {
    queue = q.queue ∙ p.queue;
    transfered = q.transfered ∙ ap (λ x. x ++ u) p.transfered ∙ append_assoc a.tx_transfered t u;
    relay = λ j.
        q.relay j
        ∙ ap (λ x. x ++ l j) (p.relay j)
        ∙ append_assoc (or_empty (lookup j a.new_relay_pool)) (k j) (l j);
  }

-- one round of `split_shard`
abbrev split_one : Address → ℕ → Transaction → Transferring → Transferring
split_one addr shard tx acc =
    if bytes_eq tx.sender addr
    then record acc { tx_transfered = acc.tx_transfered ++ tx ∷ [] }
    else record acc { new_relay_pool = append_kept shard tx acc.new_relay_pool }

split_one_lem :
    (addr : Address) (shard : ℕ) (tx : Transaction) (acc : Transferring)
    → Splits addr
        (keep (sent_by addr) (tx ∷ []))
        (kept_at addr shard (tx ∷ []))
        acc
        (split_one addr shard tx acc)
split_one_lem addr shard tx acc = elim (Bool-cases (bytes_eq tx.sender addr)) [
  | inl mine ↦ rw mine (record {
    queue = refl;
    transfered = refl;
    relay = λ j. ground (arith, append-nil (or_empty (lookup j acc.new_relay_pool)));
  })
  | inr other ↦ rw other (record {
    queue = refl;
    transfered = sym (append-nil acc.tx_transfered);
    relay = λ j. ground (arith, append_kept_lem shard j tx acc.new_relay_pool);
  })
]

-- the two parts of a slice's filters
keep-cons :
    (p : Transaction → Bool) (tx : Transaction) (txs : List Transaction)
    → keep p (tx ∷ []) ++ keep p txs ≡ keep p (tx ∷ txs)
keep-cons p tx txs = sym (keep-append p (tx ∷ []) txs)

kept_at-cons :
    (addr : Address) (shard : ℕ) (tx : Transaction) (txs : List Transaction) (j : ℕ)
    → kept_at addr shard (tx ∷ []) j ++ kept_at addr shard txs j ≡ kept_at addr shard (tx ∷ txs) j
kept_at-cons addr shard tx txs j = ground (arith, keep-cons (not_by addr) tx txs)

split_shard_lem :
    (addr : Address) (shard : ℕ) (txs : List Transaction) (acc : Transferring)
    → Splits addr
        (keep (sent_by addr) txs)
        (kept_at addr shard txs)
        acc
        (split_shard addr shard txs acc)
unfolding split_shard
split_shard_lem addr shard [] acc = record {
  queue = refl;
  transfered = sym (append-nil acc.tx_transfered);
  relay = λ j. ground (arith, append-nil (or_empty (lookup j acc.new_relay_pool)));
}
split_shard_lem addr shard (tx ∷ txs) acc =
    let both =
      Splits-trans (split_one_lem addr shard tx acc)
        (split_shard_lem addr shard txs (split_one addr shard tx acc)) in
    record {
      queue = both.queue;
      transfered =
          both.transfered ∙ ap (λ t. acc.tx_transfered ++ t) (keep-cons (sent_by addr) tx txs);
      relay = λ j.
          both.relay j
          ∙ ap (λ t. or_empty (lookup j acc.new_relay_pool) ++ t)
              (kept_at-cons addr shard tx txs j);
    }

kept_at-gather :
    (addr : Address) (shard j : ℕ) (txs : List Transaction) (m : RelayPool)
    → kept_at addr shard txs j ++ keep (not_by addr) (gather j m)
      ≡ keep (not_by addr) (gather j ((shard, txs) ∷ m))
kept_at-gather addr shard j txs m = ground (arith, keep-append (not_by addr) txs (gather j m))

split_relay_lem :
    (addr : Address) (m : RelayPool) (acc : Transferring)
    → Splits addr
        (keep (sent_by addr) (all_relayed m))
        (λ j. keep (not_by addr) (gather j m))
        acc
        (split_relay addr m acc)
unfolding split_relay
split_relay_lem addr [] acc = record {
  queue = refl;
  transfered = sym (append-nil acc.tx_transfered);
  relay = λ j. sym (append-nil (or_empty (lookup j acc.new_relay_pool)));
}
split_relay_lem addr ((shard, txs) ∷ m) acc =
    let both =
      Splits-trans (split_shard_lem addr shard txs acc)
        (split_relay_lem addr m (split_shard addr shard txs acc)) in
    record {
      queue = both.queue;
      transfered =
          both.transfered
          ∙ ap (λ t. acc.tx_transfered ++ t) (sym (keep-append (sent_by addr) txs (all_relayed m)));
      relay = λ j.
          both.relay j
          ∙ ap (λ t. or_empty (lookup j acc.new_relay_pool) ++ t)
              (kept_at-gather addr shard j txs m);
    }

-- `TransferTxs` takes out exactly the transactions of the sender, those of the queue first and then
-- those of the relay pool, each in order; the queue, and the queue of each shard, keep exactly the
-- others, in order.
pub transfer_txs_lem :
    (pool : TxPool) (addr : Address)
    → ((transfer_txs pool addr).1
        ≡ keep (sent_by addr) pool.tx_queue
          ++ keep (sent_by addr) (all_relayed (relay_entries pool.relay_pool)))
      × ((transfer_txs pool addr).0.tx_queue ≡ keep (not_by addr) pool.tx_queue)
      × ((j : ℕ)
          → or_empty (read_relay (transfer_txs pool addr).0.relay_pool j)
            ≡ keep (not_by addr) (gather j (relay_entries pool.relay_pool)))
unfolding transfer_txs lookup
transfer_txs_lem pool addr =
    let queued = split_queue addr pool.tx_queue no_transfer in
    let after = split_queue_lem addr pool.tx_queue no_transfer in
    let done = split_relay_lem addr (relay_entries pool.relay_pool) queued in
    (
      done.transfered
          ∙ ap
              (λ (q : Transferring).
                q.tx_transfered
                ++ keep (sent_by addr) (all_relayed (relay_entries pool.relay_pool)))
              after,
      done.queue ∙ ap (λ (q : Transferring). q.new_tx_queue) after,
      λ j.
          done.relay j
          ∙ ap
              (λ (q : Transferring).
                or_empty (lookup j q.new_relay_pool)
                ++ keep (not_by addr) (gather j (relay_entries pool.relay_pool)))
              after,
    )
