-- ===== src/Dashboard/Transactions/Pages.antt =====
-- Which transactions a page shows.
use mathlib.Core.Option
use sharded_blockchain_dashb.Base.{
  ℕ, zero, suc, ◌+◌, ◌≡◌, refl, ap, ◌∙◌, none, some, List, [], ◌∷◌, inl, inr, Bool-cases, ltb, sym,
  ◌≤◌, length, length-take, get_elem?, take, min, arith,
}
use sharded_blockchain_dashb.Base.Keyed.{Bytes}
use sharded_blockchain_dashb.Base.Int.{ℤ, pos, uint64}
use sharded_blockchain_dashb.Base.Outcome.{ret}
use sharded_blockchain_dashb.Core.{Transaction}
use sharded_blockchain_dashb.Backend.{Backend}
use sharded_blockchain_dashb.Storage.{block_bucket}
use sharded_blockchain_dashb.Query.{init_storage}
use sharded_blockchain_dashb.Query.Scans.{Filled, Decodes, numbered, queries_lem}
use sharded_blockchain_dashb.Dashboard.{IndexedBlock}
use sharded_blockchain_dashb.Dashboard.Store.{ChainStore, query_indexed}
use sharded_blockchain_dashb.Dashboard.Transactions.{
  TransactionView, view_core, view_each, limit_of, build_transaction_views_from_core,
  query_block_transactions,
}

module _ {ℓ} {A : Type ℓ} (view : ℕ → A → TransactionView) where
  length-view_each : (i : ℕ) (txs : List A) → length (view_each view i txs) ≡ length txs
  unfolding view_each
  length-view_each i [] = refl
  length-view_each i (tx ∷ txs) = ap suc (length-view_each (i + 1) txs)

  -- The view at a place is that of the transaction at this place, with the place as its index.
  get_elem?-view_each :
      (i k : ℕ) (txs : List A)
      → get_elem? (view_each view i txs) k ≡ Option.map (view (i + k)) (get_elem? txs k)
  unfolding view_each
  get_elem?-view_each i k [] = refl
  get_elem?-view_each i zero (x ∷ txs) = let same : i + 0 ≡ i = omega arith in rw same refl
  get_elem?-view_each i (suc k) (x ∷ txs) =
      let same : i + suc k ≡ i + 1 + k = omega arith in rw same (get_elem?-view_each (i + 1) k txs)

take_all {ℓ} : {A : Type ℓ} (n : ℕ) (xs : List A) → length xs ≤ n → take n xs ≡ xs
take_all zero [] h = refl
take_all (suc n) [] h = refl
take_all zero (x ∷ xs) h = absurd (omega (arith, h))
take_all (suc n) (x ∷ xs) h = ap (◌∷◌ x) (take_all n xs (omega (arith, h)))

take-limit_of :
    (body : List Transaction) → take (limit_of (pos 100) (length body)) body ≡ take 100 body
take-limit_of body = elim (Bool-cases (ltb (length body) 100)) [
  | inl short ↦
      rw short (
        take_all (length body) body (omega arith) ∙ sym (take_all 100 body (ground (arith, short))))
  | inr long ↦ rw long
]

-- The body of the last block of a number.
abbrev pub body_of : ℕ → List Filled → List Transaction
body_of number bs = elim (numbered number bs) [ none ↦ [] | some b ↦ b.body ]

-- A page shows the first hundred transactions, each in its place.
pub record Shows (page : List TransactionView) (body : List Transaction) : Type 0 where
  pub length_is : length page ≡ min 100 (length body)
  pub views_are :
      (k : ℕ) → get_elem? page k ≡ Option.map (view_core k) (get_elem? (take 100 body) k)

build_transaction_views_from_core-Shows :
    (body : List Transaction) → Shows (build_transaction_views_from_core body (pos 100)) body
unfolding build_transaction_views_from_core
build_transaction_views_from_core-Shows body = rw (take-limit_of body) (record {
  length_is = length-view_each view_core 0 (take 100 body) ∙ length-take 100 body;
  views_are = λ k.
      let start : 0 + k ≡ k = omega arith in
      get_elem?-view_each view_core 0 k (take 100 body)
      ∙ ap (λ n. Option.map (view_core n) (get_elem? (take 100 body) k)) start;
})

-- For a hash that the dashboard knows, on a node whose storage opens with a block bucket that holds
-- blocks with headers: `QueryBlockTransactions` shows the first hundred transactions of the last block
-- of the node that has the height of the hash's block, in order and numbered from 1.
pub query_block_transactions_lem :
    (lib : Backend) (disk : Bytes → lib.Bolt) (s : ChainStore) (shard_id : ℤ) (hash : Bytes)
    (db : lib.Bolt) (bs : List Filled) (block : IndexedBlock)
    → query_indexed s shard_id hash ≡ some block
    → init_storage lib disk (uint64 shard_id) 0 ≡ ret db
    → Decodes lib (lib.entries db block_bucket) bs
    → (page : List TransactionView) × (query_block_transactions lib disk s shard_id hash ≡ ret page)
      × Shows page (body_of block.height bs)
unfolding query_block_transactions
query_block_transactions_lem lib disk s shard_id hash db bs block found o d =
    let answers = queries_lem lib disk (uint64 shard_id) 0 db bs o d in
    (
      build_transaction_views_from_core (body_of block.height bs) (pos 100),
      rw (query_block_transactions, found, answers.txs_are block.height),
      build_transaction_views_from_core-Shows (body_of block.height bs),
    )
