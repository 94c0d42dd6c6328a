-- ===== src/Dashboard/Store/Snapshots.antt =====
-- What `QueryShards` and `Snapshot` say of all the shards together.
use sharded_blockchain_dashb.Base.{
  ℕ, ◌+◌, ◌≡◌, refl, ◌∙◌, sym, Option, some, List, [], ◌∷◌, ◌++◌, inl, inr, Bool-cases, All,
  if◌then◌else◌, length, length-map, map, arith,
}
use sharded_blockchain_dashb.Base.Dict.{Dict}
use sharded_blockchain_dashb.Base.Int.{ℤ, ltb_ℤ, ◌≤ℤ◌, ≤ℤ_trans}
use sharded_blockchain_dashb.Dashboard.{
  BlockView, ShardStore, total_txs, earliest, is_zero_raw, earlier,
}
use sharded_blockchain_dashb.Dashboard.Genesis.{IsEarliest, earliest_lem}
use sharded_blockchain_dashb.Dashboard.Store.{
  ChainStore, ShardView, StatView, shard_view, insert_shard, sort_shards, query_shards, Totals,
  add_shard, no_totals, snapshot,
}

-- Ids never fall.
abbrev pub AreSorted : Dict ℤ ShardStore → Type 0
AreSorted [] = Unit
AreSorted (e ∷ es) = All (λ d. e.0 ≤ℤ d.0) es × AreSorted es

-- A sum over the shards of a store. Two lists with the same sums hold the same shards.
abbrev pub sum_of : (ℤ × ShardStore → ℕ) → Dict ℤ ShardStore → ℕ
sum_of f [] = 0
sum_of f (e ∷ es) = f e + sum_of f es

sum_of-insert_shard :
    (f : ℤ × ShardStore → ℕ) (e : ℤ × ShardStore) (es : Dict ℤ ShardStore)
    → sum_of f (insert_shard e es) ≡ f e + sum_of f es
unfolding insert_shard
sum_of-insert_shard f e [] = refl
sum_of-insert_shard f e (d ∷ ds) = elim (Bool-cases (ltb_ℤ d.0 e.0)) [
  | inl less ↦ rw less (omega (arith, sum_of-insert_shard f e ds))
  | inr not_less ↦ rw not_less refl
]

sum_of-sort_shards :
    (f : ℤ × ShardStore → ℕ) (es : Dict ℤ ShardStore) → sum_of f (sort_shards es) ≡ sum_of f es
unfolding sort_shards
sum_of-sort_shards f [] = refl
sum_of-sort_shards f (e ∷ es) =
    omega (arith, sum_of-insert_shard f e (sort_shards es), sum_of-sort_shards f es)

All-insert_shard :
    (n : ℤ) (e : ℤ × ShardStore) (es : Dict ℤ ShardStore)
    → n ≤ℤ e.0
    → All (λ d. n ≤ℤ d.0) es
    → All (λ d. n ≤ℤ d.0) (insert_shard e es)
unfolding insert_shard
All-insert_shard n e [] h a = (h, tt)
All-insert_shard n e (d ∷ ds) h (b, bs) = elim (Bool-cases (ltb_ℤ d.0 e.0)) [
  | inl less ↦ rw less (b, All-insert_shard n e ds h bs)
  | inr not_less ↦ rw not_less (h, (b, bs))
]

All-lower :
    (n m : ℤ) (es : Dict ℤ ShardStore) → n ≤ℤ m → All (λ d. m ≤ℤ d.0) es → All (λ d. n ≤ℤ d.0) es
All-lower n m [] h a = tt
All-lower n m (e ∷ es) h (b, bs) = (≤ℤ_trans n m e.0 h b, All-lower n m es h bs)

insert_shard-AreSorted :
    (e : ℤ × ShardStore) (es : Dict ℤ ShardStore) → AreSorted es → AreSorted (insert_shard e es)
unfolding insert_shard
insert_shard-AreSorted e [] h = (tt, tt)
insert_shard-AreSorted e (d ∷ ds) (below, h) = elim (Bool-cases (ltb_ℤ d.0 e.0)) [
  | inl less ↦
      rw less
        (All-insert_shard d.0 e ds (ground (arith, less)) below, insert_shard-AreSorted e ds h)
  | inr not_less ↦
      let low : e.0 ≤ℤ d.0 = ground (arith, not_less) in
      rw not_less ((low, All-lower e.0 d.0 ds low below), (below, h))
]

sort_shards-AreSorted : (es : Dict ℤ ShardStore) → AreSorted (sort_shards es)
unfolding sort_shards
sort_shards-AreSorted [] = tt
sort_shards-AreSorted (e ∷ es) =
    insert_shard-AreSorted e (sort_shards es) (sort_shards-AreSorted es)

views_of : Dict ℤ ShardStore → List ShardView
views_of es = map (λ e. shard_view e.0 e.1) es

-- the blocks of the shards, one after the other
abbrev pub blocks_of : Dict ℤ ShardStore → List BlockView
blocks_of [] = []
blocks_of ((id, s) ∷ es) = s.blocks ++ blocks_of es

earliest-append :
    (g : Option ℤ) (xs ys : List BlockView) → earliest g (xs ++ ys) ≡ earliest (earliest g xs) ys
unfolding earliest
earliest-append g [] ys = refl
earliest-append g (v ∷ xs) ys =
    earliest-append (if is_zero_raw v.timestamp_raw then g else some (earlier g v.timestamp_raw)) xs
      ys

-- The totals, from `t` on.
add_shard_lem :
    (t : Totals) (es : Dict ℤ ShardStore)
    → ((add_shard t (views_of es)).txs ≡ t.txs + sum_of (λ d. total_txs d.1.blocks) es)
      × ((add_shard t (views_of es)).blocks ≡ t.blocks + sum_of (λ d. length d.1.blocks) es)
      × ((add_shard t (views_of es)).genesis ≡ earliest t.genesis (blocks_of es))
unfolding add_shard views_of earliest
add_shard_lem t [] = (omega arith, omega arith, refl)
add_shard_lem t ((id, s) ∷ es) =
    let u : Totals = record {
      txs = t.txs + total_txs s.blocks;
      blocks = t.blocks + length s.blocks;
      genesis = earliest t.genesis s.blocks;
    } in
    let (txs, blocks, genesis) = add_shard_lem u es in
    (
      omega (arith, txs),
      omega (arith, blocks),
      genesis ∙ sym (earliest-append t.genesis s.blocks (blocks_of es)),
    )

-- The statistics and views of a store, with its shards in the order `es`.
pub record Describes (s : ChainStore) (stat : StatView) (views : List ShardView)
    (es : Dict ℤ ShardStore) : Type 0 where
  pub sorted : AreSorted es
  pub same : (f : ℤ × ShardStore → ℕ) → sum_of f es ≡ sum_of f s.shards
  pub views_are : views ≡ map (λ e. shard_view e.0 e.1) es
  pub txs_are : stat.total_transactions ≡ sum_of (λ d. total_txs d.1.blocks) s.shards
  pub blocks_are : stat.block_count ≡ sum_of (λ d. length d.1.blocks) s.shards
  pub shards_are : stat.shard_count ≡ sum_of (λ _. 1) s.shards
  pub users_are : stat.user_count ≡ s.user_count
  pub size_is : stat.blockchain_size_bytes ≡ s.size_bytes
  pub genesis_is : IsEarliest stat.genesis (blocks_of es)

length-sum_of : (es : Dict ℤ ShardStore) → length es ≡ sum_of (λ _. 1) es
length-sum_of [] = refl
length-sum_of (e ∷ es) = omega (arith, length-sum_of es)

-- `Snapshot` views the shards of the store by rising id, each shard once; its numbers of shards,
-- blocks and transactions are those of all the shards of the store together, and its genesis time is
-- the earliest of the raw times of their blocks that are not 0, and none where all of them are 0.
pub snapshot_lem :
    (s : ChainStore) → Describes s (snapshot s).0 (snapshot s).1 (sort_shards s.shards)
unfolding snapshot query_shards views_of
snapshot_lem s =
    let es = sort_shards s.shards in
    let (txs, blocks, genesis) = add_shard_lem no_totals es in
    record {
      sorted = sort_shards-AreSorted s.shards;
      same = λ f. sum_of-sort_shards f s.shards;
      views_are = refl;
      txs_are = omega (arith, txs, sum_of-sort_shards (λ d. total_txs d.1.blocks) s.shards);
      blocks_are = omega (arith, blocks, sum_of-sort_shards (λ d. length d.1.blocks) s.shards);
      shards_are =
          length-map es (λ e. shard_view e.0 e.1)
          ∙ length-sum_of es
          ∙ sum_of-sort_shards (λ _. 1) s.shards;
      users_are = refl;
      size_is = refl;
      genesis_is = rw genesis (earliest_lem (blocks_of es));
    }
