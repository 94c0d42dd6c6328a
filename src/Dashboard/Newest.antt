-- ===== src/Dashboard/Newest.antt =====
-- The newest of a shard's views, and what `loadShardStores` loads.
use sharded_blockchain_dashb.Base.{
  ℕ, ◌+◌, ◌≤◌, ◌≡◌, refl, ap, ◌∙◌, sym, true, some, List, [], ◌∷◌, map, All, leb, length,
  length-map, suc, arith,
}
use sharded_blockchain_dashb.Base.Keyed.{Bytes, bytes_eq_refl}
use mathlib.Core.Path.{subst}
use sharded_blockchain_dashb.Base.Int.{ℤ, uint64}
use sharded_blockchain_dashb.Base.Dict.{Dict}
use sharded_blockchain_dashb.Base.Outcome.{ret}
use sharded_blockchain_dashb.Core.{Time}
use sharded_blockchain_dashb.Backend.{Backend}
use sharded_blockchain_dashb.Storage.{block_bucket}
use sharded_blockchain_dashb.Query.{init_storage}
use sharded_blockchain_dashb.Query.Scans.{Filled, block_of, Decodes, queries_lem}
use sharded_blockchain_dashb.Dashboard.Sorted.{
  IsSorted, sort_views-IsSorted, total_txs-sort_views, length-sort_views,
}
use sharded_blockchain_dashb.Dashboard.{
  BlockView, IndexedBlock, ShardStore, sort_views, latest_of, mark, store_of, newest_view, last_or,
  store_with, total_txs, views_of, view_of, index_views, load_shard, load_shard_blocks,
}

-- In a sorted list the last view is the latest, and the highest.
latest_of-last_or :
    (v : BlockView) (vs : List BlockView)
    → IsSorted (v ∷ vs)
    → latest_of v.height v.hash vs ≡ ((last_or v vs).height, (last_or v vs).hash)
unfolding latest_of
latest_of-last_or v [] h = refl
latest_of-last_or v (w ∷ ws) ((low, _), h) =
    let newer : leb v.height w.height ≡ true = ground arith in rw newer (latest_of-last_or w ws h)

last_or-highest :
    (v : BlockView) (vs : List BlockView)
    → IsSorted (v ∷ vs)
    → All (λ w. w.height ≤ (last_or v vs).height) (v ∷ vs)
last_or-highest v [] h = (omega arith, tt)
last_or-highest v (w ∷ ws) ((low, _), h) =
    let (high, rest) = last_or-highest w ws h in (omega (arith, low, high), (high, rest))

map-last_or :
    (f : BlockView → BlockView) (v : BlockView) (vs : List BlockView)
    → last_or (f v) (map f vs) ≡ f (last_or v vs)
map-last_or f v [] = refl
map-last_or f v (w ∷ ws) = map-last_or f w ws

-- What the dashboard says of a shard with at least one block.
pub record Shows (s : ShardStore) (v : BlockView) : Type 0 where
  pub newest : newest_view s.blocks ≡ some v
  pub flagged : v.is_latest ≡ true
  pub latest_height_is : s.latest_height ≡ v.height
  pub latest_hash_is : s.latest_hash ≡ v.hash
  pub sorted : IsSorted s.blocks
  pub highest : All (λ w. w.height ≤ v.height) s.blocks

module _ (height : ℕ) (hash : Bytes) where
  All-mark :
      (n : ℕ) (vs : List BlockView)
      → All (λ w. w.height ≤ n) vs
      → All (λ w. w.height ≤ n) (map (mark height hash) vs)
  All-mark n [] h = tt
  All-mark n (v ∷ vs) (h, hs) = (h, All-mark n vs hs)

  All-mark_from :
      (n : ℕ) (vs : List BlockView)
      → All (λ w. n ≤ w.height) vs
      → All (λ w. n ≤ w.height) (map (mark height hash) vs)
  All-mark_from n [] h = tt
  All-mark_from n (v ∷ vs) (h, hs) = (h, All-mark_from n vs hs)

  mark-IsSorted : (vs : List BlockView) → IsSorted vs → IsSorted (map (mark height hash) vs)
  mark-IsSorted [] h = tt
  mark-IsSorted (v ∷ vs) (below, h) = (All-mark_from v.height vs below, mark-IsSorted vs h)

  total_txs-mark : (vs : List BlockView) → total_txs (map (mark height hash) vs) ≡ total_txs vs
  unfolding total_txs
  total_txs-mark [] = refl
  total_txs-mark (v ∷ vs) = ap (◌+◌ v.tx_count) (total_txs-mark vs)

latest_of-cons :
    (v : BlockView) (vs : List BlockView)
    → IsSorted (v ∷ vs)
    → latest_of 0 [] (v ∷ vs) ≡ ((last_or v vs).height, (last_or v vs).hash)
unfolding latest_of
latest_of-cons v vs h =
    let newer : leb 0 v.height ≡ true = ground arith in rw newer (latest_of-last_or v vs h)

store_of-Shows :
    (id : ℤ) (v : BlockView) (vs : List BlockView) (index : Dict Bytes IndexedBlock)
    → IsSorted (v ∷ vs)
    → Shows
        (store_of id (v ∷ vs) index)
        (mark (last_or v vs).height (last_or v vs).hash (last_or v vs))
unfolding store_of newest_view
store_of-Shows id v vs index h =
    let top = last_or v vs in
    let tick = mark top.height top.hash in
    subst (λ p. Shows (store_with id (v ∷ vs) index p) (tick top)) (sym (latest_of-cons v vs h))
      (record {
        newest = ap some (map-last_or tick v vs);
        flagged = ground (arith, bytes_eq_refl top.hash);
        latest_height_is = refl;
        latest_hash_is = refl;
        sorted = mark-IsSorted top.height top.hash (v ∷ vs) h;
        highest = All-mark top.height top.hash top.height (v ∷ vs) (last_or-highest v vs h);
      })

-- The transactions of a list of blocks.
abbrev pub body_total : List Filled → ℕ
body_total [] = 0
body_total (b ∷ bs) = length b.body + body_total bs

module _ (format_time : Time → Bytes) where
  views_of-block_of :
      (bs : List Filled)
      → views_of format_time (map block_of bs)
        ≡ map (λ b. view_of format_time (block_of b) b.head) bs
  unfolding views_of
  views_of-block_of [] = refl
  views_of-block_of (b ∷ bs) =
      ap (◌∷◌ (view_of format_time (block_of b) b.head)) (views_of-block_of bs)

  total_txs-view_of :
      (bs : List Filled)
      → total_txs (map (λ b. view_of format_time (block_of b) b.head) bs) ≡ body_total bs
  unfolding total_txs
  total_txs-view_of [] = refl
  total_txs-view_of (b ∷ bs) = ap (◌+◌ (length b.body)) (total_txs-view_of bs)

sorted_some :
    (vs : List BlockView) (n : ℕ)
    → length vs ≡ suc n
    → (w : BlockView) × (ws : List BlockView) × (vs ≡ w ∷ ws)
sorted_some [] n h = absurd (omega (arith, h))
sorted_some (w ∷ ws) n h = (w, ws, refl)

-- For a shard whose database of node 0 opens, with a block bucket that holds at least one block, each
-- with its header: `loadShardStores` loads the shard; its views stand by height, as many as the
-- blocks, with all the blocks' transactions in their counts; and the view that `QueryNewestBlock` gives is
-- marked as the latest, is as high as every other, and has the store's latest height and hash.
pub load_shard_lem :
    (lib : Backend) (disk : Bytes → lib.Bolt) (format_time : Time → Bytes) (id : ℤ) (db : lib.Bolt)
    (b : Filled) (bs : List Filled)
    → init_storage lib disk (uint64 id) 0 ≡ ret db
    → Decodes lib (lib.entries db block_bucket) (b ∷ bs)
    → (s : ShardStore) × (v : BlockView) × (load_shard lib disk format_time id ≡ ret s)
      × Shows s v
      × (length s.blocks ≡ length (b ∷ bs))
      × (total_txs s.blocks ≡ body_total (b ∷ bs))
unfolding load_shard load_shard_blocks store_of
load_shard_lem lib disk format_time id db b bs o d =
    let views = map (λ x. view_of format_time (block_of x) x.head) (b ∷ bs) in
    let answers = queries_lem lib disk (uint64 id) 0 db (b ∷ bs) o d in
    let same = views_of-block_of format_time (b ∷ bs) in
    let count : length (sort_views views) ≡ length (b ∷ bs) =
      length-sort_views views
      ∙ length-map (b ∷ bs) (λ x. view_of format_time (block_of x) x.head) in
    let (w, ws, e) = sorted_some (sort_views views) (length bs) count in
    let index = index_views [] views in
    let top = last_or w ws in
    let latest = latest_of 0 [] (sort_views views) in
    (
      store_of id (sort_views views) index,
      mark top.height top.hash top,
      rw (load_shard, load_shard_blocks, answers.all_blocks, same),
      subst (λ x. Shows (store_of id x index) (mark top.height top.hash top)) (sym e)
          (store_of-Shows id w ws index (subst IsSorted e (sort_views-IsSorted views))),
      length-map (sort_views views) (mark latest.0 latest.1) ∙ count,
      total_txs-mark latest.0 latest.1 (sort_views views)
          ∙ total_txs-sort_views views
          ∙ total_txs-view_of format_time (b ∷ bs),
    )
