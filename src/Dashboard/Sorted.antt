-- ===== src/Dashboard/Sorted.antt =====
-- `sort.Slice` puts the views in order and keeps their number and their transactions.
use sharded_blockchain_dashb.Base.{
  ℕ, ◌+◌, ◌≤◌, ◌≡◌, refl, ap, ◌∙◌, true, false, List, [], ◌∷◌, inl, inr, Bool-cases, All, length,
  arith,
}
use sharded_blockchain_dashb.Dashboard.{BlockView, view_less, insert_view, sort_views, total_txs}

-- Heights never fall.
abbrev pub IsSorted : List BlockView → Type 0
IsSorted [] = Unit
IsSorted (v ∷ vs) = All (λ w. v.height ≤ w.height) vs × IsSorted vs

module _ {ℓ} (P : BlockView → Type ℓ) where
  All-insert_view :
      (v : BlockView) (vs : List BlockView) → P v → All P vs → All P (insert_view v vs)
  unfolding insert_view
  All-insert_view v [] p ps = (p, tt)
  All-insert_view v (w ∷ ws) p (q, qs) = elim (Bool-cases (view_less w v)) [
    | inl less ↦ rw less (q, All-insert_view v ws p qs)
    | inr not_less ↦ rw not_less (p, (q, qs))
  ]

All-trans :
    (a b : ℕ) (vs : List BlockView)
    → a ≤ b
    → All (λ w. b ≤ w.height) vs
    → All (λ w. a ≤ w.height) vs
All-trans a b [] h hs = tt
All-trans a b (v ∷ vs) h (k, ks) = (omega (arith, h, k), All-trans a b vs h ks)

view_less-height : (a b : BlockView) → view_less a b ≡ true → a.height ≤ b.height
unfolding view_less
view_less-height a b h = ground arith

view_less-height_not : (a b : BlockView) → view_less a b ≡ false → b.height ≤ a.height
unfolding view_less
view_less-height_not a b h = ground arith

insert_view-IsSorted :
    (v : BlockView) (vs : List BlockView) → IsSorted vs → IsSorted (insert_view v vs)
unfolding insert_view
insert_view-IsSorted v [] h = (tt, tt)
insert_view-IsSorted v (w ∷ ws) (below, h) = elim (Bool-cases (view_less w v)) [
  | inl less ↦ rw less (
    All-insert_view (λ x. w.height ≤ x.height) v ws (view_less-height w v less) below,
    insert_view-IsSorted v ws h,
  )
  | inr not_less ↦
      let low = view_less-height_not w v not_less in
      rw not_less ((low, All-trans v.height w.height ws low below), (below, h))
]

pub sort_views-IsSorted : (vs : List BlockView) → IsSorted (sort_views vs)
unfolding sort_views
sort_views-IsSorted [] = tt
sort_views-IsSorted (v ∷ vs) = insert_view-IsSorted v (sort_views vs) (sort_views-IsSorted vs)

total_txs-insert_view :
    (v : BlockView) (vs : List BlockView) → total_txs (insert_view v vs) ≡ v.tx_count + total_txs vs
unfolding insert_view total_txs
total_txs-insert_view v [] = refl
total_txs-insert_view v (w ∷ ws) = elim (Bool-cases (view_less w v)) [
  | inl less ↦ rw less (omega (arith, total_txs-insert_view v ws))
  | inr not_less ↦ rw not_less refl
]

pub total_txs-sort_views : (vs : List BlockView) → total_txs (sort_views vs) ≡ total_txs vs
unfolding sort_views total_txs
total_txs-sort_views [] = refl
total_txs-sort_views (v ∷ vs) =
    total_txs-insert_view v (sort_views vs) ∙ ap (◌+◌ v.tx_count) (total_txs-sort_views vs)

length-insert_view :
    (v : BlockView) (vs : List BlockView) → length (insert_view v vs) ≡ 1 + length vs
unfolding insert_view
length-insert_view v [] = refl
length-insert_view v (w ∷ ws) = elim (Bool-cases (view_less w v)) [
  | inl less ↦ rw less (omega (arith, length-insert_view v ws))
  | inr not_less ↦ rw not_less (omega arith)
]

pub length-sort_views : (vs : List BlockView) → length (sort_views vs) ≡ length vs
unfolding sort_views
length-sort_views [] = refl
length-sort_views (v ∷ vs) =
    omega (arith, length-insert_view v (sort_views vs), length-sort_views vs)
