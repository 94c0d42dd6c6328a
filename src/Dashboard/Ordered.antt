-- ===== src/Dashboard/Ordered.antt =====
-- main.go, `sort.Slice` over the views: the order of height and hash, and that the views stay the same.
use sharded_blockchain_dashb.Base.{
  ℕ, ◌+◌, ◌<◌, ◌≡◌, refl, ◌∙◌, true, false, List, [], ◌∷◌, ◌==◌, ◌⊎◌, inl, inr, Bool-cases, All,
  arith,
}
use sharded_blockchain_dashb.Base.Keyed.{Bytes}
use sharded_blockchain_dashb.Dashboard.{BlockView, bytes_ltb, view_less, insert_view, sort_views}

-- the order of strings: a proper start of a string is below it, and else the first byte that differs
-- decides
abbrev pub IsLexLe : Bytes → Bytes → Type 0
IsLexLe [] ys = Unit
IsLexLe (x ∷ xs) [] = ⊥
IsLexLe (x ∷ xs) (y ∷ ys) = (x < y) ⊎ ((x ≡ y) × IsLexLe xs ys)

-- by height, and by hash where the heights are the same
abbrev pub IsInOrder : BlockView → BlockView → Type 0
IsInOrder v w = (v.height < w.height) ⊎ ((v.height ≡ w.height) × IsLexLe v.hash w.hash)

-- Each view is in order with all that come behind it.
abbrev pub AreInOrder : List BlockView → Type 0
AreInOrder [] = Unit
AreInOrder (v ∷ vs) = All (IsInOrder v) vs × AreInOrder vs

IsLexLe-trans : (xs ys zs : Bytes) → IsLexLe xs ys → IsLexLe ys zs → IsLexLe xs zs
IsLexLe-trans [] ys zs h k = tt
IsLexLe-trans (x ∷ xs) [] zs h k = absurd h
IsLexLe-trans (x ∷ xs) (y ∷ ys) [] h k = absurd k
IsLexLe-trans (x ∷ xs) (y ∷ ys) (z ∷ zs) (inl low) (inl low') = inl (omega (arith, low, low'))
IsLexLe-trans (x ∷ xs) (y ∷ ys) (z ∷ zs) (inl low) (inr (same, _)) = inl (omega (arith, low, same))
IsLexLe-trans (x ∷ xs) (y ∷ ys) (z ∷ zs) (inr (same, _)) (inl low) = inl (omega (arith, low, same))
IsLexLe-trans (x ∷ xs) (y ∷ ys) (z ∷ zs) (inr (same, h)) (inr (same', k)) =
    inr (same ∙ same', IsLexLe-trans xs ys zs h k)

IsInOrder-trans : (u v w : BlockView) → IsInOrder u v → IsInOrder v w → IsInOrder u w
IsInOrder-trans u v w (inl low) (inl low') = inl (omega (arith, low, low'))
IsInOrder-trans u v w (inl low) (inr (same, _)) = inl (omega (arith, low, same))
IsInOrder-trans u v w (inr (same, _)) (inl low) = inl (omega (arith, low, same))
IsInOrder-trans u v w (inr (same, h)) (inr (same', k)) =
    inr (same ∙ same', IsLexLe-trans u.hash v.hash w.hash h k)

bytes_ltb-true : (xs ys : Bytes) → bytes_ltb xs ys ≡ true → IsLexLe xs ys
unfolding bytes_ltb
bytes_ltb-true [] ys h = tt
bytes_ltb-true (x ∷ xs) [] h = ground (arith, h)
bytes_ltb-true (x ∷ xs) (y ∷ ys) h = elim (Bool-cases (x == y)) [
  | inl same ↦ inr (ground (arith, same), bytes_ltb-true xs ys (ground (arith, h, same)))
  | inr other ↦ inl (ground (arith, h, other))
]

bytes_ltb-false : (xs ys : Bytes) → bytes_ltb xs ys ≡ false → IsLexLe ys xs
unfolding bytes_ltb
bytes_ltb-false xs [] h = tt
bytes_ltb-false [] (y ∷ ys) h = ground (arith, h)
bytes_ltb-false (x ∷ xs) (y ∷ ys) h = elim (Bool-cases (x == y)) [
  | inl same ↦ inr (ground (arith, same), bytes_ltb-false xs ys (ground (arith, h, same)))
  | inr other ↦ inl (ground (arith, h, other))
]

view_less-true : (a b : BlockView) → view_less a b ≡ true → IsInOrder a b
unfolding view_less
view_less-true a b h = elim (Bool-cases (a.height == b.height)) [
  | inl same ↦ inr (ground (arith, same), bytes_ltb-true a.hash b.hash (ground (arith, h, same)))
  | inr other ↦ inl (ground (arith, h, other))
]

view_less-false : (a b : BlockView) → view_less a b ≡ false → IsInOrder b a
unfolding view_less
view_less-false a b h = elim (Bool-cases (a.height == b.height)) [
  | inl same ↦ inr (ground (arith, same), bytes_ltb-false a.hash b.hash (ground (arith, h, same)))
  | inr other ↦ inl (ground (arith, h, other))
]

All-insert_view :
    (u v : BlockView) (vs : List BlockView)
    → IsInOrder u v
    → All (IsInOrder u) vs
    → All (IsInOrder u) (insert_view v vs)
unfolding insert_view
All-insert_view u v [] p ps = (p, tt)
All-insert_view u v (w ∷ ws) p (q, qs) = elim (Bool-cases (view_less w v)) [
  | inl less ↦ rw less (q, All-insert_view u v ws p qs)
  | inr not_less ↦ rw not_less (p, (q, qs))
]

All-IsInOrder-trans :
    (u v : BlockView) (vs : List BlockView)
    → IsInOrder u v
    → All (IsInOrder v) vs
    → All (IsInOrder u) vs
All-IsInOrder-trans u v [] h hs = tt
All-IsInOrder-trans u v (w ∷ ws) h (k, ks) =
    (IsInOrder-trans u v w h k, All-IsInOrder-trans u v ws h ks)

insert_view-AreInOrder :
    (v : BlockView) (vs : List BlockView) → AreInOrder vs → AreInOrder (insert_view v vs)
unfolding insert_view
insert_view-AreInOrder v [] h = (tt, tt)
insert_view-AreInOrder v (w ∷ ws) (below, h) = elim (Bool-cases (view_less w v)) [
  | inl less ↦
      rw less
        (All-insert_view w v ws (view_less-true w v less) below, insert_view-AreInOrder v ws h)
  | inr not_less ↦
      let low = view_less-false w v not_less in
      rw not_less ((low, All-IsInOrder-trans v w ws low below), (below, h))
]

-- The views that `sort.Slice` gives are in order.
pub sort_views-AreInOrder : (vs : List BlockView) → AreInOrder (sort_views vs)
unfolding sort_views
sort_views-AreInOrder [] = tt
sort_views-AreInOrder (v ∷ vs) = insert_view-AreInOrder v (sort_views vs) (sort_views-AreInOrder vs)

-- A sum over views. Two lists with the same sums hold the same views, each as often.
abbrev pub view_sum : (BlockView → ℕ) → List BlockView → ℕ
view_sum f [] = 0
view_sum f (v ∷ vs) = f v + view_sum f vs

view_sum-insert_view :
    (f : BlockView → ℕ) (v : BlockView) (vs : List BlockView)
    → view_sum f (insert_view v vs) ≡ f v + view_sum f vs
unfolding insert_view
view_sum-insert_view f v [] = refl
view_sum-insert_view f v (w ∷ ws) = elim (Bool-cases (view_less w v)) [
  | inl less ↦ rw less (omega (arith, view_sum-insert_view f v ws))
  | inr not_less ↦ rw not_less refl
]

-- `sort.Slice` neither loses nor adds a view.
pub view_sum-sort_views :
    (f : BlockView → ℕ) (vs : List BlockView) → view_sum f (sort_views vs) ≡ view_sum f vs
unfolding sort_views
view_sum-sort_views f [] = refl
view_sum-sort_views f (v ∷ vs) =
    omega (arith, view_sum-insert_view f v (sort_views vs), view_sum-sort_views f vs)
