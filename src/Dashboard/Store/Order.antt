-- ===== src/Dashboard/Store/Order.antt =====
-- The shards of the store in any order: `sort.Ints` makes one list of them.
use sharded_blockchain_dashb.Base.Int.{int_eq}
use sharded_blockchain_dashb.Base.{
  ◌+◌, ◌<◌, ◌≡◌, refl, sym, ap, ◌∙◌, true, false, none, some, [], ◌∷◌, inl, inr, Bool-cases, All,
  if◌then◌else◌, arith,
}
use sharded_blockchain_dashb.Base.Dict.{Dict, lookup}
use sharded_blockchain_dashb.Base.Maps.{AreDistinct, SameMap}
use sharded_blockchain_dashb.Base.Int.{ℤ, pos_part, neg_part, ltb_ℤ, eq_ℤ, eq_ℤ_iff}
use sharded_blockchain_dashb.Dashboard.{ShardStore}
use sharded_blockchain_dashb.Dashboard.Store.{insert_shard, sort_shards}

infix 50 ◌<ℤ◌
abbrev ◌<ℤ◌ : ℤ → ℤ → Type 0
a <ℤ b = pos_part a + neg_part b < pos_part b + neg_part a

-- Ids rise.
abbrev AreRising : Dict ℤ ShardStore → Type 0
AreRising [] = Unit
AreRising (e ∷ es) = All (λ d. e.0 <ℤ d.0) es × AreRising es

All-lower_strict :
    (n m : ℤ) (es : Dict ℤ ShardStore) → n <ℤ m → All (λ d. m <ℤ d.0) es → All (λ d. n <ℤ d.0) es
All-lower_strict n m [] h a = tt
All-lower_strict n m (e ∷ es) h (b, bs) = (omega (arith, h, b), All-lower_strict n m es h bs)

All-insert_shard_strict :
    (n : ℤ) (e : ℤ × ShardStore) (es : Dict ℤ ShardStore)
    → n <ℤ e.0
    → All (λ d. n <ℤ d.0) es
    → All (λ d. n <ℤ d.0) (insert_shard e es)
unfolding insert_shard
All-insert_shard_strict n e [] h a = (h, tt)
All-insert_shard_strict n e (d ∷ ds) h (b, bs) = elim (Bool-cases (ltb_ℤ d.0 e.0)) [
  | inl less ↦ rw less (b, All-insert_shard_strict n e ds h bs)
  | inr not_less ↦ rw not_less (h, (b, bs))
]

-- An id below all is not there.
lookup_below : (k : ℤ) (es : Dict ℤ ShardStore) → All (λ d. k <ℤ d.0) es → lookup k es ≡ none
unfolding lookup
lookup_below k [] a = refl
lookup_below k ((j, s) ∷ es) (b, bs) = ground (arith, lookup_below k es bs, b)

insert_shard-AreRising :
    (e : ℤ × ShardStore) (es : Dict ℤ ShardStore)
    → lookup e.0 es ≡ none
    → AreRising es
    → AreRising (insert_shard e es)
unfolding insert_shard lookup
insert_shard-AreRising e [] new h = (tt, tt)
insert_shard-AreRising e (d ∷ ds) new (below, h) = elim (Bool-cases (eq_ℤ d.0 e.0)) [
  | inl same ↦ absurd (ground (arith, new, same))
  | inr other ↦ elim (Bool-cases (ltb_ℤ d.0 e.0)) [
    | inl less ↦ rw less (
      All-insert_shard_strict d.0 e ds (ground (arith, less)) below,
      insert_shard-AreRising e ds (ground (arith, new, other)) h,
    )
    | inr not_less ↦
        let low : e.0 <ℤ d.0 = ground (arith, not_less, other) in
        rw not_less ((low, All-lower_strict e.0 d.0 ds low below), (below, h))
  ]
]

lookup-insert_shard :
    (k : ℤ) (e : ℤ × ShardStore) (es : Dict ℤ ShardStore)
    → lookup e.0 es ≡ none
    → lookup k (insert_shard e es) ≡ (if eq_ℤ e.0 k then some e.1 else lookup k es)
unfolding insert_shard lookup
lookup-insert_shard k e [] new = refl
lookup-insert_shard k e (d ∷ ds) new = elim (Bool-cases (ltb_ℤ d.0 e.0)) [
  | inl less ↦ ground (arith, less, new, lookup-insert_shard k e ds)
  | inr not_less ↦ rw not_less refl
]

lookup-sort_shards :
    (k : ℤ) (es : Dict ℤ ShardStore) → AreDistinct es → lookup k (sort_shards es) ≡ lookup k es
unfolding sort_shards lookup
lookup-sort_shards k [] d = refl
lookup-sort_shards k (e ∷ es) (new, d) =
    lookup-insert_shard k e (sort_shards es) (lookup-sort_shards e.0 es d ∙ new)
    ∙ ap (λ o. if eq_ℤ e.0 k then some e.1 else o) (lookup-sort_shards k es d)

sort_shards-AreRising : (es : Dict ℤ ShardStore) → AreDistinct es → AreRising (sort_shards es)
unfolding sort_shards
sort_shards-AreRising [] d = tt
sort_shards-AreRising (e ∷ es) (new, d) =
    insert_shard-AreRising e (sort_shards es) (lookup-sort_shards e.0 es d ∙ new)
      (sort_shards-AreRising es d)

-- What is there is above what is below all.
lookup_above :
    (n k : ℤ) (es : Dict ℤ ShardStore) (s : ShardStore)
    → All (λ d. n <ℤ d.0) es
    → lookup k es ≡ some s
    → n <ℤ k
unfolding lookup
lookup_above n k [] s a there = cc
lookup_above n k ((j, t) ∷ es) s (b, bs) there = elim (Bool-cases (eq_ℤ j k)) [
  | inl same ↦ ground (arith, same, b)
  | inr other ↦ lookup_above n k es s bs (ground (arith, other, there))
]

lookup_first : (e : ℤ × ShardStore) (es : Dict ℤ ShardStore) → lookup e.0 (e ∷ es) ≡ some e.1
unfolding lookup
lookup_first e es = let self : eq_ℤ e.0 e.0 ≡ true = (eq_ℤ_iff e.0 e.0).1 refl in rw self refl

lookup_later :
    (k : ℤ) (e : ℤ × ShardStore) (es : Dict ℤ ShardStore)
    → eq_ℤ e.0 k ≡ false
    → lookup k (e ∷ es) ≡ lookup k es
unfolding lookup
lookup_later k e es other = rw other refl

lookup-none : (k : ℤ) → lookup {V = ShardStore} k [] ≡ none
unfolding lookup
lookup-none k = refl

-- The first id of one list is not above that of the other.
first_above :
    (e d : ℤ × ShardStore) (es ds : Dict ℤ ShardStore)
    → SameMap (e ∷ es) (d ∷ ds)
    → All (λ c. d.0 <ℤ c.0) ds
    → eq_ℤ d.0 e.0 ≡ false
    → d.0 <ℤ e.0
first_above e d es ds same above other =
    lookup_above d.0 e.0 ds e.1 above
      (sym (lookup_later e.0 d ds other) ∙ sym (same e.0) ∙ lookup_first e es)

-- A map stands in one rising list only.
AreRising-unique :
    (es ds : Dict ℤ ShardStore) → AreRising es → AreRising ds → SameMap es ds → es ≡ ds
AreRising-unique [] [] h k same = refl
AreRising-unique [] (d ∷ ds) h k same = cc (lookup-none d.0, same d.0, lookup_first d ds)
AreRising-unique (e ∷ es) [] h k same = cc (lookup-none e.0, same e.0, lookup_first e es)
AreRising-unique (e ∷ es) (d ∷ ds) (below, h) (above, k) same = elim (Bool-cases (eq_ℤ e.0 d.0)) [
  | inl equal ↦
      let first : e.0 ≡ d.0 = (eq_ℤ_iff e.0 d.0).0 equal in
      let stores : some e.1 ≡ some d.1 =
        sym (lookup_first e es) ∙ same e.0 ∙ rw first (lookup_first d ds) in
      let rest = AreRising-unique es ds h k λ j. elim (Bool-cases (eq_ℤ e.0 j)) [
        | inl here ↦
            let at : e.0 ≡ j = (eq_ℤ_iff e.0 j).0 here in
            let left : lookup j es ≡ none = rw (← at) (lookup_below e.0 es below) in
            let right : lookup j ds ≡ none = rw (← at, first) (lookup_below d.0 ds above) in
            left ∙ sym right
        | inr there ↦
            sym (lookup_later j e es there) ∙ same j ∙ lookup_later j d ds (rw (← first) there)
      ] in
      cc
  | inr other ↦
      let up = first_above e d es ds same above (ground (arith, other)) in
      let down = first_above d e ds es (λ j. sym (same j)) below other in
      absurd (omega (arith, up, down))
]

-- `sort.Ints` gives one list, whatever order Go goes through the map in.
pub sort_shards-SameMap :
    (es ds : Dict ℤ ShardStore)
    → AreDistinct es
    → AreDistinct ds
    → SameMap es ds
    → sort_shards es ≡ sort_shards ds
sort_shards-SameMap es ds d c same =
    AreRising-unique (sort_shards es) (sort_shards ds) (sort_shards-AreRising es d)
      (sort_shards-AreRising ds c)
      λ k. lookup-sort_shards k es d ∙ same k ∙ sym (lookup-sort_shards k ds c)
