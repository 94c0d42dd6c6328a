-- ===== src/Dashboard/Flat/Frequent.antt =====
-- The second loop of `extractTimestamp`, in whatever order Go goes through the counts.
use sharded_blockchain_dashb.Base.{
  ℕ, ◌+◌, ◌<◌, ◌≡◌, ◌≢◌, refl, sym, ap, ◌∙◌, false, ◌||◌, none, some, [], ◌∷◌, ltb, ◌==◌, ◌⊎◌, inl,
  inr, Bool-cases, Option-cases, All, arith,
}
use sharded_blockchain_dashb.Base.Keyed.{Bytes, nat_eq}
use sharded_blockchain_dashb.Base.Dict.{Dict, lookup}
use sharded_blockchain_dashb.Base.Maps.{AreDistinct, SameMap}
use sharded_blockchain_dashb.Core.{Time}
use sharded_blockchain_dashb.Dashboard.{unix_epoch}
use sharded_blockchain_dashb.Dashboard.Flat.{
  Candidate, min_unix_nano, max_unix_nano, count_values, beats, best_value, time_of,
  extract_timestamp,
}
use sharded_blockchain_dashb.Dashboard.Flat.Timestamp.{
  stands, occurs, first_place, InRange, tally, count_values_lem, count_values_outside,
  count_values-AreDistinct,
}
use sharded_blockchain_dashb.Dashboard.Flat.Best.{
  best_value-upper, best_value_found, best_value-none, lookup-upper,
}

-- The first of two different values that stand somewhere is not at one place.
first_place_apart :
    (v w : ℕ) (s : Bytes)
    → v ≢ w
    → 0 < occurs v s
    → 0 < occurs w s
    → first_place v s ≢ first_place w s
unfolding occurs first_place
first_place_apart v w [] other h k same = omega (arith, h)
first_place_apart v w (c ∷ s) other h k same = elim (Bool-cases (stands v (c ∷ s))) [
  | inl one ↦ elim (Bool-cases (stands w (c ∷ s))) [
    | inl two ↦ other (ground (arith, one, two))
    | inr late ↦ ground (arith, one, late, same)
  ]
  | inr late ↦ elim (Bool-cases (stands w (c ∷ s))) [
    | inl two ↦ ground (arith, late, two, same)
    | inr later ↦
        first_place_apart v w s other (ground (arith, late, h)) (ground (arith, later, k))
          (ground (arith, late, later, same))
  ]
]

-- `w` stands less often than `v`, or as often and first at a later place.
abbrev pub IsBehind : Bytes → ℕ → ℕ → Type 0
IsBehind bytes v w =
    (occurs w bytes < occurs v bytes)
    ⊎ ((occurs w bytes ≡ occurs v bytes) × (first_place v bytes < first_place w bytes))

-- The time of the value in range that stands at the most places, of the first of them where there are
-- several; 0, the zero time, where there is none.
abbrev pub IsMostFrequent : Bytes → Time → Type 0
IsMostFrequent bytes t =
    ((t ≡ 0) × ((v : ℕ) → InRange v → occurs v bytes ≡ 0))
    ⊎ ((v : ℕ) × InRange v
        × (0 < occurs v bytes)
        × (t ≡ unix_epoch + v)
        × ((w : ℕ) → InRange w → w ≢ v → IsBehind bytes v w))

lookup_empty : (v : ℕ) → lookup {V = Candidate} v [] ≡ none
unfolding lookup
lookup_empty v = refl

tally-none : (bytes : Bytes) (v : ℕ) → tally 0 v bytes none ≡ none → occurs v bytes ≡ 0
tally-none bytes v h = ground (arith, h)

tally-some :
    (bytes : Bytes) (v : ℕ) (c : Candidate)
    → tally 0 v bytes none ≡ some c
    → (0 < occurs v bytes) × (c.count ≡ occurs v bytes) × (c.at ≡ first_place v bytes)
tally-some bytes v c h = ground (arith, h)

-- A value that stands somewhere and does not beat `v` is behind it.
beats-IsBehind :
    (bytes : Bytes) (v w : ℕ) (c e : Candidate)
    → w ≢ v
    → tally 0 v bytes none ≡ some c
    → tally 0 w bytes none ≡ some e
    → beats e c ≡ false
    → IsBehind bytes v w
beats-IsBehind bytes v w c e other h k loses =
    let (some_v, count_v, at_v) = tally-some bytes v c h in
    let (some_w, count_w, at_w) = tally-some bytes w e k in
    let apart = first_place_apart v w bytes (λ same. other (sym same)) some_v some_w in
    ground (arith, count_v, at_v, count_w, at_w, apart, loses)

-- `given` are the counts, in the order in which Go goes through them.
module _ (bytes : Bytes) (given : Dict ℕ Candidate) (d : AreDistinct given)
    (same : SameMap (count_values 0 bytes []) given) where
  lookup-given : (v : ℕ) → InRange v → lookup v given ≡ tally 0 v bytes none
  lookup-given v range =
      sym (same v) ∙ count_values_lem 0 v bytes [] range ∙ ap (tally 0 v bytes) (lookup_empty v)

  given-InRange : (v : ℕ) (c : Candidate) → lookup v given ≡ some c → InRange v
  given-InRange v c there = elim (Bool-cases (ltb v min_unix_nano || ltb max_unix_nano v)) [
    | inl outside ↦
        let gone : lookup v given ≡ none =
          sym (same v) ∙ count_values_outside 0 v bytes [] outside ∙ lookup_empty v in
        cc (gone, there)
    | inr inside ↦ (ground (arith, inside), ground (arith, inside))
  ]

  best-IsBehind :
      (v : ℕ) (c : Candidate)
      → tally 0 v bytes none ≡ some c
      → All (λ e. beats e.1 c ≡ false) given
      → (w : ℕ) → InRange w
      → w ≢ v
      → IsBehind bytes v w
  best-IsBehind v c h all w range other = elim (Option-cases (tally 0 w bytes none)) [
    | inl absent ↦
        let (some_v, _, _) = tally-some bytes v c h in
        inl (omega (arith, some_v, tally-none bytes w absent))
    | inr (e, there) ↦
        beats-IsBehind bytes v w c e other h there
          (lookup-upper given c w e all (lookup-given w range ∙ there))
  ]

  best_value-IsMostFrequent : IsMostFrequent bytes (time_of (best_value none given))
  best_value-IsMostFrequent = elim (Option-cases (best_value none given)) [
    | inl nothing ↦
        let (_, empty) = best_value-none none given nothing in
        rw nothing (
          inl (
            refl,
            λ v range.
                let gone : lookup v given ≡ none = rw empty (lookup_empty v) in
                tally-none bytes v (sym (lookup-given v range) ∙ gone),
          ))
    | inr ((v, c), best) ↦ elim (best_value_found none given v c d best) [
      | inl never ↦ cc
      | inr there ↦
          let range = given-InRange v c there in
          let h = sym (lookup-given v range) ∙ there in
          let (_, all) = best_value-upper none given v c best in
          rw best (inr (v, range, (tally-some bytes v c h).0, refl, best-IsBehind v c h all))
    ]
  ]

IsMostFrequent-unique :
    (bytes : Bytes) (t u : Time) → IsMostFrequent bytes t → IsMostFrequent bytes u → t ≡ u
IsMostFrequent-unique bytes t u (inl (at, _)) (inl (also, _)) = at ∙ sym also
IsMostFrequent-unique bytes t u (inl (at, none_at)) (inr (v, range, some_v, also, _)) =
    let no_v = none_at v range in absurd (omega (arith, no_v, some_v))
IsMostFrequent-unique bytes t u (inr (v, range, some_v, at, _)) (inl (also, none_at)) =
    let no_v = none_at v range in absurd (omega (arith, no_v, some_v))
IsMostFrequent-unique bytes t u (inr (v, range, _, at, wins)) (inr (w, also, _, on, also_wins)) =
    elim (Bool-cases (v == w)) [
      | inl same ↦ ground (arith, at, on, same)
      | inr other ↦
          let down = wins w also (ground (arith, other)) in
          let up = also_wins v range (ground (arith, other)) in absurd (ground (arith, down, up))
    ]

-- `extractTimestamp` gives the time of the value in range that stands at the most places, of the one
-- that stands first where several do, and the zero time where no value is in range. It gives this
-- time in whatever order Go goes through the counts.
pub extract_timestamp_lem :
    (bytes : Bytes)
    → IsMostFrequent bytes (extract_timestamp bytes)
      × ((given : Dict ℕ Candidate)
          → AreDistinct given
          → SameMap (count_values 0 bytes []) given
          → time_of (best_value none given) ≡ extract_timestamp bytes)
unfolding extract_timestamp
extract_timestamp_lem bytes =
    let d = count_values-AreDistinct 0 bytes [] tt in
    let found = best_value-IsMostFrequent bytes (count_values 0 bytes []) d (λ v. refl) in
    (
      found,
      λ given c same.
          IsMostFrequent-unique bytes _ _ (best_value-IsMostFrequent bytes given c same) found,
    )
