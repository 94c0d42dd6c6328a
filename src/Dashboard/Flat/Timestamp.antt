-- ===== src/Dashboard/Flat/Timestamp.antt =====
-- `extractTimestamp` against the places at which each value stands.
use sharded_blockchain_dashb.Base.{
  ℕ, ◌+◌, ◌≤◌, ◌≡◌, refl, ap, ◌∙◌, Bool, true, false, ◌&&◌, ◌||◌, Option, none, some, [], ◌∷◌, ltb,
  leb, ◌==◌, ==_iff, if◌then◌else◌, length, take, inl, inr, Bool-cases, arith,
}
use sharded_blockchain_dashb.Base.Keyed.{Bytes, nat_eq}
use sharded_blockchain_dashb.Base.Dict.{Dict, lookup, lookup-insert}
use sharded_blockchain_dashb.Base.Maps.{AreDistinct, insert-AreDistinct}
use sharded_blockchain_dashb.LevelDb.{little_endian}
use sharded_blockchain_dashb.Dashboard.Flat.{
  Candidate, min_unix_nano, max_unix_nano, seen_again, count_value, count_values,
}

-- the value of the first eight bytes is `v`
abbrev pub stands : ℕ → Bytes → Bool
stands v s = leb 8 (length s) && (little_endian (take 8 s) == v)

-- at how many places `v` stands, and the first of them
unfoldable pub occurs : ℕ → Bytes → ℕ
occurs v [] = 0
occurs v (c ∷ s) = (if stands v (c ∷ s) then 1 else 0) + occurs v s

unfoldable pub first_place : ℕ → Bytes → ℕ
first_place v [] = 0
first_place v (c ∷ s) = let later = first_place v s in if stands v (c ∷ s) then 0 else later + 1

abbrev pub InRange : ℕ → Type 0
InRange v = (min_unix_nano ≤ v) × (v ≤ max_unix_nano)

abbrev pub counted : ℕ → ℕ → ℕ → Option Candidate → Option Candidate
counted i n at none = some (record { count = n; at = i + at })
counted i n at (some c) = some (record { count = c.count + n; at = c.at })

-- the entry of a value after the first loop
abbrev pub tally : ℕ → ℕ → Bytes → Option Candidate → Option Candidate
tally i v s o = if occurs v s == 0 then o else counted i (occurs v s) (first_place v s) o

count_value_here :
    (i v : ℕ) (counts : Dict ℕ Candidate)
    → InRange v
    → lookup v (count_value i v counts) ≡ some (seen_again i (lookup v counts))
count_value_here i v counts (low, high) =
    let inside : ltb v min_unix_nano || ltb max_unix_nano v ≡ false = ground (arith, low, high) in
    rw inside (ground (arith, lookup-insert v v (seen_again i (lookup v counts)) counts))

count_value_other :
    (i x v : ℕ) (counts : Dict ℕ Candidate)
    → x == v ≡ false
    → lookup v (count_value i x counts) ≡ lookup v counts
count_value_other i x v counts other =
    elim (Bool-cases (ltb x min_unix_nano || ltb max_unix_nano x)) [
      | inl outside ↦ rw outside refl
      | inr inside ↦
          rw inside
            (ground (arith, other, lookup-insert x v (seen_again i (lookup x counts)) counts))
    ]

tally_here :
    (i v c : ℕ) (s : Bytes) (o : Option Candidate)
    → stands v (c ∷ s) ≡ true
    → tally (i + 1) v s (some (seen_again i o)) ≡ tally i v (c ∷ s) o
unfolding occurs first_place
tally_here i v c s none h = rw h (ground arith)
tally_here i v c s (some d) h = rw h (ground arith)

tally_other :
    (i v c : ℕ) (s : Bytes) (o : Option Candidate)
    → stands v (c ∷ s) ≡ false
    → tally (i + 1) v s o ≡ tally i v (c ∷ s) o
unfolding occurs first_place
tally_other i v c s none h = rw h (ground arith)
tally_other i v c s (some d) h = rw h (ground arith)

tally_nil : (i v : ℕ) (o : Option Candidate) → o ≡ tally i v [] o
unfolding occurs
tally_nil i v o = refl

-- The first loop counts each value, and keeps its first place.
pub count_values_lem :
    (i v : ℕ) (s : Bytes) (counts : Dict ℕ Candidate)
    → InRange v
    → lookup v (count_values i s counts) ≡ tally i v s (lookup v counts)
unfolding count_values
count_values_lem i v [] counts range = tally_nil i v (lookup v counts)
count_values_lem i v (c ∷ s) counts range =
    let x = little_endian (take 8 (c ∷ s)) in
    elim (Bool-cases (ltb (length (c ∷ s)) 8)) [
      | inl short ↦ rw short (
          count_values_lem (i + 1) v s counts range
          ∙ tally_other i v c s (lookup v counts) (ground (arith, short)))
      | inr long ↦ elim (Bool-cases (x == v)) [
        | inl same ↦
            let at : x ≡ v = (==_iff x v).0 same in
            let here : lookup v (count_value i x counts) ≡ some (seen_again i (lookup v counts)) =
              rw at (count_value_here i v counts range) in
            rw long (
              count_values_lem (i + 1) v s (count_value i x counts) range
              ∙ ap (tally (i + 1) v s) here
              ∙ tally_here i v c s (lookup v counts) (ground (arith, long, same)))
        | inr other ↦ rw long (
            count_values_lem (i + 1) v s (count_value i x counts) range
            ∙ ap (tally (i + 1) v s) (count_value_other i x v counts other)
            ∙ tally_other i v c s (lookup v counts) (ground (arith, other)))
      ]
    ]

-- Nothing else is counted.
count_value_outside :
    (i x v : ℕ) (counts : Dict ℕ Candidate)
    → (ltb v min_unix_nano || ltb max_unix_nano v) ≡ true
    → lookup v (count_value i x counts) ≡ lookup v counts
count_value_outside i x v counts out = elim (Bool-cases (x == v)) [
  | inl same ↦ let at : x ≡ v = (==_iff x v).0 same in rw (at, out) refl
  | inr other ↦ count_value_other i x v counts other
]

pub count_values_outside :
    (i v : ℕ) (s : Bytes) (counts : Dict ℕ Candidate)
    → (ltb v min_unix_nano || ltb max_unix_nano v) ≡ true
    → lookup v (count_values i s counts) ≡ lookup v counts
unfolding count_values
count_values_outside i v [] counts out = refl
count_values_outside i v (c ∷ s) counts out = elim (Bool-cases (ltb (length (c ∷ s)) 8)) [
  | inl short ↦ rw short (count_values_outside (i + 1) v s counts out)
  | inr long ↦
      let x = little_endian (take 8 (c ∷ s)) in
      rw long (
        count_values_outside (i + 1) v s (count_value i x counts) out
        ∙ count_value_outside i x v counts out)
]

count_value-AreDistinct :
    (i x : ℕ) (counts : Dict ℕ Candidate)
    → AreDistinct counts
    → AreDistinct (count_value i x counts)
count_value-AreDistinct i x counts d =
    elim (Bool-cases (ltb x min_unix_nano || ltb max_unix_nano x)) [
      | inl outside ↦ rw outside d
      | inr inside ↦ rw inside (insert-AreDistinct x (seen_again i (lookup x counts)) counts d)
    ]

pub count_values-AreDistinct :
    (i : ℕ) (s : Bytes) (counts : Dict ℕ Candidate)
    → AreDistinct counts
    → AreDistinct (count_values i s counts)
unfolding count_values
count_values-AreDistinct i [] counts d = d
count_values-AreDistinct i (c ∷ s) counts d = elim (Bool-cases (ltb (length (c ∷ s)) 8)) [
  | inl short ↦ rw short (count_values-AreDistinct (i + 1) s counts d)
  | inr long ↦
      let x = little_endian (take 8 (c ∷ s)) in
      rw long (
        count_values-AreDistinct (i + 1) s (count_value i x counts)
          (count_value-AreDistinct i x counts d))
]
