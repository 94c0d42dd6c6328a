-- ===== src/Dashboard/Genesis.antt =====
-- main.go, `Snapshot`: the time of the genesis block.
use mathlib.Core.Path.{subst}
use sharded_blockchain_dashb.Base.{
  ◌≡◌, ◌≢◌, refl, true, false, ap, Option, sym, ◌∙◌, not, none, some, List, [], ◌∷◌, ◌⊎◌, inl, inr,
  Bool-cases, All, keep, arith,
}
use sharded_blockchain_dashb.Base.Int.{ℤ, pos, negsuc, ◌≤ℤ◌, ltb_ℤ, ≤ℤ_trans}
use sharded_blockchain_dashb.Dashboard.{BlockView, is_zero_raw, earlier, earliest}

-- the views with a raw time
abbrev pub timed : List BlockView → List BlockView
timed vs = keep (λ v. not (is_zero_raw v.timestamp_raw)) vs

-- Some view of the list has this time.
abbrev pub Attains : ℤ → List BlockView → Type 0
Attains g [] = ⊥
Attains g (v ∷ vs) = (v.timestamp_raw ≡ g) ⊎ Attains g vs

earlier_le : (x ts : ℤ) → (earlier (some x) ts ≤ℤ x) × (earlier (some x) ts ≤ℤ ts)
earlier_le x ts = ground arith

earlier_is : (x ts : ℤ) → (earlier (some x) ts ≡ x) ⊎ (earlier (some x) ts ≡ ts)
earlier_is x ts = elim (Bool-cases (ltb_ℤ ts x)) [
  | inl less ↦ inr (rw less refl)
  | inr not_less ↦ inl (rw not_less refl)
]

-- From a time on, the loop gives the least time.
record IsLeast (g x : ℤ) (vs : List BlockView) : Type 0 where
  start : g ≤ℤ x
  least : All (λ v. g ≤ℤ v.timestamp_raw) vs
  attained : (g ≡ x) ⊎ Attains g vs

IsLeast-cons :
    (g x : ℤ) (v : BlockView) (vs : List BlockView)
    → IsLeast g (earlier (some x) v.timestamp_raw) vs
    → IsLeast g x (v ∷ vs)
IsLeast-cons g x v vs l =
    let (low, low') = earlier_le x v.timestamp_raw in
    record {
      start = ≤ℤ_trans g (earlier (some x) v.timestamp_raw) x l.start low;
      least = (≤ℤ_trans g (earlier (some x) v.timestamp_raw) v.timestamp_raw l.start low', l.least);
      attained = elim l.attained [
        | inr later ↦ inr (inr later)
        | inl now ↦ elim (earlier_is x v.timestamp_raw) [
          | inl old ↦ inl (now ∙ old)
          | inr new ↦ inr (inl (sym (now ∙ new)))
        ]
      ];
    }

earliest_from :
    (x : ℤ) (vs : List BlockView)
    → (g : ℤ) × (earliest (some x) vs ≡ some g) × IsLeast g x (timed vs)
unfolding earliest
earliest_from x [] = (x, refl, record { start = omega arith; least = tt; attained = inl refl })
earliest_from x (v ∷ vs) = elim (Bool-cases (is_zero_raw v.timestamp_raw)) [
  | inl zero_raw ↦ rw zero_raw (earliest_from x vs)
  | inr has_time ↦
      let (g, e, l) = earliest_from (earlier (some x) v.timestamp_raw) vs in
      rw has_time (g, e, IsLeast-cons g x v (timed vs) l)
]

earliest-timed :
    (vs : List BlockView)
    → ((earliest none vs ≡ none) × (timed vs ≡ []))
      ⊎ ((g : ℤ) × (earliest none vs ≡ some g)
          × Attains g (timed vs)
          × All (λ v. g ≤ℤ v.timestamp_raw) (timed vs))
unfolding earliest
earliest-timed [] = inl (refl, refl)
earliest-timed (v ∷ vs) = elim (Bool-cases (is_zero_raw v.timestamp_raw)) [
  | inl zero_raw ↦ rw zero_raw (earliest-timed vs)
  | inr has_time ↦
      let (g, e, l) = earliest_from v.timestamp_raw vs in
      rw has_time (
        inr (
          g,
          e,
          elim l.attained [ inl now ↦ inl (sym now) | inr later ↦ inr later ],
          (l.start, l.least),
        ))
]

-- the time of the genesis block among these views: none where every raw time is 0, and otherwise a raw
-- time that is not 0, where no other that is not 0 is before it
abbrev pub IsEarliest : Option ℤ → List BlockView → Type 0
IsEarliest none vs = All (λ v. v.timestamp_raw ≡ pos 0) vs
IsEarliest (some g) vs =
    Attains g vs × (g ≢ pos 0) × All (λ v. (v.timestamp_raw ≡ pos 0) ⊎ (g ≤ℤ v.timestamp_raw)) vs

is_zero_raw_sound : (x : ℤ) → is_zero_raw x ≡ true → x ≡ pos 0
is_zero_raw_sound (pos n) h = let zero_now : n ≡ 0 = ground (arith, h) in ap pos zero_now
is_zero_raw_sound (negsuc n) h = ground (arith, h)

timed_nil : (vs : List BlockView) → timed vs ≡ [] → All (λ v. v.timestamp_raw ≡ pos 0) vs
timed_nil [] h = tt
timed_nil (v ∷ vs) h = elim (Bool-cases (is_zero_raw v.timestamp_raw)) [
  | inl zero_raw ↦
      (is_zero_raw_sound v.timestamp_raw zero_raw, timed_nil vs (ground (arith, h, zero_raw)))
  | inr has_time ↦ absurd (ground (arith, h, has_time))
]

has_time-not_zero : (x g : ℤ) → is_zero_raw x ≡ false → x ≡ g → g ≢ pos 0
has_time-not_zero x g has_time now z =
    let zero_raw : is_zero_raw x ≡ true = ap is_zero_raw (now ∙ z) in
    ground (arith, has_time, zero_raw)

timed-untimed :
    (v : BlockView) (vs : List BlockView)
    → is_zero_raw v.timestamp_raw ≡ true
    → timed (v ∷ vs) ≡ timed vs
timed-untimed v vs zero_raw = rw zero_raw refl

timed-timed :
    (v : BlockView) (vs : List BlockView)
    → is_zero_raw v.timestamp_raw ≡ false
    → timed (v ∷ vs) ≡ v ∷ timed vs
timed-timed v vs has_time = rw has_time refl

timed_attained : (g : ℤ) (vs : List BlockView) → Attains g (timed vs) → Attains g vs × (g ≢ pos 0)
timed_attained g [] h = absurd h
timed_attained g (v ∷ vs) h = elim (Bool-cases (is_zero_raw v.timestamp_raw)) [
  | inl zero_raw ↦
      let (later, some_time) =
        timed_attained g vs (subst (Attains g) (timed-untimed v vs zero_raw) h) in
      (inr later, some_time)
  | inr has_time ↦ elim (subst (Attains g) (timed-timed v vs has_time) h) [
    | inl now ↦ (inl now, has_time-not_zero v.timestamp_raw g has_time now)
    | inr there ↦ let (later, some_time) = timed_attained g vs there in (inr later, some_time)
  ]
]

timed_least :
    (g : ℤ) (vs : List BlockView)
    → All (λ v. g ≤ℤ v.timestamp_raw) (timed vs)
    → All (λ v. (v.timestamp_raw ≡ pos 0) ⊎ (g ≤ℤ v.timestamp_raw)) vs
timed_least g [] h = tt
timed_least g (v ∷ vs) h = elim (Bool-cases (is_zero_raw v.timestamp_raw)) [
  | inl zero_raw ↦ (
    inl (is_zero_raw_sound v.timestamp_raw zero_raw),
    timed_least g vs (subst (All (λ w. g ≤ℤ w.timestamp_raw)) (timed-untimed v vs zero_raw) h),
  )
  | inr has_time ↦
      let (low, lows) = subst (All (λ w. g ≤ℤ w.timestamp_raw)) (timed-timed v vs has_time) h in
      (inr low, timed_least g vs lows)
]

-- The loops of `Snapshot` take the earliest of the raw times that are not 0, and none where all are 0.
pub earliest_lem : (vs : List BlockView) → IsEarliest (earliest none vs) vs
earliest_lem vs = elim (earliest-timed vs) [
  | inl (missing, untimed) ↦ rw missing (timed_nil vs untimed)
  | inr (g, found, attained, least) ↦
      let (there, some_time) = timed_attained g vs attained in
      rw found (there, some_time, timed_least g vs least)
]
