-- ===== src/Dashboard/Flat/Best.antt =====
-- What the second loop of `extractTimestamp` finds: a candidate of the list that no other beats.
use sharded_blockchain_dashb.Base.{
  ℕ, ◌≡◌, refl, ap, ◌∙◌, false, Option, none, some, [], ◌∷◌, ◌==◌, ==_iff, if◌then◌else◌, ◌⊎◌, inl,
  inr, Bool-cases, All, arith,
}
use sharded_blockchain_dashb.Base.Keyed.{nat_eq}
use sharded_blockchain_dashb.Base.Dict.{Dict, lookup}
use sharded_blockchain_dashb.Base.Maps.{AreDistinct}
use sharded_blockchain_dashb.Dashboard.Flat.{Candidate, beats, better, best_value}

-- the candidate does not beat the value found so far
abbrev pub UpTo : Option (ℕ × Candidate) → Candidate → Type 0
UpTo none c = Unit
UpTo (some b) c = beats b.1 c ≡ false

UpTo-trans : (a b c : Candidate) → beats a b ≡ false → beats b c ≡ false → beats a c ≡ false
UpTo-trans a b c h k = ground arith

better-upper :
    (e : ℕ × Candidate) (best : Option (ℕ × Candidate)) (c : Candidate)
    → UpTo (better e best) c
    → (beats e.1 c ≡ false) × UpTo best c
better-upper (v, d) none c h = (h, tt)
better-upper (v, d) (some (w, b)) c h = elim (Bool-cases (beats d b)) [
  | inl wins ↦ let k : beats d c ≡ false = rw wins at h in (k, ground (arith, wins, k))
  | inr loses ↦ let k : beats b c ≡ false = rw loses at h in (UpTo-trans d b c loses k, k)
]

pub best_value-upper :
    (best : Option (ℕ × Candidate)) (m : Dict ℕ Candidate) (v : ℕ) (c : Candidate)
    → best_value best m ≡ some (v, c)
    → UpTo best c × All (λ e. beats e.1 c ≡ false) m
unfolding best_value
best_value-upper none [] v c h = (tt, tt)
best_value-upper (some b) [] v c h = (ground (arith, h), tt)
best_value-upper best (e ∷ m) v c h =
    let (first, rest) = best_value-upper (better e best) m v c h in
    let (here, before) = better-upper e best c first in (before, (here, rest))

better_one :
    (e : ℕ × Candidate) (best : Option (ℕ × Candidate)) (f : ℕ × Candidate)
    → better e best ≡ some f
    → (best ≡ some f) ⊎ (e ≡ f)
better_one (v, d) none f h = inr (cc)
better_one (v, d) (some (w, b)) f h = elim (Bool-cases (beats d b)) [
  | inl wins ↦ let k : some (v, d) ≡ some f = rw wins at h in inr (cc)
  | inr loses ↦ inl (rw loses at h)
]

lookup_cons :
    (k j : ℕ) (d : Candidate) (m : Dict ℕ Candidate)
    → lookup k ((j, d) ∷ m) ≡ (if j == k then some d else lookup k m)
unfolding lookup
lookup_cons k j d m = refl

pub best_value_found :
    (best : Option (ℕ × Candidate)) (m : Dict ℕ Candidate) (v : ℕ) (c : Candidate)
    → AreDistinct m
    → best_value best m ≡ some (v, c)
    → (best ≡ some (v, c)) ⊎ (lookup v m ≡ some c)
unfolding best_value
best_value_found best [] v c d h = inl h
best_value_found best ((k, e) ∷ m) v c (new, d) h =
    elim (best_value_found (better (k, e) best) m v c d h) [
      | inr later ↦ inr (elim (Bool-cases (k == v)) [
        | inl same ↦ let at : k ≡ v = (==_iff k v).0 same in cc (new, later, at)
        | inr other ↦ lookup_cons v k e m ∙ rw other later
      ])
      | inl now ↦ elim (better_one (k, e) best (v, c) now) [
        | inl before ↦ inl before
        | inr here ↦
            let at : k ≡ v = ap (λ x. x.0) here in
            let same : e ≡ c = ap (λ x. x.1) here in
            let hit : (if k == v then some e else lookup v m) ≡ some c = ground (arith, at, same) in
            inr (lookup_cons v k e m ∙ hit)
      ]
    ]

better_some : (e : ℕ × Candidate) (best : Option (ℕ × Candidate)) → better e best ≡ none → ⊥
better_some (v, d) none h = cc
better_some (v, d) (some (w, b)) h = elim (Bool-cases (beats d b)) [
  | inl wins ↦ let k : ◌≡◌ {A = Option (ℕ × Candidate)} (some (v, d)) none = rw wins at h in cc
  | inr loses ↦ let k : ◌≡◌ {A = Option (ℕ × Candidate)} (some (w, b)) none = rw loses at h in cc
]

pub best_value-none :
    (best : Option (ℕ × Candidate)) (m : Dict ℕ Candidate)
    → best_value best m ≡ none
    → (best ≡ none) × (m ≡ [])
unfolding best_value
best_value-none best [] h = (h, refl)
best_value-none best (e ∷ m) h = absurd (better_some e best (best_value-none (better e best) m h).0)

pub lookup-upper :
    (m : Dict ℕ Candidate) (c : Candidate) (w : ℕ) (d : Candidate)
    → All (λ e. beats e.1 c ≡ false) m
    → lookup w m ≡ some d
    → beats d c ≡ false
unfolding lookup
lookup-upper [] c w d a h = cc
lookup-upper ((k, e) ∷ m) c w d (b, bs) h = elim (Bool-cases (k == w)) [
  | inl same ↦ ground (arith, b, same, h)
  | inr other ↦ lookup-upper m c w d bs (ground (arith, other, h))
]
