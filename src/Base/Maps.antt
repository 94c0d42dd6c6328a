-- ===== src/Base/Maps.antt =====
-- Go maps up to order: an association list whose keys stand once, up to the order of its entries, is a
-- map. Go goes through a map in no fixed order, so what the code computes must not depend on it.
use mathlib.Core.Path.{◌≡◌, refl}
use mathlib.Core.Quot.{Quot}
use mathlib.Core.Option.{none}
use mathlib.Core.Logic.{inl, inr}
use mathlib.Core.List.{[], ◌∷◌}
use native.Mathlib.Omega.{arith}
use sharded_blockchain_dashb.Base.Tests.{Bool-cases}
use sharded_blockchain_dashb.Base.Keyed.{Eq, ◌===◌}
use sharded_blockchain_dashb.Base.Dict.{Dict, lookup, insert, lookup-insert}

module _ {ℓ κ} {K : Type ℓ} {V : Type κ} ⦃e : Eq K⦄ where
  abbrev pub AreDistinct : Dict K V → Type κ
  AreDistinct [] = Unit
  AreDistinct ((k, v) ∷ m) = (lookup k m ≡ none) × AreDistinct m

  -- the same value under every key
  abbrev pub SameMap : Dict K V → Dict K V → Type (ℓ ⊔ κ)
  SameMap m n = (k : K) → lookup k m ≡ lookup k n

  pub insert-AreDistinct :
      (k : K) (v : V) (m : Dict K V) → AreDistinct m → AreDistinct (insert k v m)
  unfolding insert lookup
  insert-AreDistinct k v [] d = (refl, tt)
  insert-AreDistinct k v ((j, w) ∷ m) (new, d) = elim (Bool-cases (j === k)) [
    | inl same ↦ rw same (rw (← (e.beq_iff j k).0 same) new, d)
    | inr other ↦ rw other (
      ground (arith, lookup-insert k j v m, e.beq_iff k j, e.beq_iff j k, other, new),
      insert-AreDistinct k v m d,
    )
  ]

module _ {ℓ κ} (K : Type ℓ) (V : Type κ) ⦃e : Eq K⦄ where
  abbrev pub Entries : Type (ℓ ⊔ κ)
  Entries = (m : Dict K V) × AreDistinct m

  abbrev pub SameEntries : Entries → Entries → Type (ℓ ⊔ κ)
  SameEntries m n = SameMap m.0 n.0

  abbrev pub GoMap : Type (ℓ ⊔ κ)
  GoMap = Quot SameEntries
