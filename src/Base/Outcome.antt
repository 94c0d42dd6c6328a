-- ===== src/Base/Outcome.antt =====
-- A Go call returns or panics. `log.Panic`, a nil dereference, an index out of range and a write
-- to a nil map all panic.
use mathlib.Core.Path.{◌≡◌, refl}
use mathlib.Core.Logic.{◌⊎◌, inl, inr}
use mathlib.Core.Option.{Option, none, some}

pub data Outcome {ℓ} (A : Type ℓ) : Type ℓ where
  ret : A → Outcome A
  panic : Outcome A

infixl 5 ◌>>=◌ ◌>>◌
abbrev pub ◌>>=◌ {ℓ κ} : {A : Type ℓ} {B : Type κ} → Outcome A → (A → Outcome B) → Outcome B
ret a >>= f = f a
panic >>= f = panic

abbrev pub ◌>>◌ {ℓ κ} : {A : Type ℓ} {B : Type κ} → Outcome A → Outcome B → Outcome B
m >> k = m >>= λ _. k

-- a nil pointer, or an error that the caller answers by `log.Panic`
abbrev pub deref {ℓ} : {A : Type ℓ} → Option A → Outcome A
deref none = panic
deref (some a) = ret a

pub ret-injective {ℓ} : {A : Type ℓ} {a b : A} → ret a ≡ ret b → a ≡ b
ret-injective h = cc

pub Outcome-cases {ℓ} : {A : Type ℓ} (m : Outcome A) → (m ≡ panic) ⊎ ((a : A) × (m ≡ ret a))
Outcome-cases panic = inl refl
Outcome-cases (ret a) = inr (a, refl)

-- Inversion of a call that returned.
pub >>=-eq-ret {ℓ κ} :
    {A : Type ℓ} {B : Type κ} (m : Outcome A) (f : A → Outcome B) {b : B}
    → (m >>= f) ≡ ret b
    → (a : A) × (m ≡ ret a) × (f a ≡ ret b)
>>=-eq-ret (ret a) f h = (a, refl, h)
>>=-eq-ret panic f h = cc

pub deref-eq-ret {ℓ} : {A : Type ℓ} (o : Option A) {a : A} → deref o ≡ ret a → o ≡ some a
deref-eq-ret none h = cc
deref-eq-ret (some x) h = cc
