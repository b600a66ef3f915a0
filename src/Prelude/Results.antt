-- ===== src/Prelude/Results.antt =====
-- The result of a function that may raise, with the kinds of error that it raises.
use mathlib.Core.Bool.{Bool, true, false}
use mathlib.Core.Path.{◌≡◌, refl, ap}
use mathlib.Core.Logic.{◌⊎◌, inl, inr}
use native.Mathlib.Omega.{arith}

pub data Result {ℓ} (E : Type 0) (A : Type ℓ) : Type ℓ where
  ok : A → Result E A
  err : E → Result E A

infixl 5 ◌>>=◌
abbrev pub ◌>>=◌ {ℓ κ} :
    {E : Type 0} {A : Type ℓ} {B : Type κ} → Result E A → (A → Result E B) → Result E B
ok a >>= f = f a
err e >>= f = err e

abbrev pub is_ok {ℓ} : {E : Type 0} {A : Type ℓ} → Result E A → Bool
is_ok (ok a) = true
is_ok (err e) = false

-- A chain that ends well was well at each step.
pub bind_inv {ℓ κ} :
    {E : Type 0} {A : Type ℓ} {B : Type κ} (m : Result E A) (f : A → Result E B) (b : B)
    → (m >>= f) ≡ ok b
    → (a : A) × (m ≡ ok a) × (f a ≡ ok b)
bind_inv (ok a) f b h = (a, refl, h)
bind_inv (err e) f b h = ground (arith, h)

pub ok-is_ok {ℓ} : {E : Type 0} {A : Type ℓ} (m : Result E A) (a : A) → m ≡ ok a → is_ok m ≡ true
ok-is_ok m a h = rw h

module _ {ℓ} {E : Type 0} {A : Type ℓ} where
  abbrev pub value_or : A → Result E A → A
  value_or a (ok b) = b
  value_or a (err e) = a

  pub ok_injective : (a b : A) → Path (Result E A) (ok a) (ok b) → a ≡ b
  ok_injective a b h = ap (value_or a) h

pub Result-cases {ℓ} :
    {E : Type 0} {A : Type ℓ} (m : Result E A) → ((a : A) × (m ≡ ok a)) ⊎ ((e : E) × (m ≡ err e))
Result-cases (ok a) = inl (a, refl)
Result-cases (err e) = inr (e, refl)
