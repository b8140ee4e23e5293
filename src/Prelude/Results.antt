-- ===== src/Prelude/Results.antt =====
-- Chains of checks, each of which may end the chain with an error.
use mathlib.Core.Path.{◌≡◌, refl}
use mathlib.Core.Logic.{◌⊎◌, inl, inr}
use mathlib.Core.Bool.{Bool, true, false}
use mathlib.Core.Option.{Option, none, some}

infixl 5 ◌>>=◌
unfoldable pub ◌>>=◌ {ℓ κ μ} : {E : Type ℓ} {A : Type κ} {B : Type μ} → E ⊎ A → (A → E ⊎ B) → E ⊎ B
inl e >>= f = inl e
inr a >>= f = f a

unfoldable pub required {ℓ κ} : {E : Type ℓ} {A : Type κ} → E → Option A → E ⊎ A
required e none = inl e
required e (some a) = inr a

unfoldable pub require {ℓ} : {E : Type ℓ} → E → Bool → E ⊎ Unit {0}
require e true = inr tt
require e false = inl e

-- Inversion of a chain that ends well: what its first step gave, for the rest of a proof.
pub required-bind {ℓ κ μ ν} :
    {E : Type ℓ} {A : Type κ} {B : Type μ} {C : Type ν} (e : E) (m : Option A) (f : A → E ⊎ B)
    {b : B}
    → (required e m >>= f) ≡ inr b
    → ((a : A) → m ≡ some a → f a ≡ inr b → C)
    → C
unfolding ◌>>=◌ required
required-bind e none f h go = cc
required-bind e (some a) f h go = go a refl h

pub require-bind {ℓ μ ν} :
    {E : Type ℓ} {B : Type μ} {C : Type ν} (e : E) (m : Bool) (f : Unit {0} → E ⊎ B) {b : B}
    → (require e m >>= f) ≡ inr b
    → (m ≡ true → f tt ≡ inr b → C)
    → C
unfolding ◌>>=◌ require
require-bind e false f h go = cc
require-bind e true f h go = go refl h
