-- ===== src/Prelude/Results.antt =====
-- `Result<A, E>` and its `?`, as a monad.
use mathlib.Core.Path.{◌≡◌, refl}
use mathlib.Core.Logic.{◌⊎◌, inl, inr}

pub data Result {ℓ κ} (A : Type ℓ) (E : Type κ) : Type (ℓ ⊔ κ) where
  ok : A → Result A E
  err : E → Result A E

infixl 5 ◌>>=◌
abbrev pub ◌>>=◌ {ℓ κ μ} :
    {A : Type ℓ} {B : Type μ} {E : Type κ} → Result A E → (A → Result B E) → Result B E
ok a >>= f = f a
err e >>= f = err e

abbrev pub map_err {ℓ κ μ} :
    {A : Type ℓ} {E : Type κ} {F : Type μ} → (E → F) → Result A E → Result A F
map_err f (ok a) = ok a
map_err f (err e) = err (f e)

abbrev pub map_ok {ℓ κ μ} :
    {A : Type ℓ} {B : Type μ} {E : Type κ} → (A → B) → Result A E → Result B E
map_ok f (ok a) = ok (f a)
map_ok f (err e) = err e

pub Result-cases {ℓ κ} :
    {A : Type ℓ} {E : Type κ} (r : Result A E) → ((a : A) × (r ≡ ok a)) ⊎ ((e : E) × (r ≡ err e))
Result-cases (ok a) = inl (a, refl)
Result-cases (err e) = inr (e, refl)
