-- ===== src/Prelude/Lists.antt =====
-- Lists measured by native numbers, filters by a Boolean test, and predicates on all elements.
use Prim.Native.Nat.{ℕ, suc, ◌+◌}
use mathlib.Core.Path.{◌≡◌, refl}
use mathlib.Core.Bool.{Bool, true, false, ◌||◌}
use mathlib.Core.Logic.{◌⊎◌}
use mathlib.Core.List.{List, [], ◌∷◌, ◌++◌}
use native.Mathlib.Omega.{arith}
use idempotent_proxy.Prelude.Tests.{if◌then◌else◌}

module _ {ℓ} {A : Type ℓ} where
  abbrev pub length : List A → ℕ
  length [] = 0
  length (x ∷ xs) = suc (length xs)

  abbrev pub is_empty : List A → Bool
  is_empty [] = true
  is_empty (x ∷ xs) = false

  abbrev pub any : (A → Bool) → List A → Bool
  any p [] = false
  any p (x ∷ xs) = p x || any p xs

  -- `Vec::retain`, `Iterator::filter`.
  abbrev pub retain : (A → Bool) → List A → List A
  retain p [] = []
  retain p (x ∷ xs) = if p x then x ∷ retain p xs else retain p xs

  abbrev pub All {κ} : (A → Type κ) → List A → Type κ
  All P [] = Unit
  All P (x ∷ xs) = P x × All P xs

  pub length-append : (xs ys : List A) → length (xs ++ ys) ≡ length xs + length ys
  length-append [] ys = omega arith
  length-append (x ∷ xs) ys = omega (arith, length-append xs ys)

-- Membership, by recursion.
abbrev pub Member : {A : Type 0} → A → List A → Type 0
Member a [] = ⊥
Member a (x ∷ xs) = (a ≡ x) ⊎ Member a xs

pub empty_nil {ℓ} : {A : Type ℓ} (l : List A) → is_empty l ≡ true → l ≡ []
empty_nil [] h = refl
empty_nil (x ∷ l) h = cc
