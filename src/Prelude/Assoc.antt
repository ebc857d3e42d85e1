-- ===== src/Prelude/Assoc.antt =====
-- `HashMap<String, V>` and `BTreeMap<String, V>` as association lists.
use Prim.Native.String.{String}
use mathlib.Core.Path.{◌≡◌, refl}
use mathlib.Core.Option.{Option, none, some}
use mathlib.Core.List.{List, [], ◌∷◌}
use native.Mathlib.Omega.{arith}
use text.Mathlib.TextEquality.{eq_iff}
use idempotent_proxy.Prelude.Tests.{if◌then◌else◌}
use idempotent_proxy.Prelude.Text.{str_eq}

module _ {ℓ} {V : Type ℓ} where
  unfoldable pub remove : String → List (String × V) → List (String × V)
  remove name [] = []
  remove name ((key, old) ∷ rest) =
      if str_eq key name then remove name rest else (key, old) ∷ remove name rest

  unfoldable pub lookup : String → List (String × V) → Option V
  lookup name [] = none
  lookup name ((key, old) ∷ rest) = if str_eq key name then some old else lookup name rest

  -- Sets the value of a key, in its place if the key is present.
  unfoldable pub insert : String → V → List (String × V) → List (String × V)
  insert name new [] = (name, new) ∷ []
  insert name new ((key, old) ∷ rest) =
      if str_eq key name then (name, new) ∷ rest else (key, old) ∷ insert name new rest

  pub lookup-remove :
      (name other : String) (entries : List (String × V))
      → lookup other (remove name entries)
        ≡ (if str_eq name other then none else lookup other entries)
  unfolding lookup remove
  lookup-remove name other [] = ground arith
  lookup-remove name other ((key, old) ∷ rest) =
      let tail = lookup-remove name other rest in
      ground (tail, eq_iff key name, eq_iff key other, eq_iff name other, arith)

  pub lookup-insert :
      (name other : String) (new : V) (entries : List (String × V))
      → lookup other (insert name new entries)
        ≡ (if str_eq name other then some new else lookup other entries)
  unfolding lookup insert
  lookup-insert name other new [] = refl
  lookup-insert name other new ((key, old) ∷ rest) =
      let tail = lookup-insert name other new rest in
      ground (tail, eq_iff key name, eq_iff key other, eq_iff name other, arith)
