-- ===== src/Prelude/Text/Trim.antt =====
-- Trimming and splitting a text.
use Prim.Native.Nat.{ℕ}
use Prim.Native.Char.{Char, code}
use Prim.Native.String.{String, [], ◌∷◌}
use mathlib.Core.Path.{◌≡◌, refl, ap, ◌∙◌}
use mathlib.Core.Logic.{◌≢◌, inl, inr}
use mathlib.Core.Bool.{false, ◌&&◌}
use mathlib.Core.List.{List}
use native.Mathlib.Omega.{arith}
use idempotent_proxy.Prelude.Tests.{Bool-cases, ◌==◌}
use idempotent_proxy.Prelude.Lists.{All}
use idempotent_proxy.Prelude.Text.{
  text_is_empty, is_whitespace, trim, trim_start, trim_end, split, cons_head,
}

abbrev IsStarted : String → Type 0
IsStarted [] = Unit
IsStarted (c ∷ s) = is_whitespace c ≡ false

trim_start-IsStarted : (s : String) → IsStarted (trim_start s)
unfolding trim_start
trim_start-IsStarted [] = tt
trim_start-IsStarted (c ∷ s) = elim (Bool-cases (is_whitespace c)) [
  | inl white ↦ rw (white, trim_start) (trim_start-IsStarted s)
  | inr ink ↦ rw (ink, trim_start) ink
]

trim_start_of_IsStarted : (s : String) → IsStarted s → trim_start s ≡ s
unfolding trim_start
trim_start_of_IsStarted [] h = refl
trim_start_of_IsStarted (c ∷ s) h = rw (h, trim_start) refl

trim_end-IsStarted : (s : String) → IsStarted s → IsStarted (trim_end s)
unfolding trim_end
trim_end-IsStarted [] h = tt
trim_end-IsStarted (c ∷ s) h = rw (h, trim_end) h

trim_end_idem : (s : String) → trim_end (trim_end s) ≡ trim_end s
unfolding trim_end
trim_end_idem [] = refl
trim_end_idem (c ∷ s) = elim (Bool-cases (is_whitespace c && text_is_empty (trim_end s))) [
  | inl drop ↦ rw (drop, trim_end) refl
  | inr keep ↦ rw (keep, trim_end) (rw (trim_end_idem s, trim_end) (rw (keep, trim_end) refl))
]

pub trim_idem : (s : String) → trim (trim s) ≡ trim s
unfolding trim
trim_idem s =
    ap trim_end
      (trim_start_of_IsStarted _ (trim_end-IsStarted (trim_start s) (trim_start-IsStarted s)))
    ∙ trim_end_idem (trim_start s)

-- The text does not hold the character of the number.
abbrev pub Lacks : ℕ → String → Type 0
Lacks n [] = Unit
Lacks n (c ∷ s) = (code c ≢ n) × Lacks n s

trim_start-Lacks : (n : ℕ) (s : String) → Lacks n s → Lacks n (trim_start s)
unfolding trim_start
trim_start-Lacks n [] h = tt
trim_start-Lacks n (c ∷ s) h = elim (Bool-cases (is_whitespace c)) [
  | inl white ↦ rw (white, trim_start) (trim_start-Lacks n s h.1)
  | inr ink ↦ rw (ink, trim_start) h
]

trim_end-Lacks : (n : ℕ) (s : String) → Lacks n s → Lacks n (trim_end s)
unfolding trim_end
trim_end-Lacks n [] h = tt
trim_end-Lacks n (c ∷ s) h = elim (Bool-cases (is_whitespace c && text_is_empty (trim_end s))) [
  | inl drop ↦ rw (drop, trim_end) tt
  | inr keep ↦ rw (keep, trim_end) (h.0, trim_end-Lacks n s h.1)
]

pub trim-Lacks : (n : ℕ) (s : String) → Lacks n s → Lacks n (trim s)
unfolding trim
trim-Lacks n s h = trim_end-Lacks n _ (trim_start-Lacks n s h)

All-cons_head :
    (n : ℕ) (c : Char) (ws : List String)
    → code c ≢ n
    → All (Lacks n) ws
    → All (Lacks n) (cons_head c ws)
All-cons_head n c List.[] h a = ((h, tt), tt)
All-cons_head n c (List.◌∷◌ w ws) h a = ((h, a.0), a.1)

-- The pieces of a split hold no separator.
pub split-Lacks : (n : ℕ) (s : String) → All (Lacks n) (split n s)
unfolding split
split-Lacks n [] = (tt, tt)
split-Lacks n (c ∷ s) = elim (Bool-cases (code c == n)) [
  | inl sep ↦ rw (sep, split) (tt, split-Lacks n s)
  | inr other ↦ rw (other, split) (All-cons_head n c (split n s) (ground arith) (split-Lacks n s))
]
