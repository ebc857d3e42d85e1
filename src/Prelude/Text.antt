-- ===== src/Prelude/Text.antt =====
-- Texts: the operations of `str` that the program calls, over native strings.
pub mod Trim
use Prim.Native.Nat.{ℕ, ◌+◌, ◌-◌}
use Prim.Native.Char.{Char, code}
use Prim.Native.String
use Prim.Native.String.{String, [], ◌∷◌}
use mathlib.Core.Path.{◌≡◌, refl}
use mathlib.Core.Bool.{Bool, true, false, ◌&&◌, ◌||◌}
use mathlib.Core.Option.{Option, none, some}
use mathlib.Core.List
use mathlib.Core.List.{List}
use native.Mathlib.Omega.{arith}
use text.Mathlib.Text.{◌==◌}
use idempotent_proxy.Prelude.Tests.{leb, if◌then◌else◌, ◌==◌ as nat_eq}

-- Equality of texts.
abbrev pub str_eq : String → String → Bool
str_eq s t = s == t

-- `str::is_empty`.
abbrev pub text_is_empty : String → Bool
text_is_empty [] = true
text_is_empty (c ∷ s) = false

-- `format!`: the pieces one after another.
abbrev pub join : List String → String
join List.[] = ""
join (List.◌∷◌ s l) = String.◌++◌ s (join l)

-- `s.strip_prefix(p)`.
unfoldable pub strip_prefix : String → String → Option String
strip_prefix [] s = some s
strip_prefix (c ∷ p) [] = none
strip_prefix (c ∷ p) (d ∷ s) = if nat_eq (code c) (code d) then strip_prefix p s else none

-- `s.starts_with(p)`.
unfoldable pub starts_with : String → String → Bool
unfolding strip_prefix
starts_with p s = elim (strip_prefix p s) [ none ↦ false | some rest ↦ true ]

-- `s.contains(p)`.
unfoldable pub contains_text : String → String → Bool
unfolding starts_with
contains_text p [] = starts_with p []
contains_text p (c ∷ s) = starts_with p (c ∷ s) || contains_text p s

-- `char::is_whitespace`.
abbrev pub is_whitespace : Char → Bool
is_whitespace c =
    (leb 9 (code c) && leb (code c) 13)
    || (nat_eq (code c) 32
        || (nat_eq (code c) 0x85
            || (nat_eq (code c) 0xa0
                || (nat_eq (code c) 0x1680
                    || ((leb 0x2000 (code c) && leb (code c) 0x200a)
                        || (nat_eq (code c) 0x2028
                            || (nat_eq (code c) 0x2029
                                || (nat_eq (code c) 0x202f
                                    || (nat_eq (code c) 0x205f || nat_eq (code c) 0x3000)))))))))

trim_start : String → String
trim_start [] = []
trim_start (c ∷ s) = if is_whitespace c then trim_start s else c ∷ s

trim_end : String → String
trim_end [] = []
trim_end (c ∷ s) =
    let rest = trim_end s in if is_whitespace c && text_is_empty rest then [] else c ∷ rest

-- `str::trim`.
unfoldable pub trim : String → String
unfolding trim_start trim_end
trim s = trim_end (trim_start s)

abbrev cons_head : Char → List String → List String
cons_head c List.[] = List.◌∷◌ (c ∷ []) List.[]
cons_head c (List.◌∷◌ w ws) = List.◌∷◌ (c ∷ w) ws

-- `s.split(c)`, for the character of a number.
unfoldable pub split : ℕ → String → List String
split sep [] = List.◌∷◌ "" List.[]
split sep (c ∷ s) =
    if nat_eq (code c) sep then List.◌∷◌ "" (split sep s) else cons_head c (split sep s)

abbrev pub lower_char : Char → Char
lower_char c =
    if leb 65 (code c) && leb (code c) 90
    then String.char_at "abcdefghijklmnopqrstuvwxyz" (code c - 65)
    else c

-- `str::to_ascii_lowercase`.
unfoldable pub to_ascii_lowercase : String → String
to_ascii_lowercase [] = []
to_ascii_lowercase (c ∷ s) = lower_char c ∷ to_ascii_lowercase s

-- The bytes of a text in ASCII, `b"…"`.
abbrev pub ascii_bytes : String → List ℕ
ascii_bytes [] = List.[]
ascii_bytes (c ∷ s) = List.◌∷◌ (code c) (ascii_bytes s)
