-- ===== src/Prelude/Text.antt =====
-- Rust's `str` as far as the program walks it: `format!` pieces, `strip_prefix`, integers in decimal.
use Prim.Native.Char.{code}
use Prim.Native.Nat.{ℕ, zero, suc, ◌/◌, ◌%◌}
use Prim.Native.String.{String, compare, ◌++◌ as str_append}
use text.Mathlib.Text.{is_le}
use mathlib.Core.Bool.{Bool, true, false}
use mathlib.Core.List.{List, [], ◌∷◌}
use mathlib.Core.Option.{Option, none, some}
use durare.Prelude.Tests.{eqb, if◌then◌else◌}
use durare.Prelude.Int.{ℤ, pos, negsuc}

-- `format!` puts its pieces one after the other.
unfoldable pub format : List String → String
format [] = ""
format (s ∷ rest) = str_append s (format rest)

unfoldable pub strip_prefix : String → String → Option String
strip_prefix s String.[] = some s
strip_prefix String.[] (String.◌∷◌ d p) = none
strip_prefix (String.◌∷◌ c s) (String.◌∷◌ d p) =
    if eqb (code c) (code d) then strip_prefix s p else none

-- `str::starts_with`
abbrev pub starts_with : String → String → Bool
starts_with s p = elim (strip_prefix s p) [ some rest ↦ true | none ↦ false ]

digit : ℕ → String
digit n =
    if eqb n 0
    then "0"
    else if eqb n 1
    then "1"
    else if eqb n 2
    then "2"
    else if eqb n 3
    then "3"
    else if eqb n 4
    then "4"
    else if eqb n 5
    then "5"
    else if eqb n 6
    then "6"
    else if eqb n 7
    then "7"
    else if eqb n 8
    then "8"
    else "9"

-- The number of digits is at most the fuel `suc n`.
decimal : ℕ → ℕ → String → String
unfolding digit
decimal zero n acc = acc
decimal (suc f) n acc =
    let shown = str_append (digit (n % 10)) acc in
    let rest = decimal f (n / 10) shown in if eqb (n / 10) 0 then shown else rest

unfoldable pub display_ℕ : ℕ → String
unfolding decimal
display_ℕ n = decimal (suc n) n ""

unfoldable pub display_ℤ : ℤ → String
unfolding display_ℕ
display_ℤ (pos n) = display_ℕ n
display_ℤ (negsuc n) = str_append "-" (display_ℕ (suc n))

-- Texts are ordered by their bytes, which for UTF-8 is the order of their characters.
unfoldable pub str_leb : String → String → Bool
str_leb s t = is_le (compare s t)
