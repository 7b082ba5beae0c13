-- ===== src/Prelude/Texts.antt =====
-- What the program asks of texts: blankness, suffixes, membership in a list of texts.
use Prim.Native.Char.{code}
use Prim.Native.Nat.{ℕ, ◌+◌, ◌-◌, ◌*◌}
use Prim.Native.String.{String}
use mathlib.Core.Bool.{Bool, true, false, not, ◌&&◌, ◌||◌}
use mathlib.Core.List.{List, [], ◌∷◌}
use text.Mathlib.Text.{◌==◌}
use agent_loop_snapshot.Prelude.Tests.{leb, ◌===◌}

-- The code points of a text. `String` has its own `[]` and `∷`.
abbrev pub codes : String → List ℕ
codes String.[] = []
codes (String.◌∷◌ c s) = code c ∷ codes s

-- The characters that ECMAScript's `trim` removes (white space and line terminators).
abbrev pub is_space : ℕ → Bool
is_space c =
    (leb 9 c && leb c 13)
    || c === 0x20
    || c === 0xA0
    || c === 0x1680
    || (leb 0x2000 c && leb c 0x200A)
    || c === 0x2028
    || c === 0x2029
    || c === 0x202F
    || c === 0x205F
    || c === 0x3000
    || c === 0xFEFF

abbrev all_space : List ℕ → Bool
all_space [] = true
all_space (c ∷ cs) = is_space c && all_space cs

-- `text.trim() === ''`
unfoldable pub is_blank_text : List ℕ → Bool
is_blank_text cs = all_space cs

unfoldable pub is_blank : String → Bool
is_blank s = all_space (codes s)

-- `values.includes(value)`
abbrev pub includes : List String → String → Bool
includes [] v = false
includes (x ∷ xs) v = x == v || includes xs v

abbrev pub is_digit : ℕ → Bool
is_digit c = leb 48 c && leb c 57

-- `0|[1-9]\d*`, of digits.
abbrev pub is_numeral : List ℕ → Bool
is_numeral [] = false
is_numeral (c ∷ []) = is_digit c
is_numeral (c ∷ _ ∷ _) = not (c === 48)

-- The number that digits read.
abbrev pub value_from : ℕ → List ℕ → ℕ
value_from n [] = n
value_from n (c ∷ cs) = value_from (10 * n + (c - 48)) cs
