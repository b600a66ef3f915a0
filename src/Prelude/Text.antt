-- ===== src/Prelude/Text.antt =====
-- Python texts as lists of code points, over ASCII: `strip`, `upper` and `int(text, 16)`.
use Prim.Native.Char.{code}
use Prim.Native.String.{String}
use Prim.Native.Nat.{ℕ, ◌+◌, ◌-◌, ◌*◌}
use mathlib.Core.Bool.{Bool, true, false, ◌&&◌, ◌||◌}
use mathlib.Core.Option.{Option, none, some}
use mathlib.Core.List.{List, [], ◌∷◌, reverse}
use canopen_studio.Prelude.Tests.{leb, ◌==◌, if◌then◌else◌}

abbrev pub codes : String → List ℕ
codes String.[] = []
codes (String.◌∷◌ c s) = code c ∷ codes s

-- `str.isspace` of one ASCII character
unfoldable pub is_space : ℕ → Bool
is_space c = leb 9 c && leb c 13 || leb 28 c && leb c 32

unfoldable pub lstrip : List ℕ → List ℕ
unfolding is_space
lstrip [] = []
lstrip (c ∷ s) = let rest = lstrip s in if is_space c then rest else c ∷ s

unfoldable pub strip : List ℕ → List ℕ
unfolding lstrip
strip s = reverse (lstrip (reverse (lstrip s)))

unfoldable pub upper : ℕ → ℕ
upper c = if leb b'a' c && leb c b'z' then c - 32 else c

-- The value of a hexadecimal digit.
unfoldable pub hex_value : ℕ → Option ℕ
hex_value c =
    if leb b'0' c && leb c b'9'
    then some (c - b'0')
    else if leb b'A' c && leb c b'F'
    then some (c - b'A' + 10)
    else if leb b'a' c && leb c b'f'
    then some (c - b'a' + 10)
    else none

-- The digits of an integer literal, read into `acc`; one underscore may stand between two digits.
-- The first argument says whether a digit stands right before.
unfoldable pub hex_digits : Bool → ℕ → List ℕ → Option ℕ
unfolding hex_value
hex_digits true acc [] = some acc
hex_digits false acc [] = none
hex_digits after acc (c ∷ s) = elim (hex_value c) [
  | some d ↦ hex_digits true (acc * 16 + d) s
  | none ↦ if after && c == b'_' then hex_digits false acc s else none
]

abbrev pub is_x : ℕ → Bool
is_x c = c == b'x' || c == b'X'

unfoldable pub after_prefix : List ℕ → Option ℕ
unfolding hex_digits
after_prefix [] = none
after_prefix (c ∷ s) = if c == b'_' then hex_digits false 0 s else hex_digits false 0 (c ∷ s)

-- A prefix `0x`, behind which an underscore may stand.
unfoldable pub hex_prefixed : List ℕ → Option ℕ
unfolding hex_digits after_prefix
hex_prefixed (zero_digit ∷ x ∷ s) =
    if zero_digit == b'0' && is_x x then after_prefix s else hex_digits false 0 (zero_digit ∷ x ∷ s)
hex_prefixed s = hex_digits false 0 s

abbrev pub with_sign : Bool → Option ℕ → Option (Bool × ℕ)
with_sign minus none = none
with_sign minus (some n) = some (minus, n)

unfoldable pub signed : List ℕ → Option (Bool × ℕ)
signed [] = none
signed (c ∷ s) =
    if c == b'-'
    then with_sign true (hex_prefixed s)
    else if c == b'+'
    then with_sign false (hex_prefixed s)
    else with_sign false (hex_prefixed (c ∷ s))

-- The sign, `true` for minus, and the magnitude of `int(text, 16)`; `none` for its `ValueError`.
unfoldable pub int_base16 : List ℕ → Option (Bool × ℕ)
unfolding signed
int_base16 text = signed (strip text)

unfoldable pub lower : ℕ → ℕ
lower c = if leb b'A' c && leb c b'Z' then c + 32 else c

abbrev pub text_eq : List ℕ → List ℕ → Bool
text_eq [] [] = true
text_eq [] (d ∷ t) = false
text_eq (c ∷ s) [] = false
text_eq (c ∷ s) (d ∷ t) = c == d && text_eq s t
