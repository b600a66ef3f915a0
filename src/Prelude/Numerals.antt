-- ===== src/Prelude/Numerals.antt =====
-- Python's `int(text)` and `int(text, 16)` as integers, and numbers printed in base sixteen.
use canopen_studio.Prelude.Tests.{leb, ◌==◌, ltb, if◌then◌else◌}
use canopen_studio.Prelude.Int.{ℤ, pos, negsuc}
use canopen_studio.Prelude.Text.{strip, int_base16}
use Prim.Native.Nat.{ℕ, zero, suc, ◌+◌, ◌-◌, ◌*◌, ◌/◌, ◌%◌}
use mathlib.Core.Bool.{Bool, true, false, ◌&&◌}
use mathlib.Core.Option.{Option, none, some}
use mathlib.Core.List.{List, [], ◌∷◌}

abbrev pub integer : Bool → ℕ → ℤ
integer true zero = pos 0
integer true (suc n) = negsuc n
integer false n = pos n

abbrev pub integer_of : Option (Bool × ℕ) → Option ℤ
integer_of none = none
integer_of (some (minus, n)) = some (integer minus n)

-- The digits of an integer literal, read into `acc`; one underscore may stand between two digits.
-- The first argument says whether a digit stands right before.
unfoldable pub decimal_digits : Bool → ℕ → List ℕ → Option ℕ
decimal_digits true acc [] = some acc
decimal_digits false acc [] = none
decimal_digits after acc (c ∷ s) = elim (leb b'0' c && leb c b'9') [
  | true ↦ decimal_digits true (acc * 10 + (c - b'0')) s
  | false ↦ elim (after && c == b'_') [ true ↦ decimal_digits false acc s | false ↦ none ]
]

abbrev pub minus_of : Bool → Option ℕ → Option (Bool × ℕ)
minus_of minus none = none
minus_of minus (some n) = some (minus, n)

unfoldable pub decimal_signed : List ℕ → Option (Bool × ℕ)
unfolding decimal_digits
decimal_signed [] = none
decimal_signed (c ∷ s) = elim (c == b'-') [
  | true ↦ minus_of true (decimal_digits false 0 s)
  | false ↦ elim (c == b'+') [
    | true ↦ minus_of false (decimal_digits false 0 s)
    | false ↦ minus_of false (decimal_digits false 0 (c ∷ s))
  ]
]

-- `none` stands for the `ValueError`.
unfoldable pub int_base10 : List ℕ → Option ℤ
unfolding decimal_signed
int_base10 text = integer_of (decimal_signed (strip text))

unfoldable pub int_hex : List ℕ → Option ℤ
int_hex text = integer_of (int_base16 text)

-- A digit of `f"{n:X}"`.
abbrev pub hex_digit_code : ℕ → ℕ
hex_digit_code d = if ltb d 10 then b'0' + d else b'A' + (d - 10)

-- `f"{byte:02X}"` of a byte
abbrev pub hex_byte : ℕ → List ℕ
hex_byte byte = hex_digit_code (byte / 16 % 16) ∷ hex_digit_code (byte % 16) ∷ []
