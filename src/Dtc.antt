-- ===== src/Dtc.antt =====
-- src/canopen_studio/diag/j1979/dtc.py: diagnostic trouble codes. A text is the list of its code
-- points, over ASCII; a code word is a natural number, so the guards against negative words have
-- no counterpart. The messages of the exceptions are not modelled.
pub mod Printed
pub mod Payload
pub mod Codes
pub mod Order
mod Examples
use canopen_studio.Prelude.{
  ℕ, ◌+◌, ◌-◌, ◌*◌, ◌^◌, bit_or, Bool, true, false, not, ◌&&◌, ◌||◌, Option, none, some, List, [],
  ◌∷◌, ◌++◌, map, Result, ok, err, ltb, leb, ◌==◌, if◌then◌else◌, length, get_or, take, drop, ◌>>=◌,
}
use canopen_studio.Prelude.Bits.{shr, low_bits}
use canopen_studio.Prelude.Text.{strip, upper, int_base16}

pub data DtcError : Type 0 where
  does_not_fit not_a_code not_hexadecimal first_digit_above_3 : DtcError

abbrev pub system_letters : List ℕ
system_letters = b'P' ∷ b'C' ∷ b'B' ∷ b'U' ∷ []

-- One digit of the formats `X` and `02X`.
unfoldable pub hex_digit : ℕ → ℕ
hex_digit n = if ltb n 10 then b'0' + n else b'A' + (n - 10)

unfoldable pub decode_dtc : ℕ → Result DtcError (List ℕ)
decode_dtc word =
    if ltb 0xFFFF word
    then err does_not_fit
    else let letter = get_or system_letters (low_bits (shr word 14) 2) 0 in
      let first = low_bits (shr word 12) 2 in
      let second = low_bits (shr word 8) 4 in
      let rest = low_bits word 8 in
      ok (
        letter
        ∷ (b'0' + first)
        ∷ hex_digit second
        ∷ hex_digit (shr rest 4)
        ∷ hex_digit (low_bits rest 4)
        ∷ [])

-- `SYSTEM_LETTERS.index(letter)`, and `none` where the letter is none of them
unfoldable pub system_index : ℕ → Option ℕ
system_index c =
    if c == b'P'
    then some 0
    else if c == b'C'
    then some 1
    else if c == b'B'
    then some 2
    else if c == b'U'
    then some 3
    else none

-- The checks that follow the conversion of `text[1:]`.
unfoldable pub join_code : ℕ → Option (Bool × ℕ) → Result DtcError ℕ
join_code index none = err not_hexadecimal
join_code index (some (minus, digits)) =
    if minus && not (digits == 0) || ltb 0x3FFF digits
    then err first_digit_above_3
    else ok (bit_or (index * 2 ^ 14) digits)

unfoldable pub encode_text : List ℕ → Result DtcError ℕ
encode_text [] = err not_a_code
encode_text (letter ∷ digits) =
    if not (length (letter ∷ digits) == 5) then err not_a_code else elim (system_index letter) [
      | none ↦ err not_a_code
      | some index ↦ join_code index (int_base16 digits)
    ]

unfoldable pub encode_dtc : List ℕ → Result DtcError ℕ
encode_dtc code = encode_text (map upper (strip code))

-- `[int.from_bytes(data[i : i + 2], "big") for i in range(0, len(data) - 1, 2)]`
unfoldable pub words : List ℕ → List ℕ
words [] = []
words (a ∷ []) = []
words (a ∷ b ∷ rest) = (a * 2 ^ 8 + b) ∷ words rest

abbrev pub any_nonzero : List ℕ → Bool
any_nonzero [] = false
any_nonzero (b ∷ bs) = not (b == 0) || any_nonzero bs

unfoldable pub drop_padding : List ℕ → List ℕ
drop_padding [] = []
drop_padding (word ∷ rest) = let kept = drop_padding rest in if word == 0 then kept else word ∷ kept

unfoldable pub parse_dtc_payload : List ℕ → List ℕ
unfolding words drop_padding
parse_dtc_payload [] = []
parse_dtc_payload (count ∷ body) =
    let counted = leb (count * 2) (length body) && not (any_nonzero (drop (count * 2) body)) in
    drop_padding (words (if counted then take (count * 2) body else count ∷ body))
