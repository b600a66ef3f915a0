-- ===== src/Pids/Examples.antt =====
-- The key and the flags of the secondary air status, and tables of two layers.
use canopen_studio.Prelude.{ℕ, ◌≡◌, refl, true, false, none, some, List, [], ◌∷◌, ok, err}
use canopen_studio.Prelude.Int.{pos}
use canopen_studio.Prelude.Dict.{find, put, key_same, text_same}
use canopen_studio.Prelude.Numerals.{int_base10, int_hex, decimal_signed, decimal_digits}
use canopen_studio.Prelude.Text.{
  codes, strip, lstrip, is_space, upper, int_base16, hex_digits, hex_prefixed, hex_value,
}
use canopen_studio.Formula.Evaluate.{Arithmetic}
use canopen_studio.Formula.{byte_index}
use canopen_studio.Pids.{
  Definition, flags, pid_error, kind, split_once, parse_key, parse_bit_reference,
}
use canopen_studio.Pids.Decode.{
  Entry, definition_of, check_references, decode, decode_bits, decode_enum, decode_ascii,
  checked_formula,
}
use canopen_studio.Pids.Table.{Table, add_definition, add_entries}
use canopen_studio.Pids.Flags.{flags_need}

key_parsed : parse_key (codes " 01:0C ") ≡ ok (pos 1, pos 12)
unfolding parse_key strip lstrip is_space split_once int_hex int_base16 hex_digits hex_prefixed
    hex_value
key_parsed = refl

key_refused : parse_key (codes "010C") ≡ err pid_error
unfolding parse_key strip lstrip is_space split_once
key_refused = refl

reference_parsed : parse_bit_reference (codes "b.7") ≡ ok (1, 7)
unfolding parse_bit_reference strip lstrip is_space upper split_once byte_index int_base10
    decimal_signed decimal_digits
reference_parsed = refl

reference_refused : parse_bit_reference (codes "A.8") ≡ err pid_error
unfolding parse_bit_reference strip lstrip is_space upper split_once byte_index int_base10
    decimal_signed decimal_digits
reference_refused = refl

-- Numbers do not matter here.
abbrev air_bits : List (List ℕ × List ℕ)
air_bits = (codes "A.0", codes "upstream") ∷ (codes "B.7", codes "off") ∷ []

abbrev air_entry : Entry ℕ
air_entry = record {
  name = codes "air";
  formula = none;
  values = none;
  bits = some air_bits;
  ascii = false;
}

abbrev air : Definition ℕ
air = record {
  mode = pos 1;
  pid = pos 18;
  name = codes "air";
  formula = none;
  values = none;
  bits = some air_bits;
  ascii = false;
}

air_defined : definition_of (codes "01:12") air_entry ≡ ok air
unfolding definition_of parse_key strip lstrip is_space upper split_once int_hex int_base16
    hex_digits hex_prefixed hex_value checked_formula check_references parse_bit_reference
    byte_index int_base10 decimal_signed decimal_digits
air_defined = refl

air_needs : flags_need air_bits ≡ 2
unfolding flags_need parse_bit_reference strip lstrip is_space upper split_once byte_index
    int_base10 decimal_signed decimal_digits
air_needs = refl

module _ (ops : Arithmetic ℕ) where
  air_decoded :
      decode ops air (1 ∷ 0x7F ∷ [])
      ≡ ok (flags ((codes "upstream", true) ∷ (codes "off", false) ∷ []))
  unfolding decode kind decode_bits put parse_bit_reference strip lstrip is_space upper split_once
      byte_index int_base10 decimal_signed decimal_digits
  air_decoded = refl

  air_short : decode ops air (1 ∷ []) ≡ err pid_error
  unfolding decode kind decode_bits put parse_bit_reference strip lstrip is_space upper split_once
      byte_index int_base10 decimal_signed decimal_digits
  air_short = refl

unknown_value :
    decode_enum ((pos 1, codes "gasoline") ∷ []) (0x2A ∷ []) ≡ ok (codes "Unknown value 0x2A")
unfolding decode_enum find
unknown_value = refl

padding_dropped : decode_ascii (0 ∷ 0x20 ∷ b'E' ∷ b'C' ∷ b'M' ∷ 0 ∷ []) ≡ codes "ECM"
unfolding decode_ascii strip lstrip is_space
padding_dropped = refl

abbrev base_table : Table ℕ
base_table = ((pos 1, pos 18), air) ∷ []

abbrev other_air : Definition ℕ
other_air = record air { name = codes "injection" }

base_read : add_entries [] ((codes "01:12", air_entry) ∷ []) ≡ ok base_table
unfolding add_entries add_definition put
base_read = rw (air_defined, add_entries) refl
