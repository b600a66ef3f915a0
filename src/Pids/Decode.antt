-- ===== src/Pids/Decode.antt =====
-- `PidDefinition.from_mapping` and `PidDefinition.decode`.
use canopen_studio.Prelude.{
  ℕ, Bool, ◌&&◌, Option, none, some, List, [], ◌∷◌, ◌++◌, ltb, leb, if◌then◌else◌, length, get_or,
  Result, ok, err, ◌>>=◌,
}
use canopen_studio.Prelude.Bits.{test_bit}
use canopen_studio.Prelude.Dict.{find, put, key_same, integer_same, text_same}
use canopen_studio.Prelude.Int.{ℤ, pos}
use canopen_studio.Prelude.Numerals.{hex_byte}
use canopen_studio.Prelude.Text.{codes, strip}
use canopen_studio.Formula.{Node}
use canopen_studio.Formula.Evaluate.{
  Arithmetic, EvalError, formula_error, cannot_evaluate, key_error, attribute_error, escapes,
  make_formula, call_formula,
}
use canopen_studio.Pids.{
  PidError, pid_error, formula_raised, Definition, ascii_kind, enum_kind, bits_kind, formula_kind,
  raw_kind, kind, Value, text, flags, quantity, raw, parse_key, parse_bit_reference,
}

-- An entry of a profile file. A formula is the tree that the parser makes of its text, or `none`
-- where there is a syntax error.
pub record Entry (V : Type 0) : Type 0 where
  pub name : List ℕ
  pub formula : Option (Option (Node V))
  pub values : Option (List (ℤ × List ℕ))
  pub bits : Option (List (List ℕ × List ℕ))
  pub ascii : Bool

abbrev pub checked_tree :
    {V : Type 0} → Option (Node V × List ℕ) → Result PidError (Option (Node V × List ℕ))
checked_tree (some formula) = ok (some formula)
checked_tree none = err pid_error

unfoldable pub checked_formula :
    {V : Type 0} → Option (Option (Node V)) → Result PidError (Option (Node V × List ℕ))
unfolding make_formula
checked_formula none = ok none
checked_formula (some none) = err pid_error
checked_formula (some (some tree)) = checked_tree (make_formula tree)

-- Every reference is read once, for its errors.
unfoldable pub check_references : List (List ℕ × List ℕ) → Result {0} PidError Unit
unfolding parse_bit_reference
check_references [] = ok tt
check_references ((reference, label) ∷ bits) =
    parse_bit_reference reference >>= λ place. check_references bits

abbrev pub checked_bits : Option (List (List ℕ × List ℕ)) → Result {0} PidError Unit
checked_bits none = ok tt
checked_bits (some bits) = check_references bits

abbrev pub named : List ℕ → Result PidError (List ℕ)
named [] = err pid_error
named (c ∷ name) = ok (c ∷ name)

unfoldable pub definition_of : {V : Type 0} → List ℕ → Entry V → Result PidError (Definition V)
unfolding parse_key strip checked_formula check_references
definition_of key entry = parse_key key >>= λ (mode, pid). named (strip entry.name) >>= λ name.
    checked_formula entry.formula >>= λ formula. checked_bits entry.bits >>= λ done. ok (record {
      mode = mode;
      pid = pid;
      name = name;
      formula = formula;
      values = entry.values;
      bits = entry.bits;
      ascii = entry.ascii;
    })

abbrev pub printable_text : List ℕ → List ℕ
printable_text [] = []
printable_text (byte ∷ bytes) =
    let rest = printable_text bytes in if leb 0x20 byte && ltb byte 0x7F then byte ∷ rest else rest

unfoldable pub decode_ascii : List ℕ → List ℕ
unfolding strip
decode_ascii bytes = strip (printable_text bytes)

abbrev pub value_or_unknown : ℕ → Option (List ℕ) → List ℕ
value_or_unknown byte (some label) = label
value_or_unknown byte none = codes "Unknown value 0x" ++ hex_byte byte

unfoldable pub decode_enum : List (ℤ × List ℕ) → List ℕ → Result PidError (List ℕ)
unfolding find
decode_enum values [] = err pid_error
decode_enum values (byte ∷ bytes) = ok (value_or_unknown byte (find (pos byte) values))

abbrev pub flag_at : List ℕ → ℕ × ℕ → Result PidError Bool
flag_at bytes (byte_place, bit_place) =
    if leb (length bytes) byte_place
    then err pid_error
    else ok (test_bit (get_or bytes byte_place 0) bit_place)

unfoldable pub decode_bits :
    List (List ℕ × List ℕ) → List ℕ → List (List ℕ × Bool) → Result PidError (List (List ℕ × Bool))
unfolding parse_bit_reference put
decode_bits [] bytes found = ok found
decode_bits ((reference, label) ∷ bits) bytes found =
    parse_bit_reference reference >>= flag_at bytes >>= λ flag.
    decode_bits bits bytes (put label flag found)

-- The error of the formulas becomes that of the PIDs.
abbrev pub of_formula : {V : Type 0} → Result EvalError V → Result PidError (Value V)
of_formula (ok v) = ok (quantity v)
of_formula (err formula_error) = err pid_error
of_formula (err cannot_evaluate) = err pid_error
of_formula (err key_error) = err (formula_raised key_error)
of_formula (err attribute_error) = err (formula_raised attribute_error)
of_formula (err (escapes e)) = err (formula_raised (escapes e))

abbrev pub or_raw {ℓ} :
    {V : Type 0} {A : Type ℓ}
    → List ℕ
    → Option A
    → (A → Result PidError (Value V))
    → Result PidError (Value V)
or_raw bytes none use_it = ok (raw bytes)
or_raw bytes (some a) use_it = use_it a

unfoldable pub decode :
    {V : Type 0} → Arithmetic V → Definition V → List ℕ → Result PidError (Value V)
unfolding kind decode_ascii decode_enum decode_bits call_formula
decode ops d bytes = elim (kind d) [
  | ascii_kind ↦ ok (text (decode_ascii bytes))
  | enum_kind ↦
      or_raw bytes d.values (λ values. decode_enum values bytes >>= λ label. ok (text label))
  | bits_kind ↦
      or_raw bytes d.bits (λ bits. decode_bits bits bytes [] >>= λ found. ok (flags found))
  | formula_kind ↦ or_raw bytes d.formula (λ formula. of_formula (call_formula ops formula bytes))
  | raw_kind ↦ ok (raw bytes)
]
