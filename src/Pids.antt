-- ===== src/Pids.antt =====
-- src/canopen_studio/diag/j1979/pids.py: the definitions of PIDs, the tables of them and what they
-- decode to. A text is the list of its code points and is taken to be ASCII; an entry of a file is
-- taken after YAML has read it. Display forms are left out.
pub mod Table
pub mod Decode
pub mod Flags
mod Examples
use canopen_studio.Prelude.{
  ℕ, zero, suc, ◌-◌, ◌%◌, ◌/◌, Bool, true, false, not, ◌&&◌, ◌||◌, Option, none, some, List, [],
  ◌∷◌, ◌++◌, map, ltb, leb, ◌==◌, if◌then◌else◌, length, get_or, Result, ok, err, ◌>>=◌,
}
use canopen_studio.Prelude.Bits.{test_bit}
use canopen_studio.Prelude.Dict.{Key}
use canopen_studio.Prelude.Int.{ℤ, pos, negsuc}
use canopen_studio.Prelude.Numerals.{int_base10, int_hex}
use canopen_studio.Prelude.Text.{codes, is_space, strip, upper}
use canopen_studio.Formula.{Node, byte_index}
use canopen_studio.Formula.Evaluate.{EvalError}

-- `PidError`, and what else the evaluation of a formula raises.
pub data PidError : Type 0 where
  pid_error : PidError
  formula_raised : EvalError → PidError

-- `text.split(c, 1)`, `none` where `c` is not in the text.
unfoldable pub split_once : ℕ → List ℕ → Option (List ℕ × List ℕ)
split_once c [] = none
split_once c (d ∷ text) =
    if d == c
    then some ([], text)
    else elim (split_once c text) [ some (before, after) ↦ some (d ∷ before, after) | none ↦ none ]

abbrev pub both_hex : Option ℤ → Option ℤ → Result PidError Key
both_hex (some mode) (some pid) = ok (mode, pid)
both_hex (some mode) none = err pid_error
both_hex none pid = err pid_error

unfoldable pub parse_key : List ℕ → Result PidError Key
unfolding strip split_once int_hex
parse_key key = elim (split_once b':' (strip key)) [
  | some (mode_text, pid_text) ↦ both_hex (int_hex mode_text) (int_hex pid_text)
  | none ↦ err pid_error
]

-- A bit index between 0 and 7.
abbrev pub bit_place : Option ℕ → Option ℤ → Result PidError (ℕ × ℕ)
bit_place none index = err pid_error
bit_place (some letter) none = err pid_error
bit_place (some letter) (some (negsuc n)) = err pid_error
bit_place (some letter) (some (pos n)) = if leb n 7 then ok (letter, n) else err pid_error

unfoldable pub parse_bit_reference : List ℕ → Result PidError (ℕ × ℕ)
unfolding strip upper split_once byte_index int_base10
parse_bit_reference reference = elim (split_once b'.' (map upper (strip reference))) [
  | some (letter, index) ↦ bit_place (byte_index letter) (int_base10 index)
  | none ↦ err pid_error
]

-- A formula is a tree with the bytes that it reads.
pub record Definition (V : Type 0) : Type 0 where
  pub mode : ℤ
  pub pid : ℤ
  pub name : List ℕ
  pub formula : Option (Node V × List ℕ)
  pub values : Option (List (ℤ × List ℕ))
  pub bits : Option (List (List ℕ × List ℕ))
  pub ascii : Bool

pub data Kind : Type 0 where
  ascii_kind enum_kind bits_kind formula_kind raw_kind : Kind

abbrev pub kind_of : {A B C : Type 0} → Bool → Option A → Option B → Option C → Kind
kind_of true values bits formula = ascii_kind
kind_of false (some values) bits formula = enum_kind
kind_of false none (some bits) formula = bits_kind
kind_of false none none (some formula) = formula_kind
kind_of false none none none = raw_kind

unfoldable pub kind : {V : Type 0} → Definition V → Kind
kind d = kind_of d.ascii d.values d.bits d.formula

-- What a definition decodes to.
pub data Value (V : Type 0) : Type 0 where
  text : List ℕ → Value V
  flags : List (List ℕ × Bool) → Value V
  quantity : V → Value V
  raw : List ℕ → Value V
