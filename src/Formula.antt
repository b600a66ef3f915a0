-- ===== src/Formula.antt =====
-- src/canopen_studio/diag/j1979/formula.py: the formulas that decode a PID. The tree that Python's
-- parser makes of the text is the input here. Numbers, integers and floats alike, are a parameter:
-- a type with Python's operators on it, which may raise.
pub mod Check
pub mod Evaluate
pub mod Safety
pub mod Safe
pub mod Bare
pub mod Functions
pub mod Naturals
mod Examples
use canopen_studio.Prelude.{
  ℕ, suc, ◌+◌, ◌-◌, Bool, true, false, not, ◌&&◌, ◌||◌, Option, none, some, List, [], ◌∷◌, ltb, leb,
  ◌==◌, if◌then◌else◌, Result, ok, err,
}
use canopen_studio.Prelude.Text.{codes, text_eq}

-- The operators that stand in the tables of the module.
pub data Binary : Type 0 where
  add sub mult div floor_div mod_op pow bit_and bit_or bit_xor lshift rshift : Binary

pub data Unary : Type 0 where
  uadd usub invert not_op : Unary

pub data Comparison : Type 0 where
  eq not_eq lt lt_e gt gt_e : Comparison

pub data FormulaFunction : Type 0 where
  abs min_of max_of round int_of float_of signed bit : FormulaFunction

unfoldable pub function_named : List ℕ → Option FormulaFunction
function_named name =
    if text_eq name (codes "abs")
    then some abs
    else if text_eq name (codes "min")
    then some min_of
    else if text_eq name (codes "max")
    then some max_of
    else if text_eq name (codes "round")
    then some round
    else if text_eq name (codes "int")
    then some int_of
    else if text_eq name (codes "float")
    then some float_of
    else if text_eq name (codes "signed")
    then some signed
    else if text_eq name (codes "bit")
    then some bit
    else none

-- `BYTE_NAMES.index(name)` of a name of one letter that is among them
unfoldable pub byte_index : List ℕ → Option ℕ
byte_index (c ∷ []) = if leb b'A' c && leb c b'Z' then some (c - b'A') else none
byte_index name = none

-- A constant of the source: a number, or a value of another type (a text, a truth value).
pub data Literal (V : Type 0) : Type 0 where
  number : V → Literal V
  other_literal : V → Literal V

mutual
  -- An expression tree; `other_node` is any node of another kind, and `store` marks a name that is
  -- assigned to.
  pub data Node (V : Type 0) : Type 0 where
    constant : Literal V → Node V
    name : List ℕ → (store : Bool) → Node V
    bin_op : Binary → Node V → Node V → Node V
    unary_op : Unary → Node V → Node V
    call : Node V → Nodes V → (keywords : Bool) → Node V
    if_exp : Node V → Node V → Node V → Node V
    compare_chain : Node V → Links V → Node V
    bool_op : (conjunction : Bool) → Nodes V → Node V
    other_node : Node V

  pub data Nodes (V : Type 0) : Type 0 where
    end : Nodes V
    more : Node V → Nodes V → Nodes V

  -- The operators of a chain of comparisons, each with what stands behind it.
  pub data Links (V : Type 0) : Type 0 where
    last : Links V
    link : Comparison → Node V → Links V → Links V
