-- ===== src/Formula/Evaluate.antt =====
-- `Formula.__call__` and `Formula._evaluate`.
use canopen_studio.Prelude.{
  ℕ, zero, suc, Bool, true, false, ◌&&◌, ◌||◌, Option, none, some, List, [], ◌∷◌, ltb,
  if◌then◌else◌, length, Result, ok, err, ◌>>=◌,
}
use canopen_studio.Formula.{
  Binary, pow, Unary, Comparison, FormulaFunction, Literal, number, other_literal, Node, Nodes,
  Links, constant, name, bin_op, unary_op, call, if_exp, compare_chain, bool_op, other_node, end,
  more, last, link, function_named, byte_index,
}
use canopen_studio.Formula.Check.{validate, required_bytes}

-- What an operator of Python raises.
pub data Raised : Type 0 where
  zero_division type_error value_error overflow_error : Raised

-- The numbers, Python's operators on them, and the comparison of a magnitude with the bound on
-- exponents.
pub record Arithmetic (V : Type 0) : Type 0 where
  pub binary : Binary → V → V → Result Raised V
  pub unary : Unary → V → Result Raised V
  pub compared : Comparison → V → V → Result Raised Bool
  pub apply : FormulaFunction → List V → Result Raised V
  pub exceeds_max_exponent : V → Bool
  pub truth : V → Bool
  pub of_bool : Bool → V
  pub of_byte : ℕ → V

-- `FormulaError`, and the one of them that says that a node cannot be evaluated; a name that is missing in the environment; what else an operator raises; an
-- attribute that a node has not.
pub data EvalError : Type 0 where
  formula_error cannot_evaluate key_error attribute_error : EvalError
  escapes : Raised → EvalError

abbrev pub of_binary {ℓ} : {A : Type ℓ} → Result Raised A → Result EvalError A
of_binary (ok v) = ok v
of_binary (err zero_division) = err formula_error
of_binary (err type_error) = err (escapes type_error)
of_binary (err value_error) = err (escapes value_error)
of_binary (err overflow_error) = err (escapes overflow_error)

abbrev pub of_call {ℓ} : {A : Type ℓ} → Result Raised A → Result EvalError A
of_call (ok v) = ok v
of_call (err type_error) = err formula_error
of_call (err value_error) = err formula_error
of_call (err zero_division) = err (escapes zero_division)
of_call (err overflow_error) = err (escapes overflow_error)

abbrev pub escaping {ℓ} : {A : Type ℓ} → Result Raised A → Result EvalError A
escaping (ok v) = ok v
escaping (err e) = err (escapes e)

abbrev pub is_pow : Binary → Bool
is_pow pow = true
is_pow op = false

-- The byte of an index, in the first twenty-six.
unfoldable pub byte_at : List ℕ → ℕ → Option ℕ
byte_at [] i = none
byte_at (b ∷ bytes) zero = some b
byte_at (b ∷ bytes) (suc i) = byte_at bytes i

module _ {V : Type 0} (ops : Arithmetic V) (bytes : List ℕ) where
  abbrev pub byte_value : Option ℕ → Result EvalError V
  byte_value none = err key_error
  byte_value (some b) = ok (ops.of_byte b)

  unfoldable pub environment : List ℕ → Result EvalError V
  unfolding byte_index
  environment id = elim (byte_index id) [
    | some i ↦ byte_value (byte_at bytes i)
    | none ↦ err key_error
  ]

  abbrev pub operate : Binary → V → V → Result EvalError V
  operate op left right =
      if is_pow op && ops.exceeds_max_exponent right
      then err formula_error
      else of_binary (ops.binary op left right)

  abbrev pub apply_named : Node V → List V → Result EvalError V
  apply_named (name id store) arguments = elim (function_named id) [
    | some f ↦ of_call (ops.apply f arguments)
    | none ↦ err key_error
  ]
  apply_named (constant l) arguments = err attribute_error
  apply_named (bin_op op a b) arguments = err attribute_error
  apply_named (unary_op op a) arguments = err attribute_error
  apply_named (call f args keywords) arguments = err attribute_error
  apply_named (if_exp test body orelse) arguments = err attribute_error
  apply_named (compare_chain a links) arguments = err attribute_error
  apply_named (bool_op conjunction values) arguments = err attribute_error
  apply_named other_node arguments = err attribute_error

  abbrev pub all_true : List V → Bool
  all_true [] = true
  all_true (v ∷ values) = ops.truth v && all_true values

  abbrev pub any_true : List V → Bool
  any_true [] = false
  any_true (v ∷ values) = ops.truth v || any_true values

  abbrev pub literal_value : Literal V → Result EvalError V
  literal_value (number v) = ok v
  literal_value (other_literal v) = ok v

  unfoldable mutual
    unfolding environment

    -- The cases of an `if` expression wait until its test is known.
    pub evaluate : Node V → Result EvalError V
    evaluate (constant l) = literal_value l
    evaluate (name id store) = environment id
    evaluate (bin_op op a b) = evaluate a >>= λ left. evaluate b >>= λ right. operate op left right
    evaluate (unary_op op a) = evaluate a >>= λ v. escaping (ops.unary op v)
    evaluate (call f args keywords) = evaluate_all args >>= λ arguments. apply_named f arguments
    evaluate (if_exp test body orelse) =
        evaluate test >>= λ v. elim (ops.truth v) [ true ↦ evaluate body | false ↦ evaluate orelse ]
    evaluate (compare_chain a links) = evaluate a >>= λ left. evaluate_links left links
    evaluate (bool_op conjunction values) = evaluate_all values >>= λ vs.
        ok (ops.of_bool (if conjunction then all_true vs else any_true vs))
    evaluate other_node = err cannot_evaluate

    pub evaluate_all : Nodes V → Result EvalError (List V)
    evaluate_all end = ok []
    evaluate_all (more a rest) = evaluate a >>= λ v. evaluate_all rest >>= λ vs. ok (v ∷ vs)

    -- The chain stops at the first comparison that fails.
    pub evaluate_links : V → Links V → Result EvalError V
    evaluate_links left last = ok (ops.of_bool true)
    evaluate_links left (link op a rest) = evaluate a >>= λ right.
        escaping (ops.compared op left right) >>= λ holds. elim holds [
          | true ↦ evaluate_links right rest
          | false ↦ ok (ops.of_bool false)
        ]

-- A formula, `none` where the constructor refuses the tree.
unfoldable pub make_formula : {V : Type 0} → Node V → Option (Node V × List ℕ)
make_formula tree = elim (validate tree) [ some names ↦ some (tree, names) | none ↦ none ]

unfoldable pub call_formula :
    {V : Type 0} → Arithmetic V → Node V × List ℕ → List ℕ → Result EvalError V
call_formula ops (tree, names) bytes =
    if ltb (length bytes) (required_bytes names) then err formula_error else evaluate ops bytes tree
