-- ===== src/Formula/Check.antt =====
-- `Formula._validate`: which trees are accepted, and which bytes they read.
use canopen_studio.Prelude.{
  ℕ, suc, Bool, true, false, not, Option, none, some, List, [], ◌∷◌, ◌++◌, ltb, if◌then◌else◌,
}
use canopen_studio.Formula.{
  Literal, number, other_literal, Node, Nodes, Links, constant, name, bin_op, unary_op, call,
  if_exp, compare_chain, bool_op, other_node, end, more, last, link, function_named, byte_index,
}

-- The bytes that two parts of a tree read; `none` where one of them is refused.
abbrev pub join_names : Option (List ℕ) → Option (List ℕ) → Option (List ℕ)
join_names (some a) (some b) = some (a ++ b)
join_names (some a) none = none
join_names none names = none

abbrev pub literal_names : {V : Type 0} → Literal V → Option (List ℕ)
literal_names (number v) = some []
literal_names (other_literal v) = none

abbrev pub one_name : Option ℕ → Option (List ℕ)
one_name (some i) = some (i ∷ [])
one_name none = none

-- A name that is a function's is passed over, wherever it stands.
unfoldable pub check_name : List ℕ → Bool → Option (List ℕ)
unfolding function_named byte_index
check_name id store = elim (function_named id) [
  | some f ↦ some []
  | none ↦ if store then none else one_name (byte_index id)
]

module _ {V : Type 0} where
  abbrev pub calls_function : Node V → Bool
  calls_function (name id store) = elim (function_named id) [ some f ↦ true | none ↦ false ]
  calls_function (constant l) = false
  calls_function (bin_op op a b) = false
  calls_function (unary_op op a) = false
  calls_function (call f args keywords) = false
  calls_function (if_exp test body orelse) = false
  calls_function (compare_chain a links) = false
  calls_function (bool_op conjunction values) = false
  calls_function other_node = false

unfoldable mutual
  unfolding check_name

  pub validate : {V : Type 0} → Node V → Option (List ℕ)
  validate (constant l) = literal_names l
  validate (name id store) = check_name id store
  validate (bin_op op a b) = join_names (validate a) (validate b)
  validate (unary_op op a) = validate a
  validate (call f args keywords) =
      let names = validate_all args in
      if not (calls_function f) then none else if keywords then none else names
  validate (if_exp test body orelse) =
      join_names (validate test) (join_names (validate body) (validate orelse))
  validate (compare_chain a links) = join_names (validate a) (validate_links links)
  validate (bool_op conjunction values) = validate_all values
  validate other_node = none

  pub validate_all : {V : Type 0} → Nodes V → Option (List ℕ)
  validate_all end = some []
  validate_all (more a rest) = join_names (validate a) (validate_all rest)

  pub validate_links : {V : Type 0} → Links V → Option (List ℕ)
  validate_links last = some []
  validate_links (link op a rest) = join_names (validate a) (validate_links rest)

-- One more than the greatest index, or 0 where no byte is read.
unfoldable pub required_bytes : List ℕ → ℕ
required_bytes [] = 0
required_bytes (i ∷ names) =
    let rest = required_bytes names in if ltb rest (suc i) then suc i else rest
