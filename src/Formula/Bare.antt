-- ===== src/Formula/Bare.antt =====
-- `Formula._validate` and `Formula._evaluate` on a function's name that is not called.
use canopen_studio.Prelude.{
  ℕ, ◌≡◌, refl, sym, ◌∙◌, Bool, true, false, none, some, Option-cases, inl, inr, List, [], ◌∷◌,
  arith, Result, err, ltb, if◌then◌else◌, length,
}
use canopen_studio.Formula.{Node, name, byte_index, function_named}
use canopen_studio.Formula.Check.{validate, check_name, required_bytes}
use canopen_studio.Formula.Evaluate.{
  Arithmetic, EvalError, formula_error, key_error, evaluate, environment, make_formula,
  call_formula,
}
use canopen_studio.Formula.Safety.{is_function}

function_named_letter : (c : ℕ) → is_function (c ∷ []) ≡ false
unfolding function_named
function_named_letter c = ground arith

byte_index-function : (id : List ℕ) → is_function id ≡ true → byte_index id ≡ none
unfolding byte_index function_named
byte_index-function [] h = refl
byte_index-function (c ∷ []) h =
    let bad : false ≡ true = sym (function_named_letter c) ∙ h in ground (arith, bad)
byte_index-function (c ∷ d ∷ id) h = refl

check_name-function :
    (id : List ℕ) (store : Bool) → is_function id ≡ true → check_name id store ≡ some []
unfolding check_name
check_name-function id store h = elim (Option-cases (function_named id)) [
  | inl e ↦ let bad : false ≡ true = rw (e, is_function) at h in ground (arith, bad)
  | inr (f, e) ↦ rw (e, check_name) refl
]

make_formula_checked :
    {V : Type 0} (tree : Node V) (names : List ℕ)
    → validate tree ≡ some names
    → make_formula tree ≡ some (tree, names)
unfolding make_formula
make_formula_checked tree names e = rw (e, make_formula) refl

environment-missing :
    {V : Type 0} (ops : Arithmetic V) (bytes id : List ℕ)
    → byte_index id ≡ none
    → environment ops bytes id ≡ err key_error
unfolding environment
environment-missing ops bytes id e = rw (e, environment) refl

no_bytes_enough :
    {V : Type 0} (m : Result EvalError V) (n : ℕ) → (if ltb n 0 then err formula_error else m) ≡ m
no_bytes_enough m n = ground arith

-- The name of a function that stands by itself is accepted as a formula, which reads no byte; on any
-- data the evaluation of it fails for want of the name, not with the error of the module.
pub bare_function-key_error :
    {V : Type 0} (ops : Arithmetic V) (id bytes : List ℕ)
    → is_function id ≡ true
    → (make_formula {V = V} (name id false) ≡ some (name id false, []))
      × (call_formula ops (name id false, []) bytes ≡ err key_error)
unfolding call_formula required_bytes validate evaluate
bare_function-key_error ops id bytes h = (
  make_formula_checked (name id false) [] (check_name-function id false h),
  no_bytes_enough (environment ops bytes id) (length bytes)
      ∙ environment-missing ops bytes id (byte_index-function id h),
)
