-- ===== src/Formula/Examples.antt =====
-- The formula of the engine's speed, over numbers whose subtraction stops at zero.
use canopen_studio.Prelude.{ℕ, ◌≡◌, refl, true, false, none, some, [], ◌∷◌, ok, err}
use canopen_studio.Prelude.Text.{codes}
use canopen_studio.Formula.{
  add, mult, div, Node, constant, name, number, bin_op, call, end, more, function_named, byte_index,
}
use canopen_studio.Formula.Check.{validate, validate_all, check_name, required_bytes}
use canopen_studio.Formula.Evaluate.{
  formula_error, key_error, evaluate, evaluate_all, environment, byte_at, make_formula,
  call_formula,
}
use canopen_studio.Formula.Naturals.{naturals}
use canopen_studio.Formula.Safety.{confined, reads_function}
use canopen_studio.Formula.Safe.{call_formula-confined}
use canopen_studio.Formula.Bare.{bare_function-key_error}

-- (256*A + B) / 4
abbrev speed : Node ℕ
speed =
    bin_op div
      (bin_op add (bin_op mult (constant (number 256)) (name (codes "A") false))
        (name (codes "B") false))
      (constant (number 4))

-- 1 / A
abbrev inverse : Node ℕ
inverse = bin_op div (constant (number 1)) (name (codes "A") false)

-- abs(A, A), which the function of these numbers refuses
abbrev magnitude : Node ℕ
magnitude = call (name (codes "abs") false) (more (name (codes "A") false) end) false

speed_made : make_formula speed ≡ some (speed, 0 ∷ 1 ∷ [])
unfolding make_formula validate check_name function_named byte_index
speed_made = refl

speed_called : call_formula naturals (speed, 0 ∷ 1 ∷ []) (0x1A ∷ 0xF8 ∷ []) ≡ ok 1726
unfolding call_formula required_bytes evaluate environment byte_at byte_index
speed_called = refl

speed_short : call_formula naturals (speed, 0 ∷ 1 ∷ []) (0x1A ∷ []) ≡ err formula_error
unfolding call_formula required_bytes
speed_short = refl

inverse_called : call_formula naturals (inverse, 0 ∷ []) (0 ∷ []) ≡ err formula_error
unfolding call_formula required_bytes evaluate environment byte_at byte_index
inverse_called = refl

magnitude_called : call_formula naturals (magnitude, 0 ∷ []) (5 ∷ []) ≡ err formula_error
unfolding call_formula required_bytes evaluate evaluate_all environment byte_at byte_index
    function_named
magnitude_called = refl

keyword_refused : make_formula {V = ℕ} (call (name (codes "abs") false) end true) ≡ none
unfolding make_formula validate validate_all check_name function_named
keyword_refused = refl

two_letters_refused : make_formula {V = ℕ} (name (codes "AB") false) ≡ none
unfolding make_formula validate check_name function_named byte_index
two_letters_refused = refl

call_formula-confined_example :
    confined (call_formula naturals (speed, 0 ∷ 1 ∷ []) (0x1A ∷ 0xF8 ∷ [])) ≡ true
call_formula-confined_example =
    call_formula-confined naturals speed (speed, 0 ∷ 1 ∷ []) (0x1A ∷ 0xF8 ∷ []) speed_made
      (unfold reads_function function_named in refl)

bare_function-key_error_example :
    (make_formula {V = ℕ} (name (codes "abs") false) ≡ some (name (codes "abs") false, []))
    × (call_formula naturals (name (codes "abs") false, []) (7 ∷ []) ≡ err key_error)
bare_function-key_error_example =
    bare_function-key_error naturals (codes "abs") (7 ∷ []) (unfold function_named in refl)
