-- ===== src/Formula/Naturals.antt =====
-- Numbers for the examples: the natural numbers, with a subtraction that stops at zero.
use canopen_studio.Prelude.{ℕ, ◌+◌, ◌-◌, ◌*◌, ◌/◌, not, ltb, ◌==◌, if◌then◌else◌, Result, ok, err}
use canopen_studio.Formula.{Binary, add, sub, mult, div}
use canopen_studio.Formula.Evaluate.{Arithmetic, Raised, zero_division, type_error, value_error}

abbrev binary_naturals : Binary → ℕ → ℕ → Result Raised ℕ
binary_naturals add a b = ok (a + b)
binary_naturals sub a b = ok (a - b)
binary_naturals mult a b = ok (a * b)
binary_naturals div a b = if b == 0 then err zero_division else ok (a / b)
binary_naturals op a b = err value_error

abbrev pub naturals : Arithmetic ℕ
naturals = record {
  binary = binary_naturals;
  unary = λ op v. err type_error;
  compared = λ op a b. ok (ltb a b);
  apply = λ f arguments. err type_error;
  exceeds_max_exponent = λ v. ltb 64 v;
  truth = λ v. not (v == 0);
  of_bool = λ b. if b then 1 else 0;
  of_byte = λ b. b;
}
