-- ===== src/Formula/Safe.antt =====
-- No name is missing when a formula runs that passed its check and reads no function as a value.
use canopen_studio.Prelude.{
  ℕ, ◌<◌, ◌≡◌, refl, Bool, true, false, not, ◌||◌, Option, none, some, Option-cases, inl, inr, List,
  ◌∷◌, arith, ltb, if◌then◌else◌, length, All, Result, ok, err, ◌>>=◌,
}
use canopen_studio.Formula.{
  Node, Nodes, Links, constant, name, bin_op, unary_op, call, if_exp, compare_chain, bool_op,
  other_node, end, more, last, link, number, other_literal,
}
use canopen_studio.Formula.Check.{
  validate, validate_all, validate_links, join_names, required_bytes, calls_function,
}
use canopen_studio.Formula.Evaluate.{
  Arithmetic, evaluate, evaluate_all, evaluate_links, operate, apply_named, escaping, all_true,
  any_true, EvalError, formula_error, make_formula, call_formula,
}
use canopen_studio.Formula.Safety.{
  confined, reads_function, any_reads_function, links_read_function, join_parts, or_parts,
  confined-bind, confined-escaping, confined-operate, confined-name, confined-apply,
  required_bytes-lt,
}

-- What the check of a call makes sure of.
call_parts :
    (callable keywords : Bool) (o : Option (List ℕ)) (names : List ℕ)
    → (if not callable then none else if keywords then none else o) ≡ some names
    → (callable ≡ true) × (o ≡ some names)
call_parts true false o names h = (refl, h)
call_parts true true o names h = ground (arith, h)
call_parts false keywords o names h = ground (arith, h)

confined-either {ℓ} :
    {A : Type ℓ} (b : Bool) (m n : Result EvalError A)
    → confined m ≡ true
    → confined n ≡ true
    → confined (elim b [ true ↦ m | false ↦ n ]) ≡ true
confined-either true m n p q = p
confined-either false m n p q = q

module _ {V : Type 0} (ops : Arithmetic V) (bytes : List ℕ) where
  mutual
    unfolding validate validate_all validate_links evaluate evaluate_all evaluate_links
        reads_function any_reads_function links_read_function

    evaluate-confined :
        (t : Node V) (names : List ℕ)
        → validate t ≡ some names
        → reads_function t ≡ false
        → All (λ i. i < length bytes) names
        → confined (evaluate ops bytes t) ≡ true
    evaluate-confined (constant (number v)) names h bare small = refl
    evaluate-confined (constant (other_literal v)) names h bare small = refl
    evaluate-confined (name id store) names h bare small =
        confined-name ops bytes id store names h bare small
    evaluate-confined (bin_op op a b) names h bare small =
        let (xs, ys, ea, eb, p, q) =
          join_parts (length bytes) (validate a) (validate b) names h small in
        let (ra, rb) = or_parts (reads_function a) (reads_function b) bare in
        confined-bind (evaluate ops bytes a)
          (λ left. evaluate ops bytes b >>= λ right. operate ops bytes op left right)
          (evaluate-confined a xs ea ra p)
          (λ left.
            confined-bind (evaluate ops bytes b) (operate ops bytes op left)
              (evaluate-confined b ys eb rb q) (confined-operate ops bytes op left))
    evaluate-confined (unary_op op a) names h bare small =
        confined-bind (evaluate ops bytes a) (λ v. escaping (ops.unary op v))
          (evaluate-confined a names h bare small) (λ v. confined-escaping (ops.unary op v))
    evaluate-confined (call f args keywords) names h bare small =
        let (callable, e) = call_parts (calls_function f) keywords (validate_all args) names h in
        confined-bind (evaluate_all ops bytes args) (apply_named ops bytes f)
          (evaluate_all-confined args names e bare small)
          (λ arguments. confined-apply ops bytes f arguments callable)
    evaluate-confined (if_exp test body orelse) names h bare small =
        let (xs, zs, ea, ez, p, r) =
          join_parts (length bytes) (validate test) (join_names (validate body) (validate orelse))
            names h small in
        let (us, vs, eb, ec, q, w) =
          join_parts (length bytes) (validate body) (validate orelse) zs ez r in
        let (ra, rz) =
          or_parts (reads_function test) (reads_function body || reads_function orelse) bare in
        let (rb, rc) = or_parts (reads_function body) (reads_function orelse) rz in
        confined-bind (evaluate ops bytes test)
          (λ v. elim (ops.truth v) [
            | true ↦ evaluate ops bytes body
            | false ↦ evaluate ops bytes orelse
          ])
          (evaluate-confined test xs ea ra p)
          (λ v.
            confined-either (ops.truth v) (evaluate ops bytes body) (evaluate ops bytes orelse)
              (evaluate-confined body us eb rb q) (evaluate-confined orelse vs ec rc w))
    evaluate-confined (compare_chain a links) names h bare small =
        let (xs, ys, ea, eb, p, q) =
          join_parts (length bytes) (validate a) (validate_links links) names h small in
        let (ra, rb) = or_parts (reads_function a) (links_read_function links) bare in
        confined-bind (evaluate ops bytes a) (λ left. evaluate_links ops bytes left links)
          (evaluate-confined a xs ea ra p) (λ left. evaluate_links-confined left links ys eb rb q)
    evaluate-confined (bool_op conjunction values) names h bare small =
        confined-bind (evaluate_all ops bytes values)
          (λ vs.
            ok (ops.of_bool (if conjunction then all_true ops bytes vs else any_true ops bytes vs)))
          (evaluate_all-confined values names h bare small) (λ vs. refl)
    evaluate-confined other_node names h bare small = ground (arith, h)

    evaluate_all-confined :
        (ts : Nodes V) (names : List ℕ)
        → validate_all ts ≡ some names
        → any_reads_function ts ≡ false
        → All (λ i. i < length bytes) names
        → confined (evaluate_all ops bytes ts) ≡ true
    evaluate_all-confined end names h bare small = refl
    evaluate_all-confined (more a rest) names h bare small =
        let (xs, ys, ea, eb, p, q) =
          join_parts (length bytes) (validate a) (validate_all rest) names h small in
        let (ra, rb) = or_parts (reads_function a) (any_reads_function rest) bare in
        confined-bind (evaluate ops bytes a)
          (λ v. evaluate_all ops bytes rest >>= λ vs. ok (v ∷ vs)) (evaluate-confined a xs ea ra p)
          (λ v.
            confined-bind (evaluate_all ops bytes rest) (λ vs. ok (v ∷ vs))
              (evaluate_all-confined rest ys eb rb q) (λ vs. refl))

    evaluate_links-confined :
        (left : V) (ts : Links V) (names : List ℕ)
        → validate_links ts ≡ some names
        → links_read_function ts ≡ false
        → All (λ i. i < length bytes) names
        → confined (evaluate_links ops bytes left ts) ≡ true
    evaluate_links-confined left last names h bare small = refl
    evaluate_links-confined left (link op a rest) names h bare small =
        let (xs, ys, ea, eb, p, q) =
          join_parts (length bytes) (validate a) (validate_links rest) names h small in
        let (ra, rb) = or_parts (reads_function a) (links_read_function rest) bare in
        confined-bind (evaluate ops bytes a)
          (λ right. escaping (ops.compared op left right) >>= (λ holds. elim holds [
            | true ↦ evaluate_links ops bytes right rest
            | false ↦ ok (ops.of_bool false)
          ]))
          (evaluate-confined a xs ea ra p)
          (λ right.
            confined-bind (escaping (ops.compared op left right))
              ((λ holds. elim holds [
                | true ↦ evaluate_links ops bytes right rest
                | false ↦ ok (ops.of_bool false)
              ]))
              (confined-escaping (ops.compared op left right))
              (λ holds.
                confined-either holds (evaluate_links ops bytes right rest) (ok (ops.of_bool false))
                  (evaluate_links-confined right rest ys eb rb q) refl))

make_formula_inv :
    {V : Type 0} (tree checked : Node V) (names : List ℕ)
    → make_formula tree ≡ some (checked, names)
    → (checked ≡ tree) × (validate tree ≡ some names)
unfolding make_formula
make_formula_inv tree checked names h = elim (Option-cases (validate tree)) [
  | inl e ↦
      let bad : none ≡ some (checked, names) = rw (e, make_formula) at h in ground (arith, bad)
  | inr (xs, e) ↦
      let k : some (tree, xs) ≡ some (checked, names) = rw (e, make_formula) at h in
      (ground (arith, k), ground (arith, k, e))
]

confined-unless {ℓ} :
    {A : Type ℓ} (t : Bool) (m : Result EvalError A)
    → (t ≡ false → confined m ≡ true)
    → confined (if t then err formula_error else m) ≡ true
confined-unless true m h = refl
confined-unless false m h = h refl

-- A formula that was accepted and reads no function as a value evaluates, on any data, to a value, to
-- an error of the module for too few bytes, a division by zero, an exponent or a call, or to what an
-- operator of Python raises: no name is missing from the environment, and no node is of a kind that
-- the evaluator cannot take apart or call.
pub call_formula-confined :
    {V : Type 0} (ops : Arithmetic V) (tree : Node V) (formula : Node V × List ℕ) (bytes : List ℕ)
    → make_formula tree ≡ some formula
    → reads_function tree ≡ false
    → confined (call_formula ops formula bytes) ≡ true
unfolding make_formula call_formula
call_formula-confined ops tree (checked, names) bytes h bare =
    let (e, v) = make_formula_inv tree checked names h in
    confined-unless (ltb (length bytes) (required_bytes names)) (evaluate ops bytes checked)
      (λ enough. rw e (
        evaluate-confined ops bytes tree names v bare
          (required_bytes-lt names (length bytes) (ground (arith, enough)))))
