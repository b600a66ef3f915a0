-- ===== src/Formula/Safety.antt =====
-- What the check of a formula makes sure of, and what it lets through.
use canopen_studio.Prelude.{
  ℕ, zero, suc, ◌≤◌, ◌<◌, ◌≡◌, refl, Bool, true, false, ◌&&◌, ◌||◌, Bool-cases, Option-cases, inl,
  inr, Option, none, some, List, [], ◌∷◌, ◌++◌, arith, if◌then◌else◌, length, All, Result, ok, err,
  ◌>>=◌,
}
use canopen_studio.Formula.{
  Binary, Node, Nodes, Links, constant, name, bin_op, unary_op, call, if_exp, compare_chain,
  bool_op, other_node, end, more, last, link, function_named, byte_index,
}
use canopen_studio.Formula.Check.{check_name, join_names, one_name, required_bytes, calls_function}
use canopen_studio.Formula.Evaluate.{
  Arithmetic, Raised, zero_division, type_error, value_error, overflow_error, EvalError,
  formula_error, cannot_evaluate, key_error, attribute_error, escapes, environment, byte_at,
  of_binary, of_call, escaping, operate, apply_named, byte_value, is_pow,
}

-- The result is a value, the error of the module, or what an operator of Python raises: no name was
-- missing, and no node was of the wrong kind.
abbrev pub confined {ℓ} : {A : Type ℓ} → Result EvalError A → Bool
confined (ok v) = true
confined (err formula_error) = true
confined (err (escapes e)) = true
confined (err cannot_evaluate) = false
confined (err key_error) = false
confined (err attribute_error) = false

abbrev pub is_function : List ℕ → Bool
is_function id = elim (function_named id) [ some f ↦ true | none ↦ false ]

-- Whether the name of a function stands where a value is read.
unfoldable mutual
  pub reads_function : {V : Type 0} → Node V → Bool
  reads_function (constant l) = false
  reads_function (name id store) = is_function id
  reads_function (bin_op op a b) = reads_function a || reads_function b
  reads_function (unary_op op a) = reads_function a
  reads_function (call f args keywords) = any_reads_function args
  reads_function (if_exp test body orelse) =
      reads_function test || (reads_function body || reads_function orelse)
  reads_function (compare_chain a links) = reads_function a || links_read_function links
  reads_function (bool_op conjunction values) = any_reads_function values
  reads_function other_node = false

  pub any_reads_function : {V : Type 0} → Nodes V → Bool
  any_reads_function end = false
  any_reads_function (more a rest) = reads_function a || any_reads_function rest

  pub links_read_function : {V : Type 0} → Links V → Bool
  links_read_function last = false
  links_read_function (link op a rest) = reads_function a || links_read_function rest

join_names_inv :
    (a b : Option (List ℕ)) (names : List ℕ)
    → join_names a b ≡ some names
    → (xs ys : List ℕ) × (a ≡ some xs) × (b ≡ some ys) × (names ≡ xs ++ ys)
join_names_inv (some xs) (some ys) names h = (xs, ys, refl, refl, ground (arith, h))
join_names_inv (some xs) none names h = ground (arith, h)
join_names_inv none b names h = ground (arith, h)

All-append_inv :
    (n : ℕ) (xs ys : List ℕ)
    → All (λ i. i < n) (xs ++ ys)
    → All (λ i. i < n) xs × All (λ i. i < n) ys
All-append_inv n [] ys h = (tt, h)
All-append_inv n (x ∷ xs) ys (p, h) = let (a, b) = All-append_inv n xs ys h in ((p, a), b)

-- Both parts of a joined check are checks, and read bytes in range.
pub join_parts :
    (n : ℕ) (a b : Option (List ℕ)) (names : List ℕ)
    → join_names a b ≡ some names
    → All (λ i. i < n) names
    → (xs ys : List ℕ) × (a ≡ some xs) × (b ≡ some ys) × All (λ i. i < n) xs × All (λ i. i < n) ys
join_parts n a b names e h =
    let (xs, ys, ea, eb, en) = join_names_inv a b names e in
    let (p, q) = All-append_inv n xs ys (rw en at h) in (xs, ys, ea, eb, p, q)

pub or_parts : (a b : Bool) → (a || b) ≡ false → (a ≡ false) × (b ≡ false)
or_parts a b h = ground (arith, h)

pub confined-bind {ℓ κ} :
    {A : Type ℓ} {B : Type κ} (m : Result EvalError A) (f : A → Result EvalError B)
    → confined m ≡ true
    → ((a : A) → confined (f a) ≡ true)
    → confined (m >>= f) ≡ true
confined-bind (ok a) f h k = k a
confined-bind (err formula_error) f h k = refl
confined-bind (err (escapes e)) f h k = refl
confined-bind (err cannot_evaluate) f h k = h
confined-bind (err key_error) f h k = h
confined-bind (err attribute_error) f h k = h

pub confined-escaping {ℓ} : {A : Type ℓ} (r : Result Raised A) → confined (escaping r) ≡ true
confined-escaping (ok v) = refl
confined-escaping (err e) = refl

pub confined-of_binary {ℓ} : {A : Type ℓ} (r : Result Raised A) → confined (of_binary r) ≡ true
confined-of_binary (ok v) = refl
confined-of_binary (err zero_division) = refl
confined-of_binary (err type_error) = refl
confined-of_binary (err value_error) = refl
confined-of_binary (err overflow_error) = refl

pub confined-of_call {ℓ} : {A : Type ℓ} (r : Result Raised A) → confined (of_call r) ≡ true
confined-of_call (ok v) = refl
confined-of_call (err zero_division) = refl
confined-of_call (err type_error) = refl
confined-of_call (err value_error) = refl
confined-of_call (err overflow_error) = refl

byte_at-lt : (bytes : List ℕ) (i : ℕ) → i < length bytes → (b : ℕ) × (byte_at bytes i ≡ some b)
unfolding byte_at
byte_at-lt [] i h = absurd (omega arith)
byte_at-lt (b ∷ bytes) zero h = (b, refl)
byte_at-lt (b ∷ bytes) (suc i) h = byte_at-lt bytes i (omega arith)

pub required_bytes-lt : (names : List ℕ) (n : ℕ) → required_bytes names ≤ n → All (λ i. i < n) names
unfolding required_bytes
required_bytes-lt [] n h = tt
required_bytes-lt (i ∷ names) n h =
    (ground (arith, h), required_bytes-lt names n (ground (arith, h)))

pub confined-guarded {ℓ} :
    {A : Type ℓ} (t : Bool) (m : Result EvalError A)
    → confined m ≡ true
    → confined (if t then err formula_error else m) ≡ true
confined-guarded true m h = refl
confined-guarded false m h = h

module _ {V : Type 0} (ops : Arithmetic V) (bytes : List ℕ) where
  pub confined-operate : (op : Binary) (a b : V) → confined (operate ops bytes op a b) ≡ true
  confined-operate op a b =
      confined-guarded (is_pow op && ops.exceeds_max_exponent b) (of_binary (ops.binary op a b))
        (confined-of_binary (ops.binary op a b))

  confined-byte :
      (o : Option ℕ) (names : List ℕ)
      → one_name o ≡ some names
      → All (λ i. i < length bytes) names
      → confined (elim o [ some i ↦ byte_value ops bytes (byte_at bytes i) | none ↦ err key_error ])
        ≡ true
  confined-byte none names h small = ground (arith, h)
  confined-byte (some i) names h small =
      let low : All (λ i. i < length bytes) (i ∷ []) =
        let e : names ≡ i ∷ [] = ground (arith, h) in rw e at small in
      let (b, e) = byte_at-lt bytes i low.0 in rw e

  pub confined-name :
      (id : List ℕ) (store : Bool) (names : List ℕ)
      → check_name id store ≡ some names
      → is_function id ≡ false
      → All (λ i. i < length bytes) names
      → confined (environment ops bytes id) ≡ true
  unfolding check_name environment
  confined-name id store names h bare small = elim (Option-cases (function_named id)) [
    | inr (f, e) ↦ let bad : true ≡ false = rw (e, is_function) at bare in ground (arith, bad)
    | inl e ↦
        let stored : (if store then none else one_name (byte_index id)) ≡ some names =
          rw (e, check_name) at h in
        elim (Bool-cases store) [
          | inl st ↦ let bad : none ≡ some names = rw st at stored in ground (arith, bad)
          | inr st ↦ confined-byte (byte_index id) names (rw st at stored) small
        ]
  ]

  pub confined-apply :
      (f : Node V) (arguments : List V)
      → calls_function f ≡ true
      → confined (apply_named ops bytes f arguments) ≡ true
  confined-apply (name id store) arguments h = elim (Option-cases (function_named id)) [
    | inl e ↦ let bad : false ≡ true = rw (e, calls_function) at h in ground (arith, bad)
    | inr (f, e) ↦ rw (e, apply_named) (confined-of_call (ops.apply f arguments))
  ]
  confined-apply (constant l) arguments h = ground (arith, h)
  confined-apply (bin_op op a b) arguments h = ground (arith, h)
  confined-apply (unary_op op a) arguments h = ground (arith, h)
  confined-apply (call f args keywords) arguments h = ground (arith, h)
  confined-apply (if_exp test body orelse) arguments h = ground (arith, h)
  confined-apply (compare_chain a links) arguments h = ground (arith, h)
  confined-apply (bool_op conjunction values) arguments h = ground (arith, h)
  confined-apply other_node arguments h = ground (arith, h)
