-- ===== src/Discovery/Bitmask.antt =====
-- What a bitmask declares.
use canopen_studio.Prelude.{
  ℕ, zero, suc, ◌+◌, ◌*◌, ◌-◌, ◌/◌, ◌^◌, ◌≤◌, ◌<◌, ◌≡◌, ◌↔◌, refl, sym, ◌∙◌, inl, inr, Bool, true,
  false, List, [], ◌∷◌, arith, ◌==◌, Bool-cases, get_or, Result, ok, err,
}
use native.Mathlib.Nat.{div-div-eq-div-mul, two-pow-succ}
use canopen_studio.Prelude.Bits.{test_bit}
use canopen_studio.Discovery.{declared, decode_support_bitmask, contains, from_bytes, BitmaskError}

-- The PIDs of the last positions of a block.
declared_iff :
    (base value k pid : ℕ)
    → k ≤ 32
    → (contains pid (declared base value k) ≡ true)
      ↔ ((base + 32 < pid + k) × (pid ≤ base + 32) × (test_bit value (base + 32 - pid) ≡ true))
unfolding declared
declared_iff base value zero pid h = ground arith
declared_iff base value (suc k) pid h = elim (Bool-cases (pid == base + 1 + (31 - k))) [
  | inl e ↦
      let at_k : base + 32 - pid ≡ k = ground (arith, e) in
      let known : pid ≡ base + 1 + (31 - k) = ground (arith, e) in
      rw at_k (ground (arith, e, known, declared_iff base value k pid (omega arith)))
  | inr e ↦ ground (arith, e, declared_iff base value k pid (omega arith))
]

pow_eight : (n : ℕ) → 2 ^ (8 + n) ≡ 256 * 2 ^ n
pow_eight n =
    let e : 8 + n ≡ suc (suc (suc (suc (suc (suc (suc (suc n))))))) = omega arith in
    rw e (
      omega (
        arith,
        two-pow-succ n,
        two-pow-succ (suc n),
        two-pow-succ (suc (suc n)),
        two-pow-succ (suc (suc (suc n))),
        two-pow-succ (suc (suc (suc (suc n)))),
        two-pow-succ (suc (suc (suc (suc (suc n))))),
        two-pow-succ (suc (suc (suc (suc (suc (suc n)))))),
        two-pow-succ (suc (suc (suc (suc (suc (suc (suc n))))))),
      ))

-- Eight places up in a number that ends in the byte is a place of what stands before it.
test_bit-above : (x b n : ℕ) → b < 256 → test_bit (x * 256 + b) (8 + n) ≡ test_bit x n
test_bit-above x b n h =
    let head : (x * 256 + b) / 256 ≡ x = omega arith in
    let e = div-div-eq-div-mul (x * 256 + b) 256 (2 ^ n) in rw (pow_eight n, sym e, head) refl

-- The lower eight places are those of the byte.
test_bit-within : (x b n : ℕ) → n < 8 → test_bit (x * 256 + b) n ≡ test_bit b n
test_bit-within x b zero h = ground arith
test_bit-within x b (suc zero) h = ground arith
test_bit-within x b (suc (suc zero)) h = ground arith
test_bit-within x b (suc (suc (suc zero))) h = ground arith
test_bit-within x b (suc (suc (suc (suc zero)))) h = ground arith
test_bit-within x b (suc (suc (suc (suc (suc zero))))) h = ground arith
test_bit-within x b (suc (suc (suc (suc (suc (suc zero)))))) h = ground arith
test_bit-within x b (suc (suc (suc (suc (suc (suc (suc zero))))))) h = ground arith
test_bit-within x b (suc (suc (suc (suc (suc (suc (suc (suc n)))))))) h = absurd (omega arith)

test_bit-last :
    (b0 b1 b2 b3 i m : ℕ)
    → b1 < 256
    → b2 < 256
    → b3 < 256
    → i < 4
    → m < 8
    → test_bit (((b0 * 256 + b1) * 256 + b2) * 256 + b3) (8 * (3 - i) + m)
      ≡ test_bit (get_or (b0 ∷ b1 ∷ b2 ∷ b3 ∷ []) i 0) m
test_bit-last b0 b1 b2 b3 zero m h1 h2 h3 hi hm =
    let e : 24 + m ≡ 8 + (8 + (8 + m)) = omega arith in
    rw e (
      test_bit-above _ b3 (8 + (8 + m)) h3
      ∙ test_bit-above _ b2 (8 + m) h2
      ∙ test_bit-above b0 b1 m h1)
test_bit-last b0 b1 b2 b3 (suc zero) m h1 h2 h3 hi hm =
    let e : 16 + m ≡ 8 + (8 + m) = omega arith in
    rw e (test_bit-above _ b3 (8 + m) h3 ∙ test_bit-above _ b2 m h2 ∙ test_bit-within _ b1 m hm)
test_bit-last b0 b1 b2 b3 (suc (suc zero)) m h1 h2 h3 hi hm =
    test_bit-above _ b3 m h3 ∙ test_bit-within _ b2 m hm
test_bit-last b0 b1 b2 b3 (suc (suc (suc zero))) m h1 h2 h3 hi hm =
    let e : 0 + m ≡ m = omega arith in rw e (test_bit-within _ b3 m hm)
test_bit-last b0 b1 b2 b3 (suc (suc (suc (suc i)))) m h1 h2 h3 hi hm = absurd (omega arith)

bools_equal : (a b : Bool) → (a ≡ true → b ≡ true) × (b ≡ true → a ≡ true) → a ≡ b
bools_equal true b h = ground (arith, h)
bools_equal false b h = ground (arith, h)

abbrev pub is_declared : ℕ → Result BitmaskError (List ℕ) → Bool
is_declared pid (ok pids) = contains pid pids
is_declared pid (err e) = false

decoded :
    (base b0 b1 b2 b3 : ℕ) (more : List ℕ)
    → decode_support_bitmask base (b0 ∷ b1 ∷ b2 ∷ b3 ∷ more)
      ≡ ok (declared base (((b0 * 256 + b1) * 256 + b2) * 256 + b3) 32)
unfolding decode_support_bitmask from_bytes
decoded base b0 b1 b2 b3 more = let e : 0 * 256 + b0 ≡ b0 = omega arith in rw e (ground arith)

-- A bitmask of four bytes or more declares the PID that is 8 i + j + 1 places past its own, for
-- i below 4 and j below 8, exactly if bit 7 - j of its byte i is set.
pub decode_support_bitmask_places :
    (base b0 b1 b2 b3 i j : ℕ) (more : List ℕ)
    → b1 < 256
    → b2 < 256
    → b3 < 256
    → i < 4
    → j < 8
    → is_declared (base + 1 + (8 * i + j)) (decode_support_bitmask base (b0 ∷ b1 ∷ b2 ∷ b3 ∷ more))
      ≡ test_bit (get_or (b0 ∷ b1 ∷ b2 ∷ b3 ∷ []) i 0) (7 - j)
decode_support_bitmask_places base b0 b1 b2 b3 i j more h1 h2 h3 hi hj =
    let value = ((b0 * 256 + b1) * 256 + b2) * 256 + b3 in
    let place : base + 32 - (base + 1 + (8 * i + j)) ≡ 8 * (3 - i) + (7 - j) = omega arith in
    let d = declared_iff base value 32 (base + 1 + (8 * i + j)) (omega arith) in
    let bit = test_bit-last b0 b1 b2 b3 i (7 - j) h1 h2 h3 hi (omega arith) in
    rw (decoded base b0 b1 b2 b3 more) (
      bools_equal _ _ (
        (λ t. sym bit ∙ rw place at (d.0 t).2),
        (λ t. d.1 (omega arith, omega arith, rw (sym place) at (bit ∙ t))),
      ))
