-- ===== src/Prelude/Bits.antt =====
-- `>>`, `&` with a mask of ones and the test of one bit, in the form that the arithmetic tactics
-- read, and facts about `|` on small ranges by checking every value.
use Prim.Native.Nat.{ℕ, zero, suc, ◌+◌, ◌*◌, ◌/◌, ◌%◌, ◌^◌, ◌<◌, bit_or}
use mathlib.Core.Path.{◌≡◌, refl}
use mathlib.Core.Bool.{Bool, true, false}
use native.Mathlib.Omega.{arith}
use canopen_studio.Prelude.Tests.{◌==◌, ==_iff, if◌then◌else◌}

-- x >> k
abbrev pub shr : ℕ → ℕ → ℕ
shr x k = x / 2 ^ k

-- x & (2 ** k - 1)
abbrev pub low_bits : ℕ → ℕ → ℕ
low_bits x k = x % 2 ^ k

-- bool(x & (1 << k))
abbrev pub test_bit : ℕ → ℕ → Bool
test_bit x k = x / 2 ^ k % 2 == 1

-- Whether a test holds of every number under a bound, so that a table is checked by running it.
unfoldable pub every_under : (bound : ℕ) (test : ℕ → Bool) → Bool
every_under zero test = true
every_under (suc top) test = if test top then every_under top test else false

pub every_under_at :
    (bound : ℕ) (test : ℕ → Bool) (value : ℕ)
    → every_under bound test ≡ true
    → value < bound
    → test value ≡ true
unfolding every_under
every_under_at zero test value table small = absurd (omega arith)
every_under_at (suc top) test value table small = ground (arith, every_under_at top test value)

-- The low nibble joins a high nibble without a carry.
pub nibble-or_zero : (x : ℕ) → x < 16 → bit_or 0 x ≡ x
unfolding every_under
nibble-or_zero x h = (==_iff _ x).0 (every_under_at 16 (λ y. bit_or 0 y == y) x refl h)

pub nibble-or_one : (x : ℕ) → x < 16 → bit_or 0x10 x ≡ 16 + x
unfolding every_under
nibble-or_one x h =
    (==_iff _ (16 + x)).0 (every_under_at 16 (λ y. bit_or 0x10 y == 16 + y) x refl h)

pub nibble-or_two : (x : ℕ) → x < 16 → bit_or 0x20 x ≡ 32 + x
unfolding every_under
nibble-or_two x h =
    (==_iff _ (32 + x)).0 (every_under_at 16 (λ y. bit_or 0x20 y == 32 + y) x refl h)

-- Twelve bits, split into a nibble and a byte and joined again.
pub twelve_bits-or : (n : ℕ) → n < 4096 → bit_or (n / 256 * 256) (n % 256) ≡ n
unfolding every_under
twelve_bits-or n h =
    (==_iff _ n).0 (every_under_at 4096 (λ m. bit_or (m / 256 * 256) (m % 256) == m) n refl h)

-- Two bits above fourteen.
sixteen_bits_table :
    every_under 256 (λ h.
      every_under 256 (λ l. let w = h * 256 + l in bit_or (w / 16384 * 16384) (w % 16384) == w))
    ≡ true
unfolding every_under
sixteen_bits_table = refl

pub sixteen_bits-or : (w : ℕ) → w < 65536 → bit_or (w / 16384 * 16384) (w % 16384) ≡ w
sixteen_bits-or w h =
    let p = every_under_at 256 _ (w / 256) sixteen_bits_table (omega arith) in
    let q = every_under_at 256 _ (w % 256) p (omega arith) in
    let e : w / 256 * 256 + w % 256 ≡ w = omega arith in rw e at ((==_iff _ _).0 q)

pub sixteen_bits-join :
    (i n : ℕ) → n < 16384 → i * 16384 + n < 65536 → bit_or (i * 16384) n ≡ i * 16384 + n
sixteen_bits-join i n h fits =
    let p : (i * 16384 + n) / 16384 ≡ i = omega arith in
    let q : (i * 16384 + n) % 16384 ≡ n = omega arith in
    rw (p, q) at (sixteen_bits-or (i * 16384 + n) fits)
