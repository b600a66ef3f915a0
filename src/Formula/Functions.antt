-- ===== src/Formula/Functions.antt =====
-- The two functions of diag/j1979/formula.py that are its own, on integers that are not negative.
use canopen_studio.Prelude.{ℕ, suc, ◌+◌, ◌-◌, ◌^◌, ◌≤◌, ◌<◌, ◌≡◌, arith, leb, if◌then◌else◌}
use canopen_studio.Prelude.Bits.{shr, low_bits}
use canopen_studio.Prelude.Int.{ℤ, pos, negsuc, pos_part, neg_part, sub_ℕ}

-- `1 << bits` and `limit >> 1`
unfoldable pub signed : ℕ → ℕ → ℤ
signed value bits =
    let limit = 2 ^ bits in if leb (shr limit 1) value then sub_ℕ value limit else pos value

unfoldable pub bit : ℕ → ℕ → ℕ
bit value index = low_bits (shr value index) 1

-- The word that stands for an integer of some width.
abbrev pub twos_complement : ℤ → ℕ → ℕ
twos_complement (pos n) bits = n
twos_complement (negsuc n) bits = 2 ^ bits - suc n

power_suc : (n : ℕ) → 2 ^ suc n ≡ 2 ^ n + 2 ^ n
power_suc n = omega arith

-- Read as two's complement, a word of one bit or more lies between the bounds of its width, and is
-- the word that the integer is written as.
signed-twos_complement :
    (value n : ℕ)
    → value < 2 ^ suc n
    → (twos_complement (signed value (suc n)) (suc n) ≡ value)
      × (neg_part (signed value (suc n)) ≤ 2 ^ n)
      × (pos_part (signed value (suc n)) < 2 ^ n)
unfolding signed
signed-twos_complement value n h =
    (ground (arith, h, power_suc n), ground (arith, h, power_suc n), ground (arith, h, power_suc n))

-- Every integer between the bounds of a width is read back from the word that it is written as.
pub twos_complement-signed :
    (z : ℤ) (n : ℕ)
    → neg_part z ≤ 2 ^ n
    → pos_part z < 2 ^ n
    → signed (twos_complement z (suc n)) (suc n) ≡ z
unfolding signed
twos_complement-signed z n h k = ground (arith, h, k, power_suc n)
