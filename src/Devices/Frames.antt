-- ===== src/Devices/Frames.antt =====
-- The process data of a drive, as a device writes it.
use canopen_studio.Prelude.{
  ℕ, zero, suc, ◌+◌, ◌/◌, ◌%◌, ◌≤◌, ◌<◌, ◌≡◌, some, List, [], ◌∷◌, ◌++◌, arith,
}
use canopen_studio.Prelude.Int.{ℤ, pos_part, neg_part, pos, negsuc}
use canopen_studio.Formula.Functions.{twos_complement, twos_complement-signed}
use canopen_studio.Devices.{little_endian, little_signed}
use canopen_studio.Devices.Drives.{
  drive_decode, parse_status_word, status_velocity, second_values, control, status,
}

-- A number in a count of bytes, the lowest first.
abbrev pub bytes_of : ℕ → ℕ → List ℕ
bytes_of zero n = []
bytes_of (suc count) n = n % 256 ∷ bytes_of count (n / 256)

little_endian-two : (n : ℕ) → n < 65536 → little_endian (bytes_of 2 n) ≡ n
unfolding little_endian
little_endian-two n h = omega (arith, h)

little_endian-four : (n : ℕ) → n < 4294967296 → little_endian (bytes_of 4 n) ≡ n
unfolding little_endian
little_endian-four n h = omega (arith, h)

twos_complement-lt :
    (z : ℤ) → neg_part z ≤ 2147483648 → pos_part z < 2147483648 → twos_complement z 32 < 4294967296
twos_complement-lt (pos n) h k = omega (arith, k)
twos_complement-lt (negsuc n) h k = omega (arith, h)

little_signed-four :
    (z : ℤ)
    → neg_part z ≤ 2147483648
    → pos_part z < 2147483648
    → little_signed (bytes_of 4 (twos_complement z 32)) ≡ z
unfolding little_signed
little_signed-four z h k =
    let e = little_endian-four (twos_complement z 32) (twos_complement-lt z h k) in
    rw e (twos_complement-signed z 31 h k)

-- The process data of a drive of any node from 1 to 127, a word of sixteen bits and a signed value of
-- thirty-two, are read back: a first transmitted frame with a status word and a velocity gives both,
-- with the state of the word, and one with the word alone gives the word and its state; a first
-- received frame gives the control word; a second transmitted frame gives a word and the value. More
-- bytes may follow, but for the status word alone.
pub drive_decode-bytes_of :
    (node word : ℕ) (z : ℤ) (rest : List ℕ)
    → 1 ≤ node
    → node ≤ 127
    → word < 65536
    → neg_part z ≤ 2147483648
    → pos_part z < 2147483648
    → (drive_decode (0x180 + node) (bytes_of 2 word ++ (bytes_of 4 (twos_complement z 32) ++ rest))
        ≡ some (status_velocity word (parse_status_word word) z))
      × (drive_decode
            (0x280 + node)
            (bytes_of 2 word ++ (bytes_of 4 (twos_complement z 32) ++ rest))
          ≡ some (second_values word z))
      × (drive_decode (0x200 + node) (bytes_of 2 word ++ rest) ≡ some (control word))
      × (drive_decode (0x180 + node) (bytes_of 2 word)
          ≡ some (status word (parse_status_word word)))
unfolding drive_decode
drive_decode-bytes_of node word z rest low high small neg_ok pos_ok =
    let w = little_endian-two word small in
    let v = little_signed-four z neg_ok pos_ok in
    (
      ground (arith, low, high, w, v),
      ground (arith, low, high, w, v),
      ground (arith, low, high, w, v),
      ground (arith, low, high, w, v),
    )
