-- ===== src/Devices/States.antt =====
-- The states of a drive, by the bits of its status word.
use canopen_studio.Prelude.{ℕ, ◌+◌, ◌*◌, ◌/◌, ◌%◌, ◌≡◌, Bool, true, false, arith, ◌==◌}
use canopen_studio.Prelude.Bits.{test_bit}
use canopen_studio.Devices.Drives.{
  DriveState, not_ready_to_switch_on, switch_on_disabled, ready_to_switch_on, switched_on,
  operation_enabled, quick_stop_active, fault_reaction_active, fault, other_status,
  parse_status_word, state_of_masks, masked_6f, masked_4f,
}

-- The table of CiA 402: the bits 6, 5 and 3 to 0 of each state.
abbrev pub state_by_bits : (bit6 bit5 bit3 bit2 bit1 bit0 : Bool) (word : ℕ) → DriveState
state_by_bits false bit5 false false false false word = not_ready_to_switch_on
state_by_bits true bit5 false false false false word = switch_on_disabled
state_by_bits false true false false false true word = ready_to_switch_on
state_by_bits false true false false true true word = switched_on
state_by_bits false true false true true true word = operation_enabled
state_by_bits false false false true true true word = quick_stop_active
state_by_bits false bit5 true true true true word = fault_reaction_active
state_by_bits false bit5 true false false false word = fault
state_by_bits bit6 bit5 bit3 bit2 bit1 bit0 word = other_status word

abbrev bit_value : Bool → ℕ
bit_value true = 1
bit_value false = 0

abbrev low_bits : (bit3 bit2 bit1 bit0 : Bool) → ℕ
low_bits bit3 bit2 bit1 bit0 =
    bit_value bit0 + 2 * bit_value bit1 + 4 * bit_value bit2 + 8 * bit_value bit3

state_of_masks-bits :
    (bit6 bit5 bit3 bit2 bit1 bit0 : Bool) (word : ℕ)
    → state_of_masks
        (low_bits bit3 bit2 bit1 bit0 + 64 * bit_value bit6)
        (low_bits bit3 bit2 bit1 bit0 + 32 * bit_value bit5 + 64 * bit_value bit6)
        word
      ≡ state_by_bits bit6 bit5 bit3 bit2 bit1 bit0 word
unfolding state_of_masks
state_of_masks-bits bit6 bit5 bit3 bit2 bit1 bit0 word = ground arith

bit_value_lem : (n : ℕ) → bit_value (n % 2 == 1) ≡ n % 2
bit_value_lem n = ground arith

-- The state of a status word is the one that the table has for its bits, and no state of the table
-- where the table has none.
pub parse_status_word-bits :
    (sw : ℕ)
    → parse_status_word sw
      ≡ state_by_bits
          (test_bit sw 6)
          (test_bit sw 5)
          (test_bit sw 3)
          (test_bit sw 2)
          (test_bit sw 1)
          (test_bit sw 0)
          sw
unfolding parse_status_word
parse_status_word-bits sw =
    let at_4f : masked_4f (masked_6f sw)
        ≡ low_bits (test_bit sw 3) (test_bit sw 2) (test_bit sw 1) (test_bit sw 0)
          + 64 * bit_value (test_bit sw 6) =
      omega (
        arith,
        bit_value_lem (sw / 1),
        bit_value_lem (sw / 2),
        bit_value_lem (sw / 4),
        bit_value_lem (sw / 8),
        bit_value_lem (sw / 32),
        bit_value_lem (sw / 64),
      ) in
    let at_6f : masked_6f (masked_6f sw)
        ≡ low_bits (test_bit sw 3) (test_bit sw 2) (test_bit sw 1) (test_bit sw 0)
          + 32 * bit_value (test_bit sw 5)
          + 64 * bit_value (test_bit sw 6) =
      omega (
        arith,
        bit_value_lem (sw / 1),
        bit_value_lem (sw / 2),
        bit_value_lem (sw / 4),
        bit_value_lem (sw / 8),
        bit_value_lem (sw / 32),
        bit_value_lem (sw / 64),
      ) in
    rw (at_4f, at_6f)
      (state_of_masks-bits (test_bit sw 6) (test_bit sw 5) (test_bit sw 3) (test_bit sw 2)
        (test_bit sw 1) (test_bit sw 0) sw)
