-- ===== src/Devices/Examples.antt =====
-- The decoders of single devices on concrete frames.
use canopen_studio.Prelude.{ℕ, ◌≡◌, refl, none, some, List, [], ◌∷◌, arith}
use canopen_studio.Prelude.Bits.{test_bit}
use canopen_studio.Prelude.Int.{negsuc}
use canopen_studio.Formula.Functions.{signed}
use canopen_studio.Devices.{little_endian, little_signed}
use canopen_studio.Devices.Drives.{
  operation_enabled, status, status_velocity, second_values, control, parse_status_word,
  state_of_masks, drive_decode,
}
use canopen_studio.Devices.Vehicles.{extended_decode}
use canopen_studio.Devices.States.{state_by_bits, parse_status_word-bits}
use canopen_studio.Devices.Frames.{drive_decode-bytes_of}

drive_frame :
    drive_decode 0x185 (0x37 ∷ 0x02 ∷ 0x9C ∷ 0xFF ∷ 0xFF ∷ 0xFF ∷ [])
    ≡ some (status_velocity 0x237 operation_enabled (negsuc 99))
unfolding drive_decode parse_status_word state_of_masks little_endian little_signed signed
drive_frame = refl

extended_frame :
    extended_decode 0x18FEF100
    ≡ record { priority = 6; source_address = 0; destination_address = none; pgn = 0xFEF1 }
unfolding extended_decode
extended_frame = refl

parse_status_word-bits_example :
    parse_status_word 0x237
    ≡ state_by_bits
        (test_bit 0x237 6)
        (test_bit 0x237 5)
        (test_bit 0x237 3)
        (test_bit 0x237 2)
        (test_bit 0x237 1)
        (test_bit 0x237 0)
        0x237
parse_status_word-bits_example = parse_status_word-bits 0x237

abbrev trailing : List ℕ
trailing = 1 ∷ 2 ∷ []

drive_decode-bytes_of_example :
    (drive_decode 0x185 (0x37 ∷ 0x02 ∷ 0x9C ∷ 0xFF ∷ 0xFF ∷ 0xFF ∷ trailing)
      ≡ some (status_velocity 0x237 (parse_status_word 0x237) (negsuc 99)))
    × (drive_decode 0x285 (0x37 ∷ 0x02 ∷ 0x9C ∷ 0xFF ∷ 0xFF ∷ 0xFF ∷ trailing)
        ≡ some (second_values 0x237 (negsuc 99)))
    × (drive_decode 0x205 (0x37 ∷ 0x02 ∷ trailing) ≡ some (control 0x237))
    × (drive_decode 0x185 (0x37 ∷ 0x02 ∷ []) ≡ some (status 0x237 (parse_status_word 0x237)))
drive_decode-bytes_of_example =
    drive_decode-bytes_of 5 0x237 (negsuc 99) trailing (omega arith) (omega arith) (omega arith)
      (omega arith) (omega arith)
