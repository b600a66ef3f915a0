-- ===== src/Devices/Drives.antt =====
-- stack/decoders/cia402_generic.py and sevcon_gen4.py.
use canopen_studio.Prelude.{
  ℕ, ◌+◌, ◌*◌, ◌/◌, ◌%◌, Bool, ◌&&◌, ◌||◌, Option, none, some, List, [], ◌∷◌, leb, ◌==◌,
  if◌then◌else◌, length, get_or,
}
use canopen_studio.Prelude.Int.{ℤ, pos}
use canopen_studio.Prelude.Text.{codes}
use canopen_studio.Canopen.{
  NmtState, from_byte, boot_up, stopped, operational, pre_operational, unknown,
}
use canopen_studio.Devices.{Signal, Signals, number, label, little_endian, little_signed, slice}

pub data DriveState : Type 0 where
  not_ready_to_switch_on switch_on_disabled ready_to_switch_on switched_on operation_enabled :
      DriveState
  quick_stop_active fault_reaction_active fault : DriveState
  other_status : ℕ → DriveState

-- `sw & 0x006F`, and `sw & 0x004F` of what is left
abbrev pub masked_6f : ℕ → ℕ
masked_6f sw = sw % 16 + sw / 32 % 4 * 32

abbrev pub masked_4f : ℕ → ℕ
masked_4f sw = sw % 16 + sw / 64 % 2 * 64

unfoldable pub state_of_masks : (by_4f by_6f word : ℕ) → DriveState
state_of_masks by_4f by_6f word =
    if by_4f == 0x00
    then not_ready_to_switch_on
    else if by_4f == 0x40
    then switch_on_disabled
    else if by_6f == 0x21
    then ready_to_switch_on
    else if by_6f == 0x23
    then switched_on
    else if by_6f == 0x27
    then operation_enabled
    else if by_6f == 0x07
    then quick_stop_active
    else if by_4f == 0x0F
    then fault_reaction_active
    else if by_4f == 0x08
    then fault
    else other_status word

unfoldable pub parse_status_word : ℕ → DriveState
unfolding state_of_masks
parse_status_word sw =
    let masked = masked_6f sw in state_of_masks (masked_4f masked) (masked_6f masked) sw

abbrev pub between : ℕ → ℕ → ℕ → Bool
between low n high = leb low n && leb n high

-- `CiA402GenericDecoder.can_decode`
unfoldable pub drive_can_decode : ℕ → Bool
drive_can_decode cid =
    between 0x181 cid 0x1FF
    || between 0x281 cid 0x2FF
    || between 0x381 cid 0x3FF
    || between 0x201 cid 0x27F

-- What the drive says; the state stands for its text.
pub data DriveSignals : Type 0 where
  status : (word : ℕ) → DriveState → DriveSignals
  status_velocity : (word : ℕ) → DriveState → (velocity : ℤ) → DriveSignals
  control : (word : ℕ) → DriveSignals
  second_values : (first : ℕ) → (second : ℤ) → DriveSignals

unfoldable pub drive_decode : ℕ → List ℕ → Option DriveSignals
unfolding little_endian little_signed parse_status_word
drive_decode cid bytes =
    let word = little_endian (slice 0 2 bytes) in
    if between 0x181 cid 0x1FF && leb 2 (length bytes)
    then (if leb 6 (length bytes)
        then some (status_velocity word (parse_status_word word) (little_signed (slice 2 4 bytes)))
        else some (status word (parse_status_word word)))
    else if between 0x201 cid 0x27F && leb 2 (length bytes)
    then some (control word)
    else if between 0x281 cid 0x2FF && leb 6 (length bytes)
    then some (second_values word (little_signed (slice 2 4 bytes)))
    else none

abbrev pub word_at : List ℕ → ℕ → Signal
word_at bytes place = number (little_signed (slice place 2 bytes))

abbrev pub state_name : NmtState → List ℕ
state_name boot_up = codes "Boot Up"
state_name stopped = codes "Stopped"
state_name operational = codes "Operational"
state_name pre_operational = codes "Pre Operational"
state_name unknown = codes "Unknown"

-- `SevconGen4Decoder.decode`
unfoldable pub sevcon_decode : ℕ → List ℕ → Option Signals
unfolding from_byte little_signed
sevcon_decode cid bytes =
    if cid == 0x701 && leb 1 (length bytes)
    then some ((codes "sevcon_nmt_state", label (state_name (from_byte (get_or bytes 0 0)))) ∷ [])
    else if cid == 0x148 && leb 8 (length bytes)
    then some (
        (codes "inverter_status_v1", word_at bytes 0)
        ∷ (codes "inverter_status_v2", word_at bytes 2)
        ∷ (codes "inverter_status_v3", word_at bytes 4)
        ∷ (codes "inverter_status_v4", word_at bytes 6)
        ∷ [])
    else if cid == 0x441 && leb 8 (length bytes)
    then some (
        (codes "motor_monitor_m1", word_at bytes 0)
        ∷ (codes "motor_monitor_m2", word_at bytes 2)
        ∷ (codes "motor_monitor_m3", word_at bytes 4)
        ∷ (codes "motor_monitor_m4", word_at bytes 6)
        ∷ [])
    else if cid == 0x156 && leb 8 (length bytes)
    then some (
        (codes "heatsink_temp_c", word_at bytes 6)
        ∷ (codes "motor_temp_raw", word_at bytes 2)
        ∷ (codes "aux_voltage", word_at bytes 4)
        ∷ [])
    else if cid == 0x270 && leb 7 (length bytes)
    then some (
        (codes "control_mode", number (pos (get_or bytes 0 0)))
        ∷ (codes "speed_limit_step", number (pos (get_or bytes 1 0)))
        ∷ (codes "target_torque", word_at bytes 5)
        ∷ [])
    else if cid == 0x473 && leb 8 (length bytes)
    then some (
        (codes "max_speed_rpm", number (little_signed (slice 0 4 bytes)))
        ∷ (codes "actual_speed_rpm", number (little_signed (slice 4 4 bytes)))
        ∷ [])
    else none
