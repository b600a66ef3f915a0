-- ===== src/Devices/Vehicles.antt =====
-- stack/decoders/de_haardt.py and j1939_extended.py.
use canopen_studio.Prelude.{
  ℕ, ◌+◌, ◌*◌, ◌/◌, ◌%◌, ◌^◌, ◌&&◌, Option, none, some, List, [], ◌∷◌, ◌++◌, leb, ltb, ◌==◌,
  if◌then◌else◌, length, get_or, bit_or,
}
use canopen_studio.Prelude.Bits.{shr, low_bits}
use canopen_studio.Prelude.Dict.{find, nat_same}
use canopen_studio.Prelude.Int.{pos}
use canopen_studio.Prelude.Text.{codes}
use canopen_studio.Devices.{Signals, number, label}

abbrev pub speed_modes : List (ℕ × List ℕ)
speed_modes =
    (0, codes "Emergency Stop")
    ∷ (1, codes "Pit Lane Speed (Very Slow)")
    ∷ (2, codes "Slow Speed (Yellow Flag)")
    ∷ (3, codes "Normal Speed (Green Flag)")
    ∷ (4, codes "Boost / Fast Mode")
    ∷ []

-- `str` of a byte
abbrev pub decimal_byte : ℕ → List ℕ
decimal_byte n =
    if ltb n 10
    then (b'0' + n) ∷ []
    else if ltb n 100
    then (b'0' + n / 10) ∷ (b'0' + n % 10) ∷ []
    else (b'0' + n / 100) ∷ (b'0' + n / 10 % 10) ∷ (b'0' + n % 10) ∷ []

abbrev pub mode_name : ℕ → Option (List ℕ) → List ℕ
mode_name mode (some name) = name
mode_name mode none = codes "Mode " ++ decimal_byte mode

unfoldable pub de_haardt_decode : ℕ → List ℕ → Option Signals
unfolding find
de_haardt_decode cid bytes =
    let mode = get_or bytes 0 0 in
    if cid == 0x270 && leb 2 (length bytes)
    then some (
        (codes "de_haardt_mode_code", number (pos mode))
        ∷ (codes "de_haardt_mode_name", label (mode_name mode (find mode speed_modes)))
        ∷ (codes "de_haardt_limit_val", number (pos (get_or bytes 1 0)))
        ∷ [])
    else none

-- The parts of a J1939 identifier; a destination where the frame has one.
pub record Extended : Type 0 where
  pub priority : ℕ
  pub source_address : ℕ
  pub destination_address : Option ℕ
  pub pgn : ℕ

unfoldable pub extended_decode : ℕ → Extended
extended_decode can_id =
    let dp = low_bits (shr can_id 24) 1 in
    let pf = low_bits (shr can_id 16) 8 in
    let ps = low_bits (shr can_id 8) 8 in
    let group = bit_or (dp * 2 ^ 16) (pf * 2 ^ 8) in
    record {
      priority = low_bits (shr can_id 26) 3;
      source_address = low_bits can_id 8;
      destination_address = if ltb pf 240 then some ps else none;
      pgn = if ltb pf 240 then group else bit_or group ps;
    }
