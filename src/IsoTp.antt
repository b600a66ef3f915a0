-- ===== src/IsoTp.antt =====
-- src/canopen_studio/diag/isotp.py: identifiers, flow control frames and segmentation of ISO-TP
-- messages. Bytes are numbers below 256; identifiers and addresses are natural numbers, so the
-- guards against negative values have no counterpart.
pub mod Reassembly
pub mod Segments
pub mod Frames
pub mod Isolation
pub mod RoundTrip
pub mod Bounds
mod Examples
use canopen_studio.Prelude.{
  ℕ, zero, suc, ◌+◌, ◌-◌, ◌*◌, ◌^◌, bit_or, Bool, ◌&&◌, List, [], ◌∷◌, ◌++◌, Result, ok, err, ltb,
  leb, ◌==◌, if◌then◌else◌, length, take, drop, replicate,
}
use canopen_studio.Prelude.Bits.{shr, low_bits}

abbrev pub frame_size : ℕ
frame_size = 8

abbrev pub max_single_frame_payload : ℕ
max_single_frame_payload = 7

abbrev pub first_frame_payload : ℕ
first_frame_payload = 6

abbrev pub consecutive_frame_payload : ℕ
consecutive_frame_payload = 7

abbrev pub max_classic_payload : ℕ
max_classic_payload = 0xFFF

abbrev pub ecu_count_11bit : ℕ
ecu_count_11bit = 8

abbrev pub physical_request_base_11bit : ℕ
physical_request_base_11bit = 0x7E0

abbrev pub response_base_11bit : ℕ
response_base_11bit = 0x7E8

abbrev pub physical_request_base_29bit : ℕ
physical_request_base_29bit = 0x18DA00F1

abbrev pub response_prefix_29bit : ℕ
response_prefix_29bit = 0x18DAF1

-- The `ValueError`s of the module.
pub data ValueError : Type 0 where
  address_not_a_byte : ℕ → ValueError
  index_out_of_range : ℕ → ValueError
  empty_payload : ValueError
  payload_too_long : ℕ → ValueError

unfoldable pub physical_request_id : ℕ → Bool → Result ValueError ℕ
physical_request_id ecu_address extended =
    if extended
    then (if leb ecu_address 0xFF
        then ok (bit_or physical_request_base_29bit (ecu_address * 2 ^ 8))
        else err (address_not_a_byte ecu_address))
    else if ltb ecu_address ecu_count_11bit
    then ok (physical_request_base_11bit + ecu_address)
    else err (index_out_of_range ecu_address)

unfoldable pub is_response_id : ℕ → Bool → Bool
is_response_id can_id extended =
    if extended
    then shr can_id 8 == response_prefix_29bit
    else leb response_base_11bit can_id && ltb can_id (response_base_11bit + ecu_count_11bit)

unfoldable pub flow_control_frame : ℕ → ℕ → ℕ → ℕ → List ℕ
flow_control_frame status block_size stmin padding =
    let head = bit_or 0x30 (low_bits status 4) ∷ low_bits block_size 8 ∷ low_bits stmin 8 ∷ [] in
    head ++ replicate (frame_size - length head) (low_bits padding 8)

-- `bytes.ljust`
abbrev pub ljust : ℕ → ℕ → List ℕ → List ℕ
ljust width filler frame = frame ++ replicate (width - length frame) filler

unfoldable pub single_frame : List ℕ → ℕ → List ℕ
single_frame payload filler = ljust frame_size filler (bit_or 0x00 (length payload) ∷ payload)

unfoldable pub first_frame : List ℕ → List ℕ
first_frame payload =
    bit_or 0x10 (low_bits (shr (length payload) 8) 4)
    ∷ low_bits (length payload) 8
    ∷ take first_frame_payload payload

-- The `while index < length` loop. The first argument is fuel; the frames that it lacks would be
-- missing from the result.
unfoldable pub consecutive_frames : ℕ → List ℕ → ℕ → ℕ → ℕ → List (List ℕ)
consecutive_frames zero payload index sequence filler = []
consecutive_frames (suc fuel) payload index sequence filler =
    let chunk = take consecutive_frame_payload (drop index payload) in
    let frame = ljust frame_size filler (bit_or 0x20 (low_bits sequence 4) ∷ chunk) in
    let index' = index + consecutive_frame_payload in
    let rest = consecutive_frames fuel payload index' (low_bits (sequence + 1) 4) filler in
    if ltb index (length payload) then frame ∷ rest else []

unfoldable pub segment : List ℕ → ℕ → Result ValueError (List (List ℕ))
segment [] padding = err empty_payload
segment (b ∷ bs) padding =
    let payload = b ∷ bs in
    let filler = low_bits padding 8 in
    if ltb max_classic_payload (length payload)
    then err (payload_too_long (length payload))
    else if leb (length payload) max_single_frame_payload
    then ok (single_frame payload filler ∷ [])
    else ok (
        first_frame payload
        ∷ consecutive_frames (length payload) payload first_frame_payload 1 filler)
