-- ===== src/IsoTp/Reassembly.antt =====
-- crates/canopen-core/src/isotp.rs (the receiver of one source), isotp_manager.rs (one receiver
-- for each source) and `PyIsoTpReassembler.feed` of pyo3_bindings.rs, which
-- src/canopen_studio/diag/isotp.py wraps. A method returns the new object beside its result, since
-- an error may leave the object changed. The time stamp of a frame is not modelled.
use canopen_studio.Prelude.{
  ℕ, ◌+◌, ◌-◌, ◌*◌, ◌^◌, min, bit_or, Bool, true, false, not, ◌&&◌, ◌||◌, Option, none, some, List,
  [], ◌∷◌, ◌++◌, Result, ok, err, is_ok, ltb, leb, ◌==◌, if◌then◌else◌, length, get_or, take, drop,
}
use canopen_studio.Prelude.Bits.{shr, low_bits}

pub record CanFrame : Type 0 where
  pub id : ℕ
  pub payload : List ℕ

pub data CanError : Type 0 where
  invalid_dlc : ℕ → CanError

-- `CanFrame::new`
unfoldable pub new_frame : ℕ → List ℕ → Result CanError CanFrame
new_frame id payload =
    if ltb 8 (length payload)
    then err (invalid_dlc (length payload))
    else ok (record { id = id; payload = payload })

pub data IsoTpError : Type 0 where
  invalid_single_frame_length : ℕ → IsoTpError
  invalid_first_frame_length : ℕ → IsoTpError
  sequence_number_mismatch : ℕ → ℕ → IsoTpError
  invalid_pci : ℕ → IsoTpError
  no_transfer_in_progress : IsoTpError
  can : CanError → IsoTpError

pub record Reassembler : Type 0 where
  pub expected_rx_id : ℕ
  pub tx_fc_id : ℕ
  pub expected_total_len : ℕ
  pub buffer : List ℕ
  pub expected_sn : ℕ
  pub in_progress : Bool

abbrev pub new : ℕ → ℕ → Reassembler
new rx tx = record {
  expected_rx_id = rx;
  tx_fc_id = tx;
  expected_total_len = 0;
  buffer = [];
  expected_sn = 1;
  in_progress = false;
}

abbrev pub reset : Reassembler → Reassembler
reset r = record r { expected_total_len = 0; buffer = []; expected_sn = 1; in_progress = false }

-- The pair that `process_frame` returns: a complete message, and a frame to send.
pub record Processed : Type 0 where
  pub completed : Option (List ℕ)
  pub reply : Option CanFrame

abbrev pub Step : Type 0
Step = Reassembler × Result IsoTpError Processed

abbrev pub nothing : Processed
nothing = record { completed = none; reply = none }

abbrev pub complete : List ℕ → Processed
complete message = record { completed = some message; reply = none }

-- The arm for a single frame; `tail` is the frame's payload behind its first byte.
unfoldable pub single : Reassembler → ℕ → List ℕ → Step
single r pci tail =
    let len = low_bits pci 4 in
    if len == 0 || ltb 7 len || ltb (length tail) len
    then (r, err (invalid_single_frame_length len))
    else (reset r, ok (complete (take len tail)))

abbrev answer : Reassembler → Result CanError CanFrame → Step
answer r (ok frame) = (r, ok (record { completed = none; reply = some frame }))
answer r (err e) = (r, err (can e))

unfoldable pub first : Reassembler → ℕ → List ℕ → Step
unfolding new_frame
first r pci tail =
    if ltb (length (pci ∷ tail)) 8
    then (r, err (invalid_pci pci))
    else let total_len = bit_or (low_bits pci 4 * 2 ^ 8) (get_or tail 0 0) in
      if not (leb 8 total_len && leb total_len 4095)
      then (r, err (invalid_first_frame_length total_len))
      else answer
          (record (reset r) {
            expected_total_len = total_len;
            expected_sn = 1;
            in_progress = true;
            buffer = drop 1 tail;
          })
          (new_frame r.tx_fc_id (0x30 ∷ 0 ∷ 0 ∷ 0 ∷ 0 ∷ 0 ∷ 0 ∷ 0 ∷ []))

-- The bytes of a consecutive frame join the buffer; a full buffer is the message.
unfoldable pub extend : Reassembler → List ℕ → Step
extend r tail =
    let remaining = r.expected_total_len - length r.buffer in
    let buffer = r.buffer ++ take (min remaining (length tail)) tail in
    let sn = low_bits (r.expected_sn + 1) 4 in
    if leb r.expected_total_len (length buffer)
    then (reset r, ok (complete buffer))
    else (record r { expected_sn = sn; buffer = buffer }, ok nothing)

unfoldable pub consecutive : Reassembler → ℕ → List ℕ → Step
consecutive r pci tail =
    if not r.in_progress
    then (r, err no_transfer_in_progress)
    else let sn = low_bits pci 4 in
      if sn == r.expected_sn
      then extend r tail
      else (reset r, err (sequence_number_mismatch r.expected_sn sn))

unfoldable pub dispatch : Reassembler → List ℕ → Step
dispatch r [] = (r, err (invalid_pci 0))
dispatch r (pci ∷ tail) =
    let pci_type = low_bits (shr pci 4) 4 in
    if pci_type == 0
    then single r pci tail
    else if pci_type == 1
    then first r pci tail
    else if pci_type == 2
    then consecutive r pci tail
    else if pci_type == 3
    then (r, ok nothing)
    else (r, err (invalid_pci pci_type))

unfoldable pub process_frame : Reassembler → CanFrame → Step
unfolding dispatch
process_frame r frame =
    if frame.id == r.expected_rx_id then dispatch r frame.payload else (r, ok nothing)

-- The `HashMap` of an `IsoTpManager`; its order is not observable but through `pending_sources`.
pub record Manager : Type 0 where
  pub transfers : List (ℕ × Reassembler)

unfoldable pub lookup : ℕ → List (ℕ × Reassembler) → Option Reassembler
lookup k [] = none
lookup k ((j, r) ∷ m) = if j == k then some r else lookup k m

unfoldable pub remove : ℕ → List (ℕ × Reassembler) → List (ℕ × Reassembler)
remove k [] = []
remove k ((j, r) ∷ m) = let rest = remove k m in if j == k then rest else (j, r) ∷ rest

unfoldable pub insert : ℕ → Reassembler → List (ℕ × Reassembler) → List (ℕ × Reassembler)
unfolding remove
insert k r m = (k, r) ∷ remove k m

abbrev pub empty : Manager
empty = record { transfers = [] }

abbrev pub pci_type_of : List ℕ → ℕ
pci_type_of [] = 0xFF
pci_type_of (pci ∷ tail) = low_bits (shr pci 4) 4

-- Whether a consecutive frame ended its transfer, by completing or by breaking it.
abbrev pub ended : Result IsoTpError Processed → Bool
ended (err e) = true
ended (ok p) = elim p.completed [ none ↦ false | some m ↦ true ]

unfoldable pub start : Manager → CanFrame → Manager × Result IsoTpError Processed
start m frame =
    let source = frame.id in
    let (r, res) =
      process_frame (new source (if ltb 0x08 source then source - 0x08 else source)) frame in
    (
      if pci_type_of frame.payload == 1 && is_ok res
          then record m { transfers = insert source r m.transfers }
          else m,
      res,
    )

unfoldable pub continue :
    Manager → CanFrame → Option Reassembler → Manager × Result IsoTpError Processed
continue m frame none = (m, ok nothing)
continue m frame (some r) =
    let (r', res) = process_frame r frame in
    (
      if ended res
          then record m { transfers = remove frame.id m.transfers }
          else record m { transfers = insert frame.id r' m.transfers },
      res,
    )

unfoldable pub manage : Manager → CanFrame → Manager × Result IsoTpError Processed
unfolding start continue
manage m frame =
    let pci_type = pci_type_of frame.payload in
    if pci_type == 0 || pci_type == 1
    then start m frame
    else if pci_type == 2
    then continue m frame (lookup frame.id m.transfers)
    else (m, ok nothing)

pub record FeedResult : Type 0 where
  pub completed : Option (List ℕ)
  pub flow_control_required : Bool

-- `ProtocolError` and `ValueError` of `feed`
pub data FeedError : Type 0 where
  protocol_error : IsoTpError → FeedError
  value_error : CanError → FeedError

abbrev pub all_zero : List ℕ → Bool
all_zero [] = true
all_zero (b ∷ bs) = b == 0 && all_zero bs

abbrev pub is_some {ℓ} : {A : Type ℓ} → Option A → Bool
is_some none = false
is_some (some a) = true

abbrev pub feed_result : Result IsoTpError Processed → Result FeedError FeedResult
feed_result (ok p) =
    ok (record { completed = p.completed; flow_control_required = is_some p.reply })
feed_result (err e) = err (protocol_error e)

abbrev pub Fed : Type 0
Fed = Manager × Result FeedError FeedResult

abbrev pub feed_frame : Manager → Result CanError CanFrame → Fed
feed_frame m (err e) = (m, err (value_error e))
feed_frame m (ok frame) = let (m', res) = manage m frame in (m', feed_result res)

unfoldable pub feed : Manager → ℕ → List ℕ → Fed
unfolding new_frame
feed m source bytes =
    if all_zero bytes
    then (m, ok (record { completed = none; flow_control_required = false }))
    else feed_frame m (new_frame source bytes)
