-- ===== src/Canopen.antt =====
-- src/canopen_studio/stack: the CANopen layer (canopen_layer.py, types.py), the registry of device
-- decoders (registry.py, base_decoder.py) and the decoders themselves (decoders/*.py). Descriptions
-- for the display are not modelled, and neither are subscribers. A time stamp is a natural number.
pub mod Identifiers
pub mod Registry
pub mod Layer
pub mod NodeStates
pub mod Profiles
mod Examples
use canopen_studio.Prelude.{
  ℕ, ◌+◌, ◌*◌, ◌^◌, ◌-◌, bit_or, Bool, true, false, not, ◌&&◌, ◌||◌, Option, none, some, List, [],
  ◌∷◌, ◌++◌, ltb, leb, ◌==◌, if◌then◌else◌, length, get_or, replicate,
}
use canopen_studio.Prelude.Bits.{shr, low_bits}

pub data NmtState : Type 0 where
  boot_up stopped operational pre_operational unknown : NmtState

unfoldable pub from_byte : ℕ → NmtState
from_byte value =
    if value == 0x00
    then boot_up
    else if value == 0x04
    then stopped
    else if value == 0x05
    then operational
    else if value == 0x7F
    then pre_operational
    else unknown

pub data NmtCommand : Type 0 where
  start_node stop_node enter_pre_operational reset_node reset_communication : NmtCommand

abbrev pub command_value : NmtCommand → ℕ
command_value start_node = 0x01
command_value stop_node = 0x02
command_value enter_pre_operational = 0x80
command_value reset_node = 0x81
command_value reset_communication = 0x82

pub data CanopenService : Type 0 where
  nmt_master sync time_stamp emergency tpdo rpdo sdo_tx sdo_rx heartbeat : CanopenService
  extended_j1939 raw_can : CanopenService

-- A `can.Message`.
pub record CanMessage : Type 0 where
  pub arbitration_id : ℕ
  pub is_extended_id : Bool
  pub bytes : List ℕ

-- The service, the node and the PDO number that an identifier stands for.
pub record Classified : Type 0 where
  pub service : CanopenService
  pub node_id : Option ℕ
  pub pdo_number : Option ℕ

abbrev pub plain : CanopenService → Classified
plain s = record { service = s; node_id = none; pdo_number = none }

abbrev pub of_node : CanopenService → ℕ → Classified
of_node s n = record { service = s; node_id = some n; pdo_number = none }

abbrev pub pdo : CanopenService → ℕ → ℕ → Classified
pdo s k n = record { service = s; node_id = some n; pdo_number = some k }

abbrev pub within : ℕ → ℕ → ℕ → Bool
within lo hi cid = leb lo cid && leb cid hi

-- The identifiers from 0x580 on.
unfoldable pub classify_sdo : ℕ → Classified
classify_sdo cid =
    if within 0x580 0x5FF cid
    then of_node sdo_tx (cid - 0x580)
    else if within 0x600 0x67F cid
    then of_node sdo_rx (cid - 0x600)
    else plain raw_can

-- The process data objects.
unfoldable pub classify_pdo : ℕ → Classified
classify_pdo cid =
    if within 0x180 0x1FF cid
    then pdo tpdo 1 (cid - 0x180)
    else if within 0x200 0x27F cid
    then pdo rpdo 1 (cid - 0x200)
    else if within 0x280 0x2FF cid
    then pdo tpdo 2 (cid - 0x280)
    else if within 0x300 0x37F cid
    then pdo rpdo 2 (cid - 0x300)
    else if within 0x380 0x3FF cid
    then pdo tpdo 3 (cid - 0x380)
    else if within 0x400 0x47F cid
    then pdo rpdo 3 (cid - 0x400)
    else if within 0x480 0x4FF cid
    then pdo tpdo 4 (cid - 0x480)
    else if within 0x500 0x57F cid
    then pdo rpdo 4 (cid - 0x500)
    else classify_sdo cid

abbrev pub nmt_node : List ℕ → Option ℕ
nmt_node (command ∷ node ∷ rest) = some node
nmt_node bytes = none

-- The classification of a frame where the native module is not there.
unfoldable pub classify : CanMessage → Classified
classify msg =
    let cid = msg.arbitration_id in
    if msg.is_extended_id
    then of_node extended_j1939 (low_bits cid 8)
    else if cid == 0x000
    then record { service = nmt_master; node_id = nmt_node msg.bytes; pdo_number = none }
    else if cid == 0x080
    then plain sync
    else if cid == 0x100
    then plain time_stamp
    else if within 0x081 0x0FF cid
    then of_node emergency (cid - 0x080)
    else if within 0x700 0x77F cid
    then of_node heartbeat (cid - 0x700)
    else classify_pdo cid

-- What the layer sends.
unfoldable pub nmt_frame : ℕ → NmtCommand → CanMessage
nmt_frame node_id command = record {
  arbitration_id = 0x000;
  is_extended_id = false;
  bytes = command_value command ∷ node_id ∷ [];
}

unfoldable pub sync_frame : CanMessage
sync_frame = record { arbitration_id = 0x080; is_extended_id = false; bytes = [] }

unfoldable pub sdo_read_frame : ℕ → ℕ → ℕ → CanMessage
sdo_read_frame node_id index subindex = record {
  arbitration_id = 0x600 + node_id;
  is_extended_id = false;
  bytes = 0x40 ∷ low_bits index 8 ∷ low_bits (shr index 8) 8 ∷ subindex ∷ 0 ∷ 0 ∷ 0 ∷ 0 ∷ [];
}

-- `n & 0x03` for `n = 4 - len(data_bytes)`, which is negative past four bytes.
abbrev pub unused_bits : ℕ → ℕ
unused_bits count =
    if leb count 4 then low_bits (4 - count) 2 else low_bits (4 * count + 4 - count) 2

unfoldable pub sdo_write_frame : ℕ → ℕ → ℕ → List ℕ → CanMessage
sdo_write_frame node_id index subindex data_bytes =
    let cs = bit_or 0x23 (unused_bits (length data_bytes) * 2 ^ 2) in
    let payload =
      (cs ∷ low_bits index 8 ∷ low_bits (shr index 8) 8 ∷ subindex ∷ []) ++ data_bytes in
    record {
      arbitration_id = 0x600 + node_id;
      is_extended_id = false;
      bytes = payload ++ replicate (8 - length payload) 0;
    }
