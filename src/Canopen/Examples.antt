-- ===== src/Canopen/Examples.antt =====
-- A frame of node 5, and what a client sends to it.
use canopen_studio.Prelude.{ℕ, ◌+◌, ◌*◌, ◌≡◌, refl, false, none, some, List, [], ◌∷◌, arith}
use canopen_studio.Prelude.Text.{codes}
use canopen_studio.Canopen.{CanMessage, classify, tpdo, sdo_write_frame}
use canopen_studio.Canopen.Registry.{
  Message, Decoder, dispatch_and_decode, decode_through, can_decode_default, all_auto,
}
use canopen_studio.Canopen.Profiles.{of_device, dispatch_and_decode-profile}
use canopen_studio.Canopen.Layer.{CanopenLayer, entry_at}
use canopen_studio.Canopen.NodeStates.{last_reported, process_all, frames, process_all-node_states}
use canopen_studio.Canopen.Identifiers.{connection_set, classify-connection_set}

-- The command byte of a write carries the count of unused bytes.
sdo_write_two :
    (sdo_write_frame 5 0x6040 0 (0x0F ∷ 0 ∷ [])).bytes
    ≡ 0x2B ∷ 0x40 ∷ 0x60 ∷ 0 ∷ 0x0F ∷ 0 ∷ 0 ∷ 0 ∷ []
unfolding sdo_write_frame
sdo_write_two = refl

classify-connection_set_example :
    classify (record { arbitration_id = 14 * 128 + 5; is_extended_id = false; bytes = 5 ∷ [] })
    ≡ connection_set 14 5
classify-connection_set_example =
    classify-connection_set 14 5 (5 ∷ []) (omega arith) (omega arith) (omega arith) (omega arith)
      (ground arith)

abbrev beat : ℕ → ℕ → CanMessage
beat node state = record {
  arbitration_id = 0x700 + node;
  is_extended_id = false;
  bytes = state ∷ [];
}

abbrev beats : List (ℕ × CanMessage)
beats = (10, beat 5 0x00) ∷ (20, beat 6 0x05) ∷ (30, beat 5 0x7F) ∷ []

abbrev blank : CanopenLayer
blank = record { node_states = []; last_seen = [] }

process_all-node_states_example :
    entry_at 5 (process_all {V = ℕ} all_auto [] [] beats blank).node_states
    ≡ last_reported 5 none (frames beats)
unfolding entry_at
process_all-node_states_example =
    process_all-node_states {V = ℕ} all_auto [] [] 5 beats blank (omega arith)

-- Two decoders that each report one signal.
abbrev decoder : ℕ → List ℕ → ℕ → Decoder ℕ
decoder address device_name value = record {
  address = address;
  device_name = device_name;
  supported_node_ids = 5 ∷ [];
  custom_cob_ids = [];
  can_decode = λ message. can_decode_default (5 ∷ []) [] message;
  decode = λ message. some ((device_name, value) ∷ []);
}

abbrev decoders : List (Decoder ℕ)
decoders = decoder 1 (codes "Drive") 10 ∷ decoder 2 (codes "Inverter") 20 ∷ []

abbrev from_five : Message ℕ
from_five = record {
  arbitration_id = 0x185;
  is_extended = false;
  bytes = 1 ∷ [];
  service = tpdo;
  node_id = some 5;
  pdo_number = some 1;
  signals = [];
}

drive_alone :
    (dispatch_and_decode (codes "Drive") decoders from_five).signals ≡ (codes "Drive", 10) ∷ []
unfolding dispatch_and_decode decode_through can_decode_default
drive_alone = refl

dispatch_and_decode-profile_example :
    dispatch_and_decode (codes "Drive") decoders from_five
    ≡ dispatch_and_decode all_auto (of_device (codes "Drive") decoders) from_five
dispatch_and_decode-profile_example =
    dispatch_and_decode-profile (codes "Drive") decoders from_five refl refl
