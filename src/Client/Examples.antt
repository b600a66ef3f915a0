-- ===== src/Client/Examples.antt =====
-- Two controllers that hold a freeze frame and answer in the order opposite to that of their
-- addresses, with the temperature of the coolant in it.
use canopen_studio.Prelude.{
  ℕ, suc, ◌≡◌, refl, true, false, none, some, List, [], ◌∷◌, map, if◌then◌else◌, ok,
}
use canopen_studio.Prelude.Dict.{find, put, nat_same, key_same}
use canopen_studio.Prelude.Int.{pos}
use canopen_studio.Prelude.Sort.{sort, insert_sorted}
use canopen_studio.Prelude.Text.{codes, text_eq, lower}
use canopen_studio.Diagnostic.{
  Backend, DiagnosticResponse, positive_responses, service, request, keep_positive, is_negative,
  rejected_service, response_code, bad_byte,
}
use canopen_studio.Discovery.{
  Found, discover_supported_pids, walk, fold_replies, fold_reply, is_echo, add_pids,
  decode_support_bitmask, declared, from_bytes, supports,
}
use canopen_studio.Discovery.Views.{all_pids}
use canopen_studio.Dtc.{decode_dtc, hex_digit}
use canopen_studio.Readiness.{insert_sources, insert_source}
use canopen_studio.Formula.Naturals.{naturals}
use canopen_studio.Pids.{raw, kind}
use canopen_studio.Pids.Decode.{decode}
use canopen_studio.Pids.Table.{get_definition}
use canopen_studio.Client.{Client, ask, discover, supported_pids, payload_after_echo}
use canopen_studio.Client.Reading.{Reading, plain, decode_reply, read_replies}
use canopen_studio.Client.Frames.{
  FreezeFrame, hold_frame, hold_frames, wanted, add_value, add_values, fill, fill_held, in_order,
  read_freeze_frames,
}
use canopen_studio.Client.Origins.{origin, echoes, read_replies-echoes}
use canopen_studio.Client.Again.{supported_pids_again}
use canopen_studio.Client.Held.{InOrder}
use canopen_studio.Client.Ordered.{names, read_freeze_frames-InOrder}

abbrev from_both : List ℕ → List DiagnosticResponse
from_both bytes =
    record { source = 0x7E9; bytes = bytes } ∷ record { source = 0x7E8; bytes = bytes } ∷ []

-- The code P0123, PID 05 and its value; all in mode 02 and of frame 0.
abbrev answer : List ℕ → List DiagnosticResponse
answer bytes =
    if text_eq bytes (2 ∷ 2 ∷ 0 ∷ [])
    then from_both (0x42 ∷ 2 ∷ 0 ∷ 0x01 ∷ 0x23 ∷ [])
    else if text_eq bytes (2 ∷ 0 ∷ 0 ∷ [])
    then from_both (0x42 ∷ 0 ∷ 0 ∷ 0x08 ∷ 0 ∷ 0 ∷ 0 ∷ [])
    else if text_eq bytes (2 ∷ 5 ∷ 0 ∷ [])
    then from_both (0x42 ∷ 5 ∷ 0 ∷ 0x7B ∷ [])
    else if text_eq bytes (1 ∷ 0 ∷ [])
    then from_both (0x41 ∷ 0 ∷ 0x08 ∷ 0 ∷ 0 ∷ 0 ∷ [])
    else []

-- It counts its requests.
abbrev vehicle : Backend ℕ
vehicle = record {
  bring_up = λ n. (ok tt, n);
  take_down = λ n. (ok tt, n);
  exchange = λ bytes timeout n. (ok (answer bytes), suc n);
}

abbrev client : Client ℕ ℕ
client = record {
  interface = record { open_flag = true; default_timeout = 1000; backend = 0 };
  table = [];
  dtc_descriptions = [];
  supported = [];
}

abbrev coolant : ℕ → Reading ℕ
coolant ecu = record {
  definition = plain (pos 1) (pos 5) (codes "pid_01_05");
  raw_bytes = 0x7B ∷ [];
  value = raw (0x7B ∷ []);
  source = ecu;
}

abbrev held_by : ℕ → FreezeFrame ℕ
held_by ecu = record {
  source = ecu;
  frame = 0;
  dtc = some (codes "P0123");
  values = coolant ecu ∷ [];
}

frames_read :
    (read_freeze_frames vehicle naturals none 0 none client).0
    ≡ ok (held_by 0x7E8 ∷ held_by 0x7E9 ∷ [])
unfolding read_freeze_frames ask positive_responses service request keep_positive is_negative
    rejected_service response_code bad_byte hold_frames hold_frame payload_after_echo decode_dtc
    hex_digit put find fill_held discover discover_supported_pids walk fold_replies fold_reply
    is_echo add_pids decode_support_bitmask declared from_bytes wanted supports all_pids
    insert_sources insert_source fill add_values add_value decode_reply decode kind get_definition
    lower in_order sort insert_sorted
frames_read = refl

read_freeze_frames-InOrder_example :
    InOrder vehicle (names none client) 0 (held_by 0x7E8 ∷ held_by 0x7E9 ∷ [])
read_freeze_frames-InOrder_example =
    read_freeze_frames-InOrder vehicle naturals none 0 none client
      (held_by 0x7E8 ∷ held_by 0x7E9 ∷ []) frames_read

abbrev found : Found
found = (0x7E9, 0 ∷ 5 ∷ []) ∷ (0x7E8, 0 ∷ 5 ∷ []) ∷ []

abbrev asked_once : Client ℕ ℕ
asked_once = record client {
  interface = record client.interface { backend = 1 };
  supported = (1, found) ∷ [];
}

first_asked : supported_pids vehicle 1 false client ≡ (ok found, asked_once)
unfolding supported_pids discover positive_responses service request keep_positive is_negative
    rejected_service response_code bad_byte put find discover_supported_pids walk fold_replies
    fold_reply is_echo add_pids decode_support_bitmask declared from_bytes
first_asked = refl

supported_pids_again_example : supported_pids vehicle 1 false asked_once ≡ (ok found, asked_once)
supported_pids_again_example =
    supported_pids_again vehicle 1 false client asked_once found first_asked

-- The second reply answers an earlier request.
abbrev late : List DiagnosticResponse
late =
    record { source = 0x7E8; bytes = 0x41 ∷ 5 ∷ 0x7B ∷ [] }
    ∷ record { source = 0x7E9; bytes = 0x41 ∷ 12 ∷ 0x1A ∷ 0xF8 ∷ [] }
    ∷ []

late_read :
    read_replies naturals (plain (pos 1) (pos 5) (codes "pid_01_05")) 5 late
    ≡ ok (coolant 0x7E8 ∷ [])
unfolding read_replies decode_reply decode kind payload_after_echo
late_read = refl

read_replies-echoes_example : map origin (coolant 0x7E8 ∷ []) ≡ echoes 5 late
read_replies-echoes_example =
    read_replies-echoes naturals (plain (pos 1) (pos 5) (codes "pid_01_05")) 5 late
      (coolant 0x7E8 ∷ []) late_read
