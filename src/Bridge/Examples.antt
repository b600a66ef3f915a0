-- ===== src/Bridge/Examples.antt =====
-- A process data frame and a heartbeat, on a bridge that may inject and on one that may not.
use canopen_studio.Prelude.{◌≡◌, refl, true, false, [], ◌∷◌, arith}
use canopen_studio.Prelude.Dict.{find, put, erase}
use canopen_studio.Bridge.{
  Bridge, Message, received, signature_same, new_bridge, start, forward, inject_turn,
  inject_message, consume_echo, remember, drop_expired,
}
use canopen_studio.Bridge.Trace.{started, stopped, captured, turned, happen, run}
use canopen_studio.Bridge.ReadOnly.{run-read_only}
use canopen_studio.Bridge.Echo.{echo_suppressed}

abbrev pdo : Message
pdo = record {
  arbitration_id = 0x181;
  is_extended_id = false;
  is_remote_frame = false;
  bytes = 1 ∷ 2 ∷ [];
}

abbrev heartbeat : Message
heartbeat = record {
  arbitration_id = 0x701;
  is_extended_id = false;
  is_remote_frame = false;
  bytes = 5 ∷ [];
}

run-read_only_example :
    (run
      (started ∷ turned (received pdo) true 1 1 ∷ captured heartbeat true 2 2 ∷ stopped ∷ [])
      (new_bridge false 250)).1
    ≡ []
run-read_only_example =
    run-read_only
      (started ∷ turned (received pdo) true 1 1 ∷ captured heartbeat true 2 2 ∷ stopped ∷ []) 250

-- A bridge that may inject does.
pdo_injected :
    (run (started ∷ turned (received pdo) true 1 1 ∷ []) (new_bridge true 250)).1 ≡ pdo ∷ []
unfolding run happen start new_bridge inject_turn inject_message consume_echo find erase
    drop_expired remember put
pdo_injected = refl

abbrev open_bridge : Bridge
open_bridge = record (new_bridge true 250) { running = true; reading = true }

echo_suppressed_example :
    (forward pdo true 200 201
      (run
        (captured heartbeat true 50 51 ∷ turned (received heartbeat) true 60 61 ∷ [])
        (inject_message pdo true 1 2 open_bridge).0).0).1
    ≡ []
unfolding new_bridge
echo_suppressed_example =
    echo_suppressed pdo true 1 2 open_bridge
      (captured heartbeat true 50 51 ∷ turned (received heartbeat) true 60 61 ∷ []) true 200 201
      refl (unfold consume_echo find erase drop_expired new_bridge in refl)
      ((refl, omega arith), (refl, tt)) (omega arith)

-- Injected twice before the echoes come, a frame is awaited once: its second echo is mirrored.
abbrev injected_twice : Bridge
injected_twice =
    (run
      (turned (received pdo) true 1 1 ∷ turned (received pdo) true 2 2 ∷ captured pdo true 3 3 ∷ [])
      open_bridge).0

second_echo_mirrored : (forward pdo true 4 4 injected_twice).1 ≡ pdo ∷ []
unfolding run happen new_bridge inject_turn inject_message consume_echo find erase drop_expired
    remember put forward
second_echo_mirrored = refl
