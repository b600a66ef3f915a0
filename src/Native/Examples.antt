-- ===== src/Native/Examples.antt =====
-- A controller that asks for more time and then answers, and the frames around its answer.
use canopen_studio.Prelude.{
  ℕ, ◌≡◌, inl, inr, refl, true, false, none, some, List, [], ◌∷◌, arith, ok, All,
}
use canopen_studio.Canopen.{CanMessage}
use canopen_studio.Diagnostic.{DiagnosticResponse, is_negative, response_code}
use canopen_studio.IsoTp.{is_response_id}
use canopen_studio.IsoTp.Reassembly.{
  empty, feed, manage, process_frame, dispatch, single, new_frame, lookup, remove, insert, start,
}
use canopen_studio.Native.{
  Settings, NativeState, Poll, Wait, collect, turn, feed_message, heard, expired,
  is_response_pending,
}
use canopen_studio.Native.Replies.{IsFinal, collect-IsFinal}
use canopen_studio.Native.Deadline.{is_done, collect-done}

abbrev settings : Settings
settings = record { tx_id = 0x7DF; extended = false; padding = 0; settle_time = 50 }

abbrev frame : ℕ → List ℕ → CanMessage
frame can_id bytes = record { arbitration_id = can_id; is_extended_id = false; bytes = bytes }

abbrev polls : List Poll
polls =
    record {
      now = 0;
      message = some (frame 0x7E8 (3 ∷ 0x7F ∷ 0x01 ∷ 0x78 ∷ 0 ∷ 0 ∷ 0 ∷ 0 ∷ []));
      later = 10;
    }
    ∷ record { now = 900; message = some (frame 0x123 (1 ∷ 2 ∷ [])); later = 910 }
    ∷ record {
      now = 1005;
      message = some (frame 0x7E8 (3 ∷ 0x41 ∷ 0x0D ∷ 0x32 ∷ 0 ∷ 0 ∷ 0 ∷ 0 ∷ []));
      later = 1006;
    }
    ∷ record { now = 1056; message = none; later = 1076 }
    ∷ record { now = 11200; message = none; later = 11200 }
    ∷ []

abbrev waiting : Wait
waiting = record { deadline = 1000; settle_deadline = none; pending_seen = 0 }

abbrev quiet : NativeState
quiet = record { reassembler = empty; last_errors = []; sent = [] }

abbrev speed : List DiagnosticResponse
speed = record { source = 0x7E8; bytes = 0x41 ∷ 0x0D ∷ 0x32 ∷ [] } ∷ []

-- The answer comes behind the first deadline, within the grant.
speed_collected : (collect settings 1000 polls waiting quiet).0 ≡ some (ok speed)
unfolding collect turn feed_message heard expired is_response_pending is_negative response_code
    is_response_id feed manage process_frame dispatch single new_frame lookup remove insert start
speed_collected = refl

collect-IsFinal_example : All (IsFinal false) speed
collect-IsFinal_example = collect-IsFinal settings 1000 polls waiting quiet speed speed_collected

collect-done_example : is_done (collect settings 1000 polls waiting quiet).0 ≡ true
collect-done_example =
    collect-done settings 1000 20 polls waiting quiet
      (omega arith, (omega arith, (omega arith, (omega arith, (omega arith, tt)))))
      (inr (inr (inr (inr (inl (omega arith))))))
