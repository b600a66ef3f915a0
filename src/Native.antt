-- ===== src/Native.antt =====
-- src/canopen_studio/diag/native.py: a diagnostic session over a CAN bus. A clock reading is a
-- natural number. The bus is the sequence of what one turn of the collecting loop meets: the time
-- at its top, the frame that the source then hands over, if any, and the time when that frame has
-- been worked on. A frame that is sent is put in front of those sent before. The wait for flow
-- control between the frames of a long request and the sources of frames are not modelled.
pub mod Replies
pub mod Deadline
pub mod Addresses
mod Examples
use canopen_studio.Prelude.{
  ℕ, suc, ◌+◌, ◌*◌, ◌-◌, ◌^◌, bit_or, Bool, true, false, not, ◌&&◌, ◌||◌, Option, none, some, List,
  [], ◌∷◌, ltb, leb, ◌==◌, if◌then◌else◌, Result, ok, err,
}
use canopen_studio.Prelude.Bits.{low_bits}
use canopen_studio.Canopen.{CanMessage}
use canopen_studio.Diagnostic.{
  DiagnosticResponse, is_negative, response_code, response_pending, equals,
}
use canopen_studio.IsoTp.{
  is_response_id, flow_control_frame, physical_request_base_29bit, ecu_count_11bit, ValueError,
  segment,
}
use canopen_studio.IsoTp.Reassembly.{
  Manager, CanError, IsoTpError, FeedResult, FeedError, protocol_error, value_error, feed, empty,
}

abbrev pub max_response_pending : ℕ
max_response_pending = 10

unfoldable pub response_to_request_id : ℕ → Bool → ℕ
response_to_request_id response_id extended =
    if extended
    then bit_or physical_request_base_29bit (low_bits response_id 8 * 2 ^ 8)
    else response_id - ecu_count_11bit

pub record Settings : Type 0 where
  pub tx_id : ℕ
  pub extended : Bool
  pub padding : ℕ
  pub settle_time : ℕ

-- What the session keeps; an error is kept with its source.
pub record NativeState : Type 0 where
  pub reassembler : Manager
  pub last_errors : List (ℕ × IsoTpError)
  pub sent : List CanMessage

-- What escapes from the loop: an identifier or a frame that the receiver refuses to build, and a
-- response without a byte.
pub data Raised : Type 0 where
  bad_frame : CanError → Raised
  empty_response : Raised

pub record Poll : Type 0 where
  pub now : ℕ
  pub message : Option CanMessage
  pub later : ℕ

pub record Wait : Type 0 where
  pub deadline : ℕ
  pub settle_deadline : Option ℕ
  pub pending_seen : ℕ

unfoldable pub is_response_pending : DiagnosticResponse → Bool
is_response_pending reply = is_negative reply && equals (response_code reply) response_pending

abbrev pub Collected : Type 0
Collected = Option (Result Raised (List DiagnosticResponse))

abbrev pub cons_reply : DiagnosticResponse → Collected → Collected
cons_reply reply (some (ok replies)) = some (ok (reply ∷ replies))
cons_reply reply (some (err e)) = some (err e)
cons_reply reply none = none

abbrev pub past : Option ℕ → ℕ → Bool
past none now = false
past (some settle) now = leb settle now

unfoldable pub expired : Wait → ℕ → Bool
expired wait now = leb wait.deadline now || past wait.settle_deadline now

module _ (settings : Settings) where
  abbrev pub frame_of : ℕ → List ℕ → CanMessage
  frame_of can_id bytes = record {
    arbitration_id = can_id;
    is_extended_id = settings.extended;
    bytes = bytes;
  }

  abbrev pub fed :
      CanMessage
      → NativeState
      → Manager × Result FeedError FeedResult
      → Result Raised (Option (List ℕ)) × NativeState
  fed msg s (m, err (protocol_error e)) =
      (ok none, record s { reassembler = m; last_errors = (msg.arbitration_id, e) ∷ s.last_errors })
  fed msg s (m, err (value_error e)) = (err (bad_frame e), record s { reassembler = m })
  fed msg s (m, ok result) =
      let control =
        frame_of (response_to_request_id msg.arbitration_id settings.extended)
          (flow_control_frame 0 0 0 settings.padding) in
      (
        ok result.completed,
        record s {
          reassembler = m;
          sent = if result.flow_control_required then control ∷ s.sent else s.sent;
        },
      )

  -- `_feed`
  unfoldable pub feed_message :
      CanMessage → NativeState → Result Raised (Option (List ℕ)) × NativeState
  feed_message msg s = fed msg s (feed s.reassembler msg.arbitration_id msg.bytes)

  abbrev pub is_foreign : CanMessage → Bool
  is_foreign msg =
      (if msg.is_extended_id then not settings.extended else settings.extended)
      || not (is_response_id msg.arbitration_id settings.extended)

  -- What a complete response does to the waiting.
  unfoldable pub heard : ℕ → ℕ → DiagnosticResponse → Wait → Option DiagnosticResponse × Wait
  heard timeout later reply wait =
      if is_response_pending reply
      then (
        none,
        if leb (suc wait.pending_seen) max_response_pending
            then record {
              deadline = later + timeout;
              settle_deadline = none;
              pending_seen = suc wait.pending_seen;
            }
            else record wait { pending_seen = suc wait.pending_seen },
      )
      else (some reply, record wait { settle_deadline = some (later + settings.settle_time) })

  abbrev pub completed_to :
      ℕ
      → ℕ
      → ℕ
      → Wait
      → Result Raised (Option (List ℕ))
      → Result Raised (Option DiagnosticResponse × Wait)
  completed_to timeout later source wait (err e) = err e
  completed_to timeout later source wait (ok none) = ok (none, wait)
  completed_to timeout later source wait (ok (some [])) = err empty_response
  completed_to timeout later source wait (ok (some (b ∷ bs))) =
      ok (heard timeout later (record { source = source; bytes = b ∷ bs }) wait)

  -- One turn of the loop behind its first test.
  unfoldable pub turn :
      ℕ
      → Option CanMessage
      → ℕ
      → Wait
      → NativeState
      → Result Raised (Option DiagnosticResponse × Wait) × NativeState
  turn timeout none later wait s = (ok (none, wait), s)
  turn timeout (some msg) later wait s =
      let (completed, s') = feed_message msg s in
      if is_foreign msg
      then (ok (none, wait), s)
      else (completed_to timeout later msg.arbitration_id wait completed, s')

  -- The end of a turn, before the next ones.
  abbrev pub resume :
      Result Raised (Option DiagnosticResponse × Wait)
      → NativeState
      → (Wait → Collected × NativeState)
      → Collected × NativeState
  resume (err e) s more = (some (err e), s)
  resume (ok (none, wait)) s more = more wait
  resume (ok (some reply, wait)) s more = (cons_reply reply (more wait).0, (more wait).1)

  -- `_collect`; `none` where the turns end while it still waits.
  unfoldable pub collect : ℕ → List Poll → Wait → NativeState → Collected × NativeState
  collect timeout [] wait s = (none, s)
  collect timeout (poll ∷ polls) wait s =
      let (result, s') = turn timeout poll.message poll.later wait s in
      if expired wait poll.now
      then (some (ok []), s)
      else resume result s' (λ wait'. collect timeout polls wait' s')

  abbrev pub send_frames : List (List ℕ) → NativeState → NativeState
  send_frames [] s = s
  send_frames (frame ∷ frames) s =
      send_frames frames (record s { sent = frame_of settings.tx_id frame ∷ s.sent })

  abbrev pub sent_all :
      Result ValueError (List (List ℕ)) → NativeState → Result ValueError NativeState
  sent_all (err e) s = err e
  sent_all (ok frames) s = ok (send_frames frames s)

  -- `_send_request`
  unfoldable pub send_request : List ℕ → NativeState → Result ValueError NativeState
  send_request request s = sent_all (segment request settings.padding) s

  abbrev pub collected :
      ℕ
      → ℕ
      → List Poll
      → Result ValueError NativeState
      → Result ValueError (Collected × NativeState)
  collected timeout start polls (err e) = err e
  collected timeout start polls (ok s) = ok (
      collect timeout polls
        (record { deadline = start + timeout; settle_deadline = none; pending_seen = 0 }) s)

  -- `_request`, from the time `start` on
  unfoldable pub native_request :
      List ℕ → ℕ → ℕ → List Poll → NativeState → Result ValueError (Collected × NativeState)
  native_request request timeout start polls s =
      collected timeout start polls
        (send_request request (record s { last_errors = []; reassembler = empty }))
