-- ===== src/Bridge.antt =====
-- src/canopen_studio/bridge.py: the mirror of a CAN bus on a network. Times are whole numbers of a
-- clock that never goes back; whether a bus takes a frame is an input. The thread that reads the
-- network is the sequence of its turns, between which the capture loop hands frames over.
pub mod Trace
pub mod ReadOnly
pub mod Echo
mod Examples
use canopen_studio.Prelude.{
  ℕ, ◌+◌, ◌-◌, ◌≡◌, ◌↔◌, arith, Bool, true, false, not, ◌&&◌, ◌||◌, Option, none, some, List, [],
  ◌∷◌, ltb, leb, ◌==◌, if◌then◌else◌,
}
use canopen_studio.Prelude.Dict.{Same, find, put, erase, text_eq_iff}
use canopen_studio.Prelude.Text.{text_eq}

pub record Message : Type 0 where
  pub arbitration_id : ℕ
  pub is_extended_id : Bool
  pub is_remote_frame : Bool
  pub bytes : List ℕ

-- The identifier, the extended flag and the payload.
abbrev pub Signature : Type 0
Signature = ℕ × Bool × List ℕ

abbrev pub signature : Message → Signature
signature msg = (msg.arbitration_id, msg.is_extended_id, msg.bytes)

abbrev pub same_flag : Bool → Bool → Bool
same_flag true b = b
same_flag false b = not b

abbrev pub signature_eq : Signature → Signature → Bool
signature_eq (a, e, s) (b, f, t) = a == b && (same_flag e f && text_eq s t)

pub signature_eq_iff : (s t : Signature) → (signature_eq s t ≡ true) ↔ (s ≡ t)
signature_eq_iff (a, e, s) (b, f, t) = ground (arith, text_eq_iff s t)

instance abbrev pub signature_same : Same Signature
signature_same = record { same = signature_eq; same_iff = signature_eq_iff }

abbrev pub Pending : Type 0
Pending = List (Signature × ℕ)

pub record Stats : Type 0 where
  pub forwarded : ℕ
  pub injected : ℕ
  pub suppressed : ℕ
  pub suppressed_inject : ℕ
  pub errors : ℕ

-- `reading` says whether the thread that injects was started.
pub record Bridge : Type 0 where
  pub allow_inject : Bool
  pub echo_window : ℕ
  pub running : Bool
  pub reading : Bool
  pub stats : Stats
  pub pending_injected : Pending
  pub pending_forwarded : Pending

abbrev pub no_stats : Stats
no_stats = record { forwarded = 0; injected = 0; suppressed = 0; suppressed_inject = 0; errors = 0 }

unfoldable pub new_bridge : Bool → ℕ → Bridge
new_bridge allow_inject echo_window = record {
  allow_inject = allow_inject;
  echo_window = echo_window;
  running = false;
  reading = false;
  stats = no_stats;
  pending_injected = [];
  pending_forwarded = [];
}

unfoldable pub start : Bridge → Bridge
start b = if b.running then b else record b { running = true; reading = b.allow_inject }

-- The network bus is shut down; what that raises is dropped.
unfoldable pub stop : Bridge → Bridge
stop b =
    if b.running
    then record b {
      running = false;
      reading = false;
      pending_injected = [];
      pending_forwarded = [];
    }
    else b

unfoldable pub drop_expired : ℕ → ℕ → Pending → Pending
drop_expired window now [] = []
drop_expired window now ((s, t) ∷ pending) =
    let rest = drop_expired window now pending in
    if ltb window (now - t) then rest else (s, t) ∷ rest

abbrev pub within : ℕ → ℕ → Option ℕ → Bool
within window now none = false
within window now (some t) = leb (now - t) window

-- Whether a pending echo of the frame was consumed, and what is left pending.
unfoldable pub consume_echo : ℕ → ℕ → Signature → Pending → Bool × Pending
unfolding find erase drop_expired
consume_echo window now s pending =
    let left = erase s pending in
    if within window now (find s pending)
    then (true, left)
    else (false, drop_expired window now left)

-- `remember`, at the time that the clock shows then
unfoldable pub remember : Signature → ℕ → Pending → Pending
unfolding put
remember s now pending = put s now pending

-- `_copy` keeps all that a message is here. The result is the bridge and what the network was sent.
unfoldable pub forward : Message → (sent : Bool) (now later : ℕ) → Bridge → Bridge × List Message
unfolding consume_echo remember
forward msg sent now later b =
    if not b.running
    then (b, [])
    else let (echo, left) = consume_echo b.echo_window now (signature msg) b.pending_injected in
      let b1 = record b { pending_injected = left } in
      if echo
      then (record b1 { stats = record b1.stats { suppressed = b1.stats.suppressed + 1 } }, [])
      else let b2 = record b1 {
        pending_forwarded =
            if b1.allow_inject
            then remember (signature msg) later b1.pending_forwarded
            else b1.pending_forwarded;
      } in
        if sent
        then (
          record b2 { stats = record b2.stats { forwarded = b2.stats.forwarded + 1 } },
          msg ∷ [],
        )
        else (record b2 { stats = record b2.stats { errors = b2.stats.errors + 1 } }, [])

-- What the network gave within the time of one turn.
pub data Received : Type 0 where
  nothing failed : Received
  received : Message → Received

-- One turn of the loop that injects, with what the real bus was sent.
unfoldable pub inject_message :
    Message → (sent : Bool) (now later : ℕ) → Bridge → Bridge × List Message
unfolding consume_echo remember
inject_message msg sent now later b =
    let (echo, left) = consume_echo b.echo_window now (signature msg) b.pending_forwarded in
    let b1 = record b { pending_forwarded = left } in
    if echo
    then (
      record b1 { stats = record b1.stats { suppressed_inject = b1.stats.suppressed_inject + 1 } },
      [],
    )
    else let b2 = record b1 {
      pending_injected = remember (signature msg) later b1.pending_injected;
    } in
      if sent
      then (record b2 { stats = record b2.stats { injected = b2.stats.injected + 1 } }, msg ∷ [])
      else (record b2 { stats = record b2.stats { errors = b2.stats.errors + 1 } }, [])

abbrev pub inject_received :
    Received → (sent : Bool) (now later : ℕ) → Bridge → Bridge × List Message
inject_received nothing sent now later b = (b, [])
inject_received failed sent now later b =
    (record b { stats = record b.stats { errors = b.stats.errors + 1 } }, [])
inject_received (received msg) sent now later b = inject_message msg sent now later b

unfoldable pub inject_turn :
    Received → (sent : Bool) (now later : ℕ) → Bridge → Bridge × List Message
unfolding inject_message
inject_turn r sent now later b =
    if b.reading && b.running then inject_received r sent now later b else (b, [])
