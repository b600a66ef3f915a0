-- ===== src/Client/Frames.antt =====
-- `J1979Client.read_freeze_frames`.
use canopen_studio.Prelude.{
  ℕ, ◌+◌, ◌*◌, ◌%◌, Bool, false, not, ◌&&◌, ◌||◌, Option, none, some, List, [], ◌∷◌, ◌++◌, map, leb,
  ◌==◌, if◌then◌else◌, length, get_or, Result, ok, err, ◌>>=◌,
}
use canopen_studio.Prelude.Dict.{find, put, nat_same}
use canopen_studio.Prelude.Int.{pos}
use canopen_studio.Prelude.Numerals.{hex_byte}
use canopen_studio.Prelude.Sort.{sort, by_key}
use canopen_studio.Prelude.Text.{codes, lower}
use canopen_studio.Diagnostic.{Backend, DiagnosticResponse}
use canopen_studio.Discovery.{Found, supports}
use canopen_studio.Discovery.Views.{all_pids}
use canopen_studio.Dtc.{DtcError, decode_dtc}
use canopen_studio.Formula.Evaluate.{Arithmetic}
use canopen_studio.Pids.{Definition}
use canopen_studio.Pids.Table.{Table, get_definition}
use canopen_studio.Client.{
  Client, ClientError, then_do, ask, discover, payload_after_echo, mode_current_data,
  mode_freeze_frame, pid_freeze_dtc,
}
use canopen_studio.Client.Reading.{Reading, plain, decode_reply}

pub record FreezeFrame (V : Type 0) : Type 0 where
  pub source : ℕ
  pub frame : ℕ
  pub dtc : Option (List ℕ)
  pub values : List (Reading V)

abbrev pub Frames : Type 0 → Type 0
Frames V = List (ℕ × FreezeFrame V)

abbrev pub code_or_none : Result DtcError (List ℕ) → Option (List ℕ)
code_or_none (ok code) = some code
code_or_none (err e) = none

abbrev pub trigger_word : List ℕ → ℕ
trigger_word bytes = get_or bytes 0 0 * 256 + get_or bytes 1 0

-- A reply to the question which code stored the frame; 0000 is no code.
unfoldable pub hold_frame : {V : Type 0} → ℕ → DiagnosticResponse → Frames V → Frames V
unfolding payload_after_echo decode_dtc put
hold_frame frame reply frames = elim (payload_after_echo reply pid_freeze_dtc (some frame)) [
  | none ↦ frames
  | some bytes ↦
      if not (leb 2 (length bytes)) || trigger_word bytes == 0
      then frames
      else put reply.source
          (record {
            source = reply.source;
            frame = frame;
            dtc = code_or_none (decode_dtc (trigger_word bytes));
            values = [];
          })
          frames
]

unfoldable pub hold_frames : {V : Type 0} → ℕ → List DiagnosticResponse → Frames V → Frames V
unfolding hold_frame
hold_frames frame [] frames = frames
hold_frames frame (reply ∷ replies) frames =
    hold_frames frame replies (hold_frame frame reply frames)

abbrev pub any_holds : {V : Type 0} → Found → ℕ → Frames V → Bool
any_holds found pid [] = false
any_holds found pid ((ecu, f) ∷ frames) = supports found ecu pid || any_holds found pid frames

unfoldable pub wanted : {V : Type 0} → Found → Frames V → List ℕ → List ℕ
unfolding supports
wanted found frames [] = []
wanted found frames (pid ∷ pids) =
    let rest = wanted found frames pids in
    if not (pid % 0x20 == 0) && not (pid == pid_freeze_dtc) && any_holds found pid frames
    then pid ∷ rest
    else rest

-- A controller that holds no frame is passed over.
unfoldable pub add_value :
    {V : Type 0}
    → Arithmetic V
    → Definition V
    → ℕ
    → ℕ
    → DiagnosticResponse
    → Frames V
    → Result ClientError (Frames V)
unfolding find put payload_after_echo decode_reply
add_value ops d pid frame reply frames = elim (find reply.source frames) [
  | none ↦ ok frames
  | some held ↦ elim (payload_after_echo reply pid (some frame)) [
    | none ↦ ok frames
    | some bytes ↦
        decode_reply ops d (plain (pos mode_current_data) (pos pid) d.name) reply.source bytes
        >>= λ reading.
            ok (put reply.source (record held { values = held.values ++ (reading ∷ []) }) frames)
  ]
]

unfoldable pub add_values :
    {V : Type 0}
    → Arithmetic V
    → Definition V
    → ℕ
    → ℕ
    → List DiagnosticResponse
    → Frames V
    → Result ClientError (Frames V)
unfolding add_value
add_values ops d pid frame [] frames = ok frames
add_values ops d pid frame (reply ∷ replies) frames =
    add_value ops d pid frame reply frames >>= add_values ops d pid frame replies

abbrev pub first_definition :
    {V : Type 0} → ℕ → Option (Definition V) → Option (Definition V) → Definition V
first_definition pid (some d) base = d
first_definition pid none (some d) = d
first_definition pid none none =
    plain (pos mode_current_data) (pos pid) (codes "pid_01_" ++ map lower (hex_byte pid))

-- `_base_definition`; the table of the generic profile, where it can be loaded.
abbrev pub base_definition : {V : Type 0} → Option (Table V) → ℕ → Option (Definition V)
base_definition none pid = none
base_definition (some table) pid = get_definition (pos mode_current_data) (pos pid) table

abbrev pub frame_values : {V : Type 0} → Frames V → List (FreezeFrame V)
frame_values [] = []
frame_values ((ecu, f) ∷ frames) = f ∷ frame_values frames

-- `[frames[ecu] for ecu in sorted(frames)]`
unfoldable pub in_order : {V : Type 0} → Frames V → List (FreezeFrame V)
unfolding sort
in_order frames = frame_values (sort (by_key (λ entry. entry.0)) frames)

module _ {V S : Type 0} (hooks : Backend S) (ops : Arithmetic V) (bundled : Option (Table V))
    (frame : ℕ) (timeout : Option ℕ) where
  unfoldable pub fill : List ℕ → Frames V → Client V S → Result ClientError (Frames V) × Client V S
  unfolding ask add_values get_definition lower
  fill [] frames c = (ok frames, c)
  fill (pid ∷ pids) frames c =
      let d =
        first_definition pid (get_definition (pos mode_current_data) (pos pid) c.table)
          (base_definition bundled pid) in
      then_do (ask hooks mode_freeze_frame (pid ∷ frame ∷ []) timeout c) (λ replies c'.
        then_do (add_values ops d pid frame replies frames, c')
          (λ frames' c''. fill pids frames' c''))

  unfoldable pub fill_held :
      Frames V → Client V S → Result ClientError (List (FreezeFrame V)) × Client V S
  unfolding discover wanted all_pids fill in_order
  fill_held [] c = (ok [], c)
  fill_held (held ∷ frames) c =
      then_do (discover hooks mode_freeze_frame (frame ∷ []) timeout c) (λ found c'.
        then_do (fill (wanted found (held ∷ frames) (all_pids found)) (held ∷ frames) c')
          (λ filled c''. (ok (in_order filled), c'')))

  unfoldable pub read_freeze_frames :
      Client V S → Result ClientError (List (FreezeFrame V)) × Client V S
  unfolding ask hold_frames fill_held
  read_freeze_frames c =
      then_do (ask hooks mode_freeze_frame (pid_freeze_dtc ∷ frame ∷ []) timeout c)
        (λ replies c'. fill_held (hold_frames frame replies []) c')
