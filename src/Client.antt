-- ===== src/Client.antt =====
-- src/canopen_studio/diag/j1979/client.py: the session that reads PIDs, freeze frames, trouble codes
-- and what a vehicle says about itself, over any backend. Identifiers, PIDs and modes are bytes.
pub mod Reading
pub mod Frames
pub mod Monitors
pub mod Codes
pub mod Identity
pub mod Origins
pub mod Again
pub mod Answers
pub mod Held
pub mod Ordered
mod Examples
use canopen_studio.Prelude.{
  ℕ, ◌+◌, Bool, true, false, not, ◌&&◌, ◌||◌, Option, none, some, List, [], ◌∷◌, ◌++◌, leb, ltb,
  ◌==◌, if◌then◌else◌, length, get_or, drop, Result, ok, err,
}
use canopen_studio.Prelude.Dict.{find, put, nat_same}
use canopen_studio.Diagnostic.{
  Backend, Interface, DiagnosticResponse, DiagnosticError, payload, positive_responses,
}
use canopen_studio.Discovery.{Found, discover_supported_pids}
use canopen_studio.Dtc.{DtcError}
use canopen_studio.Readiness.{StatusError}
use canopen_studio.Formula.Evaluate.{EvalError}
use canopen_studio.Pids.Table.{Table}

abbrev pub mode_current_data : ℕ
mode_current_data = 0x01

abbrev pub mode_freeze_frame : ℕ
mode_freeze_frame = 0x02

abbrev pub mode_vehicle_info : ℕ
mode_vehicle_info = 0x09

abbrev pub pid_vin : ℕ
pid_vin = 0x02

abbrev pub pid_calibration_id : ℕ
pid_calibration_id = 0x04

abbrev pub pid_ecu_name : ℕ
pid_ecu_name = 0x0A

abbrev pub pid_freeze_dtc : ℕ
pid_freeze_dtc = 0x02

-- What a call raises: an error of the session, and what escapes from a formula or the decoders.
pub data ClientError : Type 0 where
  diagnostic : DiagnosticError → ClientError
  formula_escaped : EvalError → ClientError
  bad_code : DtcError → ClientError
  bad_status : StatusError → ClientError

-- The session, the table, the wordings of the codes, and the PIDs that were discovered for each mode.
pub record Client (V S : Type 0) : Type 0 where
  pub interface : Interface S
  pub table : Table V
  pub dtc_descriptions : List (List ℕ × List ℕ)
  pub supported : List (ℕ × Found)

-- The next step, where the one before did not raise.
abbrev pub then_do {ℓ κ} :
    {A : Type ℓ} {B : Type κ} {C : Type 0}
    → Result ClientError A × C
    → (A → C → Result ClientError B × C)
    → Result ClientError B × C
then_do (ok a, c) next = next a c
then_do (err e, c) next = (err e, c)

abbrev pub as_client {ℓ} : {A : Type ℓ} → Result DiagnosticError A → Result ClientError A
as_client (ok a) = ok a
as_client (err e) = err (diagnostic e)

module _ {V S : Type 0} (hooks : Backend S) where
  unfoldable pub ask :
      ℕ → List ℕ → Option ℕ → Client V S → Result ClientError (List DiagnosticResponse) × Client V S
  unfolding positive_responses
  ask mode args timeout c =
      let (result, i) = positive_responses hooks mode args timeout false c.interface in
      (as_client result, record c { interface = i })

  unfoldable pub discover :
      ℕ → List ℕ → Option ℕ → Client V S → Result ClientError Found × Client V S
  unfolding discover_supported_pids
  discover mode suffix timeout c =
      let (result, i) = discover_supported_pids hooks mode suffix timeout 8 c.interface in
      (as_client result, record c { interface = i })

  abbrev pub remember :
      ℕ → Result ClientError Found × Client V S → Result ClientError Found × Client V S
  remember mode (ok found, c) = (ok found, record c { supported = put mode found c.supported })
  remember mode (err e, c) = (err e, c)

  unfoldable pub supported_pids : ℕ → Bool → Client V S → Result ClientError Found × Client V S
  unfolding discover find put
  supported_pids mode refresh c = elim refresh [
    | true ↦ remember mode (discover mode [] none c)
    | false ↦ elim (find mode c.supported) [
      | some found ↦ (ok found, c)
      | none ↦ remember mode (discover mode [] none c)
    ]
  ]

-- What stands behind the echo of the PID and, in mode 02, of the number of the frame.
unfoldable pub payload_after_echo : DiagnosticResponse → ℕ → Option ℕ → Option (List ℕ)
payload_after_echo reply pid none =
    let bytes = payload reply in
    if leb 1 (length bytes) && get_or bytes 0 0 == pid then some (drop 1 bytes) else none
payload_after_echo reply pid (some frame) =
    let bytes = payload reply in
    if leb 2 (length bytes) && get_or bytes 0 0 == pid && get_or bytes 1 0 == frame
    then some (drop 2 bytes)
    else none
