-- ===== src/Client/Monitors.antt =====
-- `J1979Client.read_readiness`.
use canopen_studio.Prelude.{
  ℕ, Bool, true, false, not, ◌&&◌, ◌||◌, Option, none, some, List, [], ◌∷◌, leb, if◌then◌else◌,
  length, get_or, Result, ok, err, ◌>>=◌,
}
use canopen_studio.Prelude.Bits.{test_bit}
use canopen_studio.Diagnostic.{Backend, DiagnosticResponse}
use canopen_studio.Readiness.{
  Readiness, StatusError, pid_monitor_status, pid_monitor_this_cycle, decode_monitor_status,
  combine,
}
use canopen_studio.Client.{
  Client, ClientError, bad_status, then_do, ask, payload_after_echo, mode_current_data,
}

-- The replies of a number of bytes or more, each with the controller that sent it.
unfoldable pub echoed : ℕ → ℕ → List DiagnosticResponse → List (ℕ × List ℕ)
unfolding payload_after_echo
echoed least pid [] = []
echoed least pid (reply ∷ replies) =
    let rest = echoed least pid replies in
    elim (payload_after_echo reply pid none) [
      | none ↦ rest
      | some bytes ↦ if leb least (length bytes) then (reply.source, bytes) ∷ rest else rest
    ]

-- One controller that declares compression ignition settles it for all.
unfoldable pub any_compression : List (ℕ × List ℕ) → Bool
any_compression [] = false
any_compression ((source, bytes) ∷ answers) =
    test_bit (get_or bytes 1 0) 3 || any_compression answers

abbrev pub status_of : Result StatusError Readiness → Result ClientError Readiness
status_of (ok r) = ok r
status_of (err e) = err (bad_status e)

unfoldable pub statuses : ℕ → Bool → List (ℕ × List ℕ) → Result ClientError (List Readiness)
unfolding decode_monitor_status
statuses pid compression [] = ok []
statuses pid compression ((source, bytes) ∷ answers) =
    status_of (decode_monitor_status bytes pid (some source) (some compression)) >>= λ r.
    statuses pid compression answers >>= λ rest. ok (r ∷ rest)

unfoldable pub combined : ℕ → Bool → List (ℕ × List ℕ) → Result ClientError (Option Readiness)
unfolding statuses combine
combined pid compression answers =
    statuses pid compression answers >>= λ readings. ok (combine readings)

module _ {V S : Type 0} (hooks : Backend S) (timeout : Option ℕ) where
  -- The answers to PID 41 do not say which ignition it is; PID 01 is asked where none claims compression.
  unfoldable pub settle :
      Bool → List (ℕ × List ℕ) → Client V S → Result ClientError Bool × Client V S
  unfolding ask any_compression echoed
  settle this_cycle answers c = elim (this_cycle && not (any_compression answers)) [
    | true ↦
        then_do (ask hooks mode_current_data (pid_monitor_status ∷ []) timeout c)
          (λ replies c'. (ok (any_compression (echoed 2 pid_monitor_status replies)), c'))
    | false ↦ (ok (any_compression answers), c)
  ]

  unfoldable pub judge :
      Bool → ℕ → List (ℕ × List ℕ) → Client V S → Result ClientError (Option Readiness) × Client V S
  unfolding settle combined
  judge this_cycle pid [] c = (ok none, c)
  judge this_cycle pid (answer ∷ answers) c =
      then_do (settle this_cycle (answer ∷ answers) c)
        (λ compression c'. (combined pid compression (answer ∷ answers), c'))

  unfoldable pub read_readiness :
      Bool → Client V S → Result ClientError (Option Readiness) × Client V S
  unfolding ask judge echoed
  read_readiness this_cycle c =
      let pid = if this_cycle then pid_monitor_this_cycle else pid_monitor_status in
      then_do (ask hooks mode_current_data (pid ∷ []) timeout c)
        (λ replies c'. judge this_cycle pid (echoed 4 pid replies) c')
