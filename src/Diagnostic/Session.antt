-- ===== src/Diagnostic/Session.antt =====
-- `DiagnosticInterface`: the life cycle of a session and its requests.
use canopen_studio.Prelude.{
  ℕ, Bool, true, false, Option, none, some, List, [], ◌∷◌, Result, ok, err, leb, if◌then◌else◌,
}
use canopen_studio.Diagnostic.Replies.{
  DiagnosticResponse, DiagnosticError, not_connected, empty_request, not_a_byte, keep_positive,
}

-- `_open`, `_close` and `_request`.
pub record Backend (S : Type 0) : Type 0 where
  pub bring_up : S → Result DiagnosticError (Unit {0}) × S
  pub take_down : S → Result DiagnosticError (Unit {0}) × S
  pub exchange : List ℕ → ℕ → S → Result DiagnosticError (List DiagnosticResponse) × S

pub record Interface (S : Type 0) : Type 0 where
  pub open_flag : Bool
  pub default_timeout : ℕ
  pub backend : S

-- The first byte that does not fit.
unfoldable pub bad_byte : List ℕ → Option ℕ
bad_byte [] = none
bad_byte (b ∷ bs) = let rest = bad_byte bs in if leb b 0xFF then rest else some b

abbrev pub timeout_or : Option ℕ → ℕ → ℕ
timeout_or none d = d
timeout_or (some t) d = t

module _ {S : Type 0} (hooks : Backend S) where
  abbrev opened :
      Interface S
      → Result DiagnosticError (Unit {0}) × S
      → Result DiagnosticError (Unit {0}) × Interface S
  opened i (ok u, s) = (ok u, record i { open_flag = true; backend = s })
  opened i (err e, s) = (err e, record i { backend = s })

  unfoldable pub open_session : Interface S → Result DiagnosticError (Unit {0}) × Interface S
  open_session i = if i.open_flag then (ok tt, i) else opened i (hooks.bring_up i.backend)

  -- `finally` clears the flag whether or not the hook raised.
  unfoldable pub close_session : Interface S → Result DiagnosticError (Unit {0}) × Interface S
  close_session i =
      if i.open_flag
      then (let (result, s) = hooks.take_down i.backend in
          (result, record i { open_flag = false; backend = s }))
      else (ok tt, i)

  unfoldable pub request :
      List ℕ
      → Option ℕ
      → Interface S
      → Result DiagnosticError (List DiagnosticResponse) × Interface S
  request [] timeout i = if i.open_flag then (err empty_request, i) else (err not_connected, i)
  request (b ∷ bs) timeout i =
      if i.open_flag
      then (let (result, s) =
            hooks.exchange (b ∷ bs) (timeout_or timeout i.default_timeout) i.backend in
          (result, record i { backend = s }))
      else (err not_connected, i)

  abbrev checked :
      Option ℕ
      → List ℕ
      → Option ℕ
      → Interface S
      → Result DiagnosticError (List DiagnosticResponse) × Interface S
  checked (some b) bytes timeout i = (err (not_a_byte b), i)
  checked none bytes timeout i = request bytes timeout i

  unfoldable pub service :
      ℕ
      → List ℕ
      → Option ℕ
      → Interface S
      → Result DiagnosticError (List DiagnosticResponse) × Interface S
  unfolding bad_byte
  service mode args timeout i = checked (bad_byte (mode ∷ args)) (mode ∷ args) timeout i

  abbrev kept :
      ℕ
      → Bool
      → Result DiagnosticError (List DiagnosticResponse) × Interface S
      → Result DiagnosticError (List DiagnosticResponse) × Interface S
  kept mode raise_on_negative (err e, i) = (err e, i)
  kept mode raise_on_negative (ok replies, i) = (keep_positive mode raise_on_negative replies, i)

  unfoldable pub positive_responses :
      ℕ
      → List ℕ
      → Option ℕ
      → Bool
      → Interface S
      → Result DiagnosticError (List DiagnosticResponse) × Interface S
  positive_responses mode args timeout raise_on_negative i =
      kept mode raise_on_negative (service mode args timeout i)
