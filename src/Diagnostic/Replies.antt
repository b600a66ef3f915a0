-- ===== src/Diagnostic/Replies.antt =====
-- `DiagnosticResponse`, and which replies answer a request.
use canopen_studio.Prelude.{
  ℕ, ◌+◌, Bool, false, ◌&&◌, Option, none, some, List, [], ◌∷◌, Result, ok, err, leb, ◌==◌,
  if◌then◌else◌, length, get_or, drop,
}

pub record DiagnosticResponse : Type 0 where
  pub source : ℕ
  pub bytes : List ℕ

abbrev pub negative_response : ℕ
negative_response = 0x7F

abbrev pub positive_response_offset : ℕ
positive_response_offset = 0x40

abbrev pub response_pending : ℕ
response_pending = 0x78

abbrev pub service_id : DiagnosticResponse → ℕ
service_id r = get_or r.bytes 0 0

abbrev pub payload : DiagnosticResponse → List ℕ
payload r = drop 1 r.bytes

unfoldable pub is_negative : DiagnosticResponse → Bool
is_negative r = service_id r == negative_response && leb 3 (length r.bytes)

unfoldable pub rejected_service : DiagnosticResponse → Option ℕ
rejected_service r = if is_negative r then some (get_or r.bytes 1 0) else none

unfoldable pub response_code : DiagnosticResponse → Option ℕ
response_code r = if is_negative r then some (get_or r.bytes 2 0) else none

pub data DiagnosticError : Type 0 where
  not_connected : DiagnosticError
  empty_request : DiagnosticError
  not_a_byte : ℕ → DiagnosticError
  negative : ℕ → ℕ → ℕ → DiagnosticError
  timed_out transport protocol : DiagnosticError

abbrev pub equals : Option ℕ → ℕ → Bool
equals none b = false
equals (some a) b = a == b

abbrev pub or_zero : Option ℕ → ℕ
or_zero none = 0
or_zero (some a) = a

abbrev pub prepend :
    DiagnosticResponse
    → Result DiagnosticError (List DiagnosticResponse)
    → Result DiagnosticError (List DiagnosticResponse)
prepend r (ok kept) = ok (r ∷ kept)
prepend r (err e) = err e

-- The loop of `positive_responses`.
unfoldable pub keep_positive :
    ℕ → Bool → List DiagnosticResponse → Result DiagnosticError (List DiagnosticResponse)
keep_positive mode raise_on_negative [] = ok []
keep_positive mode raise_on_negative (reply ∷ replies) =
    let rest = keep_positive mode raise_on_negative replies in
    if is_negative reply
    then (if raise_on_negative && equals (rejected_service reply) mode
        then err (negative reply.source mode (or_zero (response_code reply)))
        else rest)
    else if service_id reply == mode + positive_response_offset
    then prepend reply rest
    else rest

-- `first_payload`
unfoldable pub first_payload : List DiagnosticResponse → Option (List ℕ)
first_payload [] = none
first_payload (reply ∷ replies) = some (payload reply)
