-- ===== src/Diagnostic/Laws.antt =====
-- What a session promises to its callers.
use canopen_studio.Prelude.{
  ℕ, ◌+◌, ◌≡◌, ◌≢◌, refl, Bool, true, false, not, ◌&&◌, ◌||◌, is_ok, Option, List, [], ◌∷◌, ok, err,
  arith, ◌==◌, if◌then◌else◌,
}
use canopen_studio.Diagnostic.Replies.{
  DiagnosticResponse, DiagnosticError, is_negative, rejected_service, service_id, keep_positive,
  equals,
}
use canopen_studio.Diagnostic.Session.{
  Backend, Interface, open_session, close_session, request, service, positive_responses,
}

-- The replies that carry the service byte `expected` and refuse nothing.
pub answering : ℕ → List DiagnosticResponse → List DiagnosticResponse
answering expected [] = []
answering expected (r ∷ rs) =
    let rest = answering expected rs in
    if service_id r == expected && not (is_negative r) then r ∷ rest else rest

-- Without `raise_on_negative` the replies that are kept are, in their order, those that carry
-- the service byte of a positive answer and refuse nothing, and nothing is raised.
pub keep_positive-answering :
    (mode : ℕ) (replies : List DiagnosticResponse)
    → keep_positive mode false replies ≡ ok (answering (mode + 0x40) replies)
unfolding keep_positive answering
keep_positive-answering mode [] = refl
keep_positive-answering mode (r ∷ rs) = ground (arith, keep_positive-answering mode rs)

-- Whether some reply is a rejection of the service itself.
pub any_rejecting : ℕ → List DiagnosticResponse → Bool
any_rejecting mode [] = false
any_rejecting mode (r ∷ rs) = equals (rejected_service r) mode || any_rejecting mode rs

-- With `raise_on_negative`, if no reply rejects the service, the replies that are kept are those
-- that carry the service byte of a positive answer and refuse nothing; if one rejects it, the
-- call raises.
pub keep_positive_strict :
    (mode : ℕ) (replies : List DiagnosticResponse)
    → (any_rejecting mode replies ≡ false
        → keep_positive mode true replies ≡ ok (answering (mode + 0x40) replies))
      × (any_rejecting mode replies ≡ true → is_ok (keep_positive mode true replies) ≡ false)
unfolding keep_positive answering any_rejecting rejected_service
keep_positive_strict mode [] = (λ h. refl, λ h. cc)
keep_positive_strict mode (r ∷ rs) =
    let (accepts, raises) = keep_positive_strict mode rs in
    (λ h. ground (arith, accepts), λ h. ground (arith, raises, accepts))

module _ {S : Type 0} (hooks : Backend S) where
  -- On a closed session a request is refused and the backend is not touched, whatever it asks.
  pub positive_responses-closed :
      (mode : ℕ) (args : List ℕ) (timeout : Option ℕ) (raising : Bool) (i : Interface S)
      → i.open_flag ≡ false
      → ((positive_responses hooks mode args timeout raising i).1 ≡ i)
        × ((replies : List DiagnosticResponse)
            → (positive_responses hooks mode args timeout raising i).0 ≢ ok replies)
  unfolding positive_responses service request
  positive_responses-closed mode args timeout raising i h =
      (ground (arith, h), λ replies e. ground (arith, h, e))

  -- Closing leaves the session closed even when the backend raises; closing again does nothing.
  pub close_session-closed :
      (i : Interface S)
      → ((close_session hooks i).1.open_flag ≡ false)
        × (close_session hooks (close_session hooks i).1 ≡ (ok tt, (close_session hooks i).1))
  unfolding close_session
  close_session-closed i = ground arith

  -- A session that opens is open, and opening it again reaches no hook; one that fails to open
  -- stays as it was but for its backend.
  pub open_session_once :
      (i : Interface S)
      → ((open_session hooks i).0 ≡ ok tt → (open_session hooks i).1.open_flag ≡ true)
        × ((open_session hooks i).0 ≡ ok tt
            → open_session hooks (open_session hooks i).1 ≡ (ok tt, (open_session hooks i).1))
        × ((e : DiagnosticError)
            → (open_session hooks i).0 ≡ err e
            → (open_session hooks i).1.open_flag ≡ false)
  unfolding open_session
  open_session_once i = (ground arith, ground arith, λ e. ground arith)
