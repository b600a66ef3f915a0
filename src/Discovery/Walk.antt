-- ===== src/Discovery/Walk.antt =====
-- What the walk over the bitmasks reports, and how many requests it sends.
use canopen_studio.Prelude.{
  ℕ, ◌+◌, ◌≤◌, ◌≡◌, refl, min, Bool, false, ◌&&◌, ◌||◌, Option, List, [], ◌∷◌, ◌++◌, arith, ◌==◌,
  length, take, drop, length-take, Result, ok, err,
}
use canopen_studio.Diagnostic.{
  Backend, Interface, DiagnosticResponse, payload, positive_responses, service, request,
}
use canopen_studio.Discovery.{
  Found, BitmaskError, decode_support_bitmask, contains, add_pids, is_echo, absorbed, fold_reply,
  fold_replies, walk, discover_supported_pids, supports, support_pids, bitmask_bytes,
}

contains-append :
    (pid : ℕ) (ps qs : List ℕ) → contains pid (ps ++ qs) ≡ (contains pid ps || contains pid qs)
contains-append pid [] qs = refl
contains-append pid (p ∷ ps) qs = ground (arith, contains-append pid ps qs)

supports-add_pids :
    (source : ℕ) (pids : List ℕ) (found : Found) (ecu pid : ℕ)
    → supports (add_pids source pids found) ecu pid
      ≡ (source == ecu && contains pid pids || supports found ecu pid)
unfolding add_pids supports
supports-add_pids source pids [] ecu pid = ground arith
supports-add_pids source pids ((e, known) ∷ found) ecu pid =
    ground (arith, supports-add_pids source pids found ecu pid, contains-append pid pids known)

-- Whether a bitmask that was decoded declares the PID.
abbrev lists : ℕ → ℕ → Result BitmaskError (List ℕ) → Bool
lists base pid (ok pids) = base == pid || contains pid pids
lists base pid (err e) = false

-- Whether the reply is a bitmask of the PID `base`, of the controller, and declares the PID; an
-- answered `base` is declared too.
pub declares : ℕ → List ℕ → ℕ → ℕ → DiagnosticResponse → Bool
declares base suffix ecu pid reply =
    reply.source == ecu
    && is_echo base suffix (payload reply)
    && lists base pid (
        decode_support_bitmask base (take bitmask_bytes (drop (1 + length suffix) (payload reply))))

pub any_declares : ℕ → List ℕ → ℕ → ℕ → List DiagnosticResponse → Bool
any_declares base suffix ecu pid [] = false
any_declares base suffix ecu pid (reply ∷ replies) =
    declares base suffix ecu pid reply || any_declares base suffix ecu pid replies

absorbed-supports :
    (reply : DiagnosticResponse) (base : ℕ) (r : Result BitmaskError (List ℕ)) (found : Found)
    (continues : Bool) (ecu pid : ℕ)
    → supports (absorbed reply base r (found, continues)).0 ecu pid
      ≡ (supports found ecu pid || (reply.source == ecu && lists base pid r))
absorbed-supports reply base (err e) found continues ecu pid = ground arith
absorbed-supports reply base (ok pids) found continues ecu pid =
    ground (arith, supports-add_pids reply.source (base ∷ pids) found ecu pid)

fold_reply-supports :
    (base : ℕ) (suffix : List ℕ) (reply : DiagnosticResponse) (found : Found) (continues : Bool)
    (ecu pid : ℕ)
    → supports (fold_reply base suffix reply (found, continues)).0 ecu pid
      ≡ (supports found ecu pid || declares base suffix ecu pid reply)
unfolding fold_reply declares
fold_reply-supports base suffix reply found continues ecu pid = ground (
  arith,
  absorbed-supports reply base
      (decode_support_bitmask base (take bitmask_bytes (drop (1 + length suffix) (payload reply))))
      found continues ecu pid,
)

-- After the replies to one bitmask request, a PID is among those of a controller exactly if it was
-- before, or a reply of that controller that echoes the request declares it.
pub fold_replies-supports :
    (base : ℕ) (suffix : List ℕ) (replies : List DiagnosticResponse) (state : Found × Bool)
    (ecu pid : ℕ)
    → supports (fold_replies base suffix replies state).0 ecu pid
      ≡ (supports state.0 ecu pid || any_declares base suffix ecu pid replies)
unfolding fold_replies any_declares
fold_replies-supports base suffix [] state ecu pid = ground arith
fold_replies-supports base suffix (reply ∷ replies) (found, continues) ecu pid = ground (
  arith,
  fold_reply-supports base suffix reply found continues ecu pid,
  fold_replies-supports base suffix replies (fold_reply base suffix reply (found, continues)) ecu
      pid,
)

module _ {S : Type 0} (hooks : Backend S) (count : S → ℕ)
    (one_more : (bytes : List ℕ) (timeout : ℕ) (s : S)
      → count (hooks.exchange bytes timeout s).1 ≤ 1 + count s) where
  positive_responses-count :
      (mode : ℕ) (args : List ℕ) (timeout : Option ℕ) (i : Interface S)
      → count (positive_responses hooks mode args timeout false i).1.backend ≤ 1 + count i.backend
  unfolding positive_responses service request
  positive_responses-count mode args timeout i = grind (arith, one_more)

  walk-count :
      (mode : ℕ) (suffix : List ℕ) (timeout : Option ℕ) (bases : List ℕ) (found : Found)
      (i : Interface S)
      → count (walk hooks mode suffix timeout bases found i).1.backend
        ≤ length bases + count i.backend
  unfolding walk
  walk-count mode suffix timeout [] found i = omega arith
  walk-count mode suffix timeout (base ∷ bases) found i = grind (
    arith,
    walk-count mode suffix timeout bases,
    positive_responses-count mode (base ∷ suffix) timeout i,
  )

  -- Whatever the vehicle answers, the walk sends at most one request for each of the blocks it may
  -- walk, of which there are eight: if an exchange counts one request at most, a walk counts the
  -- lesser of these.
  pub discover_supported_pids-count :
      (mode : ℕ) (suffix : List ℕ) (timeout : Option ℕ) (max_blocks : ℕ) (i : Interface S)
      → count (discover_supported_pids hooks mode suffix timeout max_blocks i).1.backend
        ≤ min max_blocks 8 + count i.backend
  unfolding discover_supported_pids
  discover_supported_pids-count mode suffix timeout max_blocks i = omega (
    arith,
    walk-count mode suffix timeout (take max_blocks support_pids) [] i,
    length-take max_blocks support_pids,
  )
