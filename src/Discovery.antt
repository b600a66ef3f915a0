-- ===== src/Discovery.antt =====
-- src/canopen_studio/diag/j1979/discovery.py: which PIDs each controller implements. A set is the
-- list of what was added to it, and the mapping from a controller to its set an association list.
-- The order of the properties of `SupportedPids` and its display forms are not modelled.
pub mod Bitmask
pub mod Walk
pub mod Views
mod Examples
use canopen_studio.Prelude.{
  ℕ, zero, suc, ◌+◌, ◌*◌, ◌-◌, Bool, true, false, not, ◌&&◌, ◌||◌, Option, none, some, List, [],
  ◌∷◌, ◌++◌, ltb, leb, ◌==◌, if◌then◌else◌, length, get_or, take, drop, Result, ok, err,
}
use canopen_studio.Prelude.Bits.{test_bit}
use canopen_studio.Prelude.Text.{text_eq}
use canopen_studio.Diagnostic.{
  Backend, Interface, DiagnosticResponse, DiagnosticError, payload, positive_responses,
}

abbrev pub support_pids : List ℕ
support_pids = 0x00 ∷ 0x20 ∷ 0x40 ∷ 0x60 ∷ 0x80 ∷ 0xA0 ∷ 0xC0 ∷ 0xE0 ∷ []

abbrev pub block_size : ℕ
block_size = 0x20

abbrev pub bitmask_bytes : ℕ
bitmask_bytes = 4

-- `int.from_bytes(data, "big")`, read into `acc`
unfoldable pub from_bytes : ℕ → List ℕ → ℕ
from_bytes acc [] = acc
from_bytes acc (b ∷ bytes) = from_bytes (acc * 256 + b) bytes

-- The PIDs of the last `count` positions of the block.
unfoldable pub declared : ℕ → ℕ → ℕ → List ℕ
declared base_pid value zero = []
declared base_pid value (suc k) =
    let rest = declared base_pid value k in
    if test_bit value k then (base_pid + 1 + (block_size - 1 - k)) ∷ rest else rest

-- A bitmask shorter than four bytes.
pub data BitmaskError : Type 0 where
  too_short : BitmaskError

unfoldable pub decode_support_bitmask : ℕ → List ℕ → Result BitmaskError (List ℕ)
decode_support_bitmask base_pid bytes =
    if ltb (length bytes) bitmask_bytes
    then err too_short
    else ok (declared base_pid (from_bytes 0 (take bitmask_bytes bytes)) block_size)

abbrev pub Found : Type 0
Found = List (ℕ × List ℕ)

abbrev pub contains : ℕ → List ℕ → Bool
contains pid [] = false
contains pid (p ∷ pids) = p == pid || contains pid pids

-- `found.setdefault(source, set())`, and what is added to the set it gives
unfoldable pub add_pids : ℕ → List ℕ → Found → Found
add_pids source pids [] = (source, pids) ∷ []
add_pids source pids ((ecu, known) ∷ found) =
    let rest = add_pids source pids found in
    if ecu == source then (ecu, pids ++ known) ∷ found else (ecu, known) ∷ rest

-- Whether the payload is a bitmask of the PID that was asked for.
unfoldable pub is_echo : ℕ → List ℕ → List ℕ → Bool
is_echo base suffix bytes =
    let start = 1 + length suffix in
    not (ltb (length bytes) (start + bitmask_bytes))
    && get_or bytes 0 0 == base
    && text_eq (take (length suffix) (drop 1 bytes)) suffix

abbrev pub absorbed :
    DiagnosticResponse → ℕ → Result BitmaskError (List ℕ) → Found × Bool → Found × Bool
absorbed reply base (err e) (found, continues) = (found, continues)
absorbed reply base (ok pids) (found, continues) =
    (add_pids reply.source (base ∷ pids) found, continues || contains (base + block_size) pids)

unfoldable pub fold_reply : ℕ → List ℕ → DiagnosticResponse → Found × Bool → Found × Bool
fold_reply base suffix reply state =
    let start = 1 + length suffix in
    if is_echo base suffix (payload reply)
    then absorbed reply base
        (decode_support_bitmask base (take bitmask_bytes (drop start (payload reply)))) state
    else state

unfoldable pub fold_replies : ℕ → List ℕ → List DiagnosticResponse → Found × Bool → Found × Bool
fold_replies base suffix [] state = state
fold_replies base suffix (reply ∷ replies) state =
    fold_replies base suffix replies (fold_reply base suffix reply state)

module _ {S : Type 0} (hooks : Backend S) (mode : ℕ) (suffix : List ℕ) (timeout : Option ℕ) where
  unfoldable pub walk : List ℕ → Found → Interface S → Result DiagnosticError Found × Interface S
  walk [] found i = (ok found, i)
  walk (base ∷ bases) found i =
      let (answer, i') = positive_responses hooks mode (base ∷ suffix) timeout false i in
      elim answer [
        | err e ↦ (err e, i')
        | ok replies ↦ elim replies [
          | [] ↦ (ok found, i')
          | reply ∷ others ↦
              let (found', continues) = fold_replies base suffix (reply ∷ others) (found, false) in
              elim continues [ true ↦ walk bases found' i' | false ↦ (ok found', i') ]
        ]
      ]

  -- The mapping of the `SupportedPids` that the call returns.
  unfoldable pub discover_supported_pids :
      ℕ → Interface S → Result DiagnosticError Found × Interface S
  discover_supported_pids max_blocks i = walk (take max_blocks support_pids) [] i

-- Whether the mapping has the PID among those of the controller.
unfoldable pub supports : Found → ℕ → ℕ → Bool
supports [] ecu pid = false
supports ((e, pids) ∷ found) ecu pid =
    if e == ecu then contains pid pids else supports found ecu pid
