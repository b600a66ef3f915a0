-- ===== src/Client/Reading.antt =====
-- `J1979Client.read_pid`, `read` and `scan`.
use canopen_studio.Prelude.{
  ℕ, ◌%◌, true, false, Option, none, some, List, [], ◌∷◌, ◌++◌, map, ◌==◌, Result, ok, err, ◌>>=◌,
}
use canopen_studio.Prelude.Int.{pos, negsuc, neg_part, ℤ}
use canopen_studio.Prelude.Numerals.{hex_byte}
use canopen_studio.Prelude.Text.{codes, lower}
use canopen_studio.Diagnostic.{Backend, DiagnosticResponse, not_a_byte}
use canopen_studio.Discovery.Views.{all_pids}
use canopen_studio.Formula.Evaluate.{Arithmetic}
use canopen_studio.Pids.{Definition, Value, raw, PidError, pid_error, formula_raised}
use canopen_studio.Pids.Decode.{decode}
use canopen_studio.Pids.Table.{get_definition, by_name}
use canopen_studio.Client.{
  Client, ClientError, diagnostic, formula_escaped, then_do, ask, supported_pids,
  payload_after_echo,
}

pub record Reading (V : Type 0) : Type 0 where
  pub definition : Definition V
  pub raw_bytes : List ℕ
  pub value : Value V
  pub source : ℕ

-- A definition of no shape, which decodes to the bytes.
abbrev pub plain : {V : Type 0} → ℤ → ℤ → List ℕ → Definition V
plain mode pid name = record {
  mode = mode;
  pid = pid;
  name = name;
  formula = none;
  values = none;
  bits = none;
  ascii = false;
}

-- A reply too short for its decoding is kept as bytes; what is no `PidError` is raised.
abbrev pub reading_of :
    {V : Type 0}
    → Definition V
    → Definition V
    → ℕ
    → List ℕ
    → Result PidError (Value V)
    → Result ClientError (Reading V)
reading_of d fallback source bytes (ok v) =
    ok (record { definition = d; raw_bytes = bytes; value = v; source = source })
reading_of d fallback source bytes (err pid_error) =
    ok (record { definition = fallback; raw_bytes = bytes; value = raw bytes; source = source })
reading_of d fallback source bytes (err (formula_raised e)) = err (formula_escaped e)

module _ {V : Type 0} (ops : Arithmetic V) where
  unfoldable pub decode_reply :
      Definition V → Definition V → ℕ → List ℕ → Result ClientError (Reading V)
  unfolding decode
  decode_reply d fallback source bytes = reading_of d fallback source bytes (decode ops d bytes)

  -- The loop of `_read_with` over the replies.
  unfoldable pub read_replies :
      Definition V → ℕ → List DiagnosticResponse → Result ClientError (List (Reading V))
  unfolding decode_reply payload_after_echo
  read_replies d pid [] = ok []
  read_replies d pid (reply ∷ replies) = elim (payload_after_echo reply pid none) [
    | none ↦ read_replies d pid replies
    | some bytes ↦ decode_reply d (plain d.mode d.pid d.name) reply.source bytes >>= λ reading.
        read_replies d pid replies >>= λ readings. ok (reading ∷ readings)
  ]

module _ {V S : Type 0} (hooks : Backend S) (ops : Arithmetic V) where
  unfoldable pub read_with :
      Definition V
      → ℕ
      → ℕ
      → Option ℕ
      → Client V S
      → Result ClientError (List (Reading V)) × Client V S
  unfolding ask read_replies
  read_with d mode pid timeout c =
      then_do (ask hooks mode (pid ∷ []) timeout c)
        (λ replies c'. (read_replies ops d pid replies, c'))

  -- The definition of the table, or one that is named after the PID.
  abbrev pub definition_or : ℕ → ℕ → Option (Definition V) → Definition V
  definition_or mode pid (some d) = d
  definition_or mode pid none =
      plain (pos mode) (pos pid)
        (codes "pid_" ++ (map lower (hex_byte mode) ++ (b'_' ∷ map lower (hex_byte pid))))

  -- A definition is filed under its own key, so that what is asked is what it names.
  unfoldable pub read_pid :
      ℕ → ℕ → Option ℕ → Client V S → Result ClientError (List (Reading V)) × Client V S
  unfolding read_with get_definition lower
  read_pid pid mode timeout c =
      read_with (definition_or mode pid (get_definition (pos mode) (pos pid) c.table)) mode pid
        timeout c

  abbrev pub first_reading : List (Reading V) → Option (Reading V)
  first_reading [] = none
  first_reading (r ∷ rest) = some r

  -- A negative number is refused as no byte is; `not_a_byte` carries its magnitude.
  abbrev pub read_named :
      ℤ → ℤ → Option ℕ → Client V S → Result ClientError (Option (Reading V)) × Client V S
  read_named (pos mode) (pos pid) timeout c =
      then_do (read_pid pid mode timeout c) (λ readings c'. (ok (first_reading readings), c'))
  read_named (pos mode) (negsuc pid) timeout c =
      (err (diagnostic (not_a_byte (neg_part (negsuc pid)))), c)
  read_named (negsuc mode) pid timeout c =
      (err (diagnostic (not_a_byte (neg_part (negsuc mode)))), c)

  unfoldable pub read :
      List ℕ → Option ℕ → Client V S → Result ClientError (Option (Reading V)) × Client V S
  unfolding by_name read_pid
  read name timeout c = elim (by_name name c.table) [
    | none ↦ (ok none, c)
    | some d ↦ read_named d.mode d.pid timeout c
  ]

  -- The bitmask PIDs are passed over.
  unfoldable pub scan_pids :
      List ℕ → ℕ → Option ℕ → Client V S → Result ClientError (List (Reading V)) × Client V S
  unfolding read_pid
  scan_pids [] mode timeout c = (ok [], c)
  scan_pids (pid ∷ pids) mode timeout c = elim (pid % 0x20 == 0) [
    | true ↦ scan_pids pids mode timeout c
    | false ↦ then_do (read_pid pid mode timeout c) (λ readings c'.
        then_do (scan_pids pids mode timeout c') (λ more c''. (ok (readings ++ more), c'')))
  ]

  unfoldable pub scan :
      ℕ → Option ℕ → Client V S → Result ClientError (List (Reading V)) × Client V S
  unfolding supported_pids all_pids scan_pids
  scan mode timeout c =
      then_do (supported_pids hooks mode false c)
        (λ found c'. scan_pids (all_pids found) mode timeout c')
