-- ===== src/Client/Origins.antt =====
-- What the readings of a PID come from.
use canopen_studio.Prelude.{
  ℕ, ◌≡◌, refl, sym, ap, ap₂, ◌∙◌, none, some, Option-cases, inl, inr, Option, List, [], ◌∷◌, map,
  arith, ◌==◌, if◌then◌else◌, Result, ok, err, ok_injective, bind_inv,
}
use canopen_studio.Diagnostic.{DiagnosticResponse}
use canopen_studio.Formula.Evaluate.{Arithmetic}
use canopen_studio.Pids.{Definition, Value, PidError, pid_error, formula_raised}
use canopen_studio.Pids.Decode.{decode}
use canopen_studio.Client.{payload_after_echo}
use canopen_studio.Client.Reading.{Reading, reading_of, decode_reply, read_replies, plain}

-- What stands in a reply behind the byte of its service and the PID; `none` where another PID, or
-- none, stands there.
abbrev pub behind : ℕ → List ℕ → Option (List ℕ)
behind pid [] = none
behind pid (mode ∷ []) = none
behind pid (mode ∷ echoed ∷ bytes) = if echoed == pid then some bytes else none

payload_after_echo-behind :
    (source : ℕ) (bytes : List ℕ) (pid : ℕ)
    → payload_after_echo (record { source = source; bytes = bytes }) pid none ≡ behind pid bytes
unfolding payload_after_echo
payload_after_echo-behind source [] pid = refl
payload_after_echo-behind source (mode ∷ []) pid = refl
payload_after_echo-behind source (mode ∷ echoed ∷ bytes) pid = ground arith

-- The replies that echo a PID: who sent them, and what stands behind the echo.
unfoldable pub echoes : ℕ → List DiagnosticResponse → List (ℕ × List ℕ)
echoes pid [] = []
echoes pid (reply ∷ replies) = elim (behind pid reply.bytes) [
  | none ↦ echoes pid replies
  | some bytes ↦ (reply.source, bytes) ∷ echoes pid replies
]

abbrev pub origin : {V : Type 0} → Reading V → ℕ × List ℕ
origin r = (r.source, r.raw_bytes)

module _ {V : Type 0} (ops : Arithmetic V) where
  reading_of-origin :
      (d fallback : Definition V) (source : ℕ) (bytes : List ℕ) (r : Result PidError (Value V))
      (reading : Reading V)
      → reading_of d fallback source bytes r ≡ ok reading
      → origin reading ≡ (source, bytes)
  reading_of-origin d fallback source bytes (ok v) reading h =
      ap origin (sym (ok_injective _ reading h))
  reading_of-origin d fallback source bytes (err pid_error) reading h =
      ap origin (sym (ok_injective _ reading h))
  reading_of-origin d fallback source bytes (err (formula_raised e)) reading h = ground (arith, h)

  -- Where the call returns readings, so that no error escapes from a formula, there is one for each
  -- reply that has the PID behind its service, in order, with its sender and the bytes that follow,
  -- whether or not they could be decoded, and there is none for any other reply.
  pub read_replies-echoes :
      (d : Definition V) (pid : ℕ) (replies : List DiagnosticResponse) (readings : List (Reading V))
      → read_replies ops d pid replies ≡ ok readings
      → map origin readings ≡ echoes pid replies
  unfolding read_replies decode_reply echoes
  read_replies-echoes d pid [] readings h = ap (map origin) (sym (ok_injective [] readings h))
  read_replies-echoes d pid (reply ∷ replies) readings h =
      elim (Option-cases (payload_after_echo reply pid none)) [
        | inl e ↦
            let none_behind = sym (payload_after_echo-behind reply.source reply.bytes pid) ∙ e in
            rw (none_behind, echoes)
              (read_replies-echoes d pid replies readings (rw (e, read_replies) at h))
        | inr (bytes, e) ↦
            let k = rw (e, read_replies) at h in
            let (reading, e1, h1) =
              bind_inv (decode_reply ops d (plain d.mode d.pid d.name) reply.source bytes) _ _ k in
            let (rest, e2, h2) = bind_inv (read_replies ops d pid replies) _ _ h1 in
            let first =
              reading_of-origin d (plain d.mode d.pid d.name) reply.source bytes
                (decode ops d bytes) reading e1 in
            let stands_behind = sym (payload_after_echo-behind reply.source reply.bytes pid) ∙ e in
            rw (stands_behind, echoes)
              (ap (map origin) (sym (ok_injective _ readings h2))
                ∙ ap₂ (λ a b. a ∷ b) first (read_replies-echoes d pid replies rest e2))
      ]
