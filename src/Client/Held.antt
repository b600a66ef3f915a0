-- ===== src/Client/Held.antt =====
-- The freeze frames that a session returns.
use canopen_studio.Prelude.{
  ℕ, Option, ◌+◌, ◌*◌, ◌≤◌, ◌≡◌, refl, sym, ap, ◌∙◌, false, not, ◌++◌, ◌||◌, Bool-cases,
  Option-cases, inl, inr, some, List, [], ◌∷◌, arith, leb, ◌==◌, length, All, Result, ok, err,
  ok_injective, bind_inv,
}
use canopen_studio.Prelude.Dict.{find, put, nat_same, nat_eq_iff}
use canopen_studio.Prelude.Sort.{sort, by_key, Ascending, sort-Ascending, sort-All}
use canopen_studio.Diagnostic.{Backend, DiagnosticResponse}
use canopen_studio.Dtc.{decode_dtc}
use canopen_studio.Client.Answers.{Answered, Answers}
use canopen_studio.Formula.Evaluate.{Arithmetic}
use canopen_studio.Pids.{Definition, Value, PidError, pid_error, formula_raised}
use canopen_studio.Pids.Decode.{decode}
use canopen_studio.Prelude.Int.{ℤ, pos}
use canopen_studio.Client.{mode_current_data, payload_after_echo, pid_freeze_dtc}
use canopen_studio.Client.Reading.{Reading, reading_of, decode_reply, plain}
use canopen_studio.Client.Frames.{
  FreezeFrame, Frames, hold_frame, hold_frames, add_value, add_values, in_order, frame_values,
  trigger_word, code_or_none,
}

-- A decoded reply keeps its sender, its bytes and the name of the definition.
reading_of_inv :
    {V : Type 0} (d : Definition V) (mode pid : ℤ) (source : ℕ) (bytes : List ℕ)
    (r : Result PidError (Value V)) (reading : Reading V)
    → reading_of d (plain mode pid d.name) source bytes r ≡ ok reading
    → (reading.source ≡ source) × (reading.raw_bytes ≡ bytes) × (reading.definition.name ≡ d.name)
reading_of_inv d mode pid source bytes (ok v) reading k =
    let e = sym (ok_injective _ reading k) in
    (ap (λ r. r.source) e, ap (λ r. r.raw_bytes) e, ap (λ r. r.definition.name) e)
reading_of_inv d mode pid source bytes (err pid_error) reading k =
    let e = sym (ok_injective _ reading k) in
    (ap (λ r. r.source) e, ap (λ r. r.raw_bytes) e, ap (λ r. r.definition.name) e)
reading_of_inv d mode pid source bytes (err (formula_raised x)) reading k = ground (arith, k)

decode_reply_inv :
    {V : Type 0} (ops : Arithmetic V) (d : Definition V) (mode pid : ℤ) (source : ℕ)
    (bytes : List ℕ) (reading : Reading V)
    → decode_reply ops d (plain mode pid d.name) source bytes ≡ ok reading
    → (reading.source ≡ source) × (reading.raw_bytes ≡ bytes) × (reading.definition.name ≡ d.name)
unfolding decode_reply
decode_reply_inv ops d mode pid source bytes reading h =
    reading_of_inv d mode pid source bytes (decode ops d bytes) reading h

All-concat {ℓ} :
    {A : Type 0} (P : A → Type ℓ) (l : List A) (a : A) → All P l → P a → All P (l ++ (a ∷ []))
All-concat P [] a h p = (p, tt)
All-concat P (x ∷ l) a (q, h) p = (q, All-concat P l a h p)

module _ {S : Type 0} (hooks : Backend S) (frame : ℕ) where
  -- The code of a frame is the one that its controller answered with, and is no code where the word
  -- stands for none.
  abbrev pub Triggered : ℕ → Option (List ℕ) → Type 0
  Triggered source dtc =
      (high low : ℕ) × (rest : List ℕ) × Answered hooks frame source 0x02 (high ∷ low ∷ rest)
      × (dtc ≡ code_or_none (decode_dtc (high * 256 + low)))

  triggered :
      (source : ℕ) (bytes : List ℕ)
      → (not (leb 2 (length bytes)) || trigger_word bytes == 0) ≡ false
      → Answered hooks frame source 0x02 bytes
      → Triggered source (code_or_none (decode_dtc (trigger_word bytes)))
  triggered source [] h answered = ground (arith, h)
  triggered source (high ∷ []) h answered = ground (arith, h)
  triggered source (high ∷ low ∷ rest) h answered = (high, low, rest, answered, refl)

module _ {V S : Type 0} (hooks : Backend S) (names : ℕ → List ℕ) (frame : ℕ) where
  -- A reading is what the controller answered for some PID of the frame, under the name of that PID.
  abbrev pub ReadFrom : ℕ → Reading V → Type 0
  ReadFrom source r =
      (pid : ℕ) × (r.source ≡ source)
      × Answered hooks frame source pid r.raw_bytes
      × (r.definition.name ≡ names pid)

  abbrev pub Genuine : FreezeFrame V → Type 0
  Genuine f =
      (f.frame ≡ frame) × Triggered hooks frame f.source f.dtc × All (ReadFrom f.source) f.values

  -- An entry is filed under its controller, and says what that controller answered.
  abbrev pub Held : ℕ × FreezeFrame V → Type 0
  Held (ecu, f) = (f.source ≡ ecu) × Genuine f

  put-Held :
      (ecu : ℕ) (f : FreezeFrame V) (frames : Frames V)
      → Held (ecu, f)
      → All Held frames
      → All Held (put ecu f frames)
  unfolding put
  put-Held ecu f [] p h = (p, tt)
  put-Held ecu f ((e, g) ∷ frames) p (q, h) = elim (Bool-cases (e == ecu)) [
    | inl t ↦ let same : ecu ≡ e = sym ((nat_eq_iff e ecu).0 t) in rw t ((p.0 ∙ same, p.1), h)
    | inr t ↦ rw t (q, put-Held ecu f frames p h)
  ]

  find-Held :
      (ecu : ℕ) (f : FreezeFrame V) (frames : Frames V)
      → find ecu frames ≡ some f
      → All Held frames
      → Held (ecu, f)
  unfolding find
  find-Held ecu f [] e h = ground (arith, e)
  find-Held ecu f ((j, g) ∷ frames) e (q, h) = elim (Bool-cases (j == ecu)) [
    | inl t ↦
        let k : some g ≡ some f = rw t at e in
        let same : g ≡ f = ground (arith, k) in rw (sym same) (q.0 ∙ (nat_eq_iff j ecu).0 t, q.1)
    | inr t ↦ find-Held ecu f frames (rw t at e) h
  ]

  hold_frame-Held :
      (reply : DiagnosticResponse) (frames : Frames V)
      → Answers hooks frame pid_freeze_dtc reply
      → All Held frames
      → All Held (hold_frame frame reply frames)
  unfolding hold_frame
  hold_frame-Held reply frames answers h =
      elim (Option-cases (payload_after_echo reply pid_freeze_dtc (some frame))) [
        | inl e ↦ rw (e, hold_frame) h
        | inr (bytes, e) ↦
            elim (Bool-cases (not (leb 2 (length bytes)) || trigger_word bytes == 0)) [
              | inl t ↦ rw (e, t, hold_frame) h
              | inr t ↦
                  rw (e, t, hold_frame)
                    (put-Held reply.source _ frames
                      (
                        refl,
                        (refl, triggered hooks frame reply.source bytes t (answers bytes e), tt),
                      )
                      h)
            ]
      ]

  pub hold_frames-Held :
      (replies : List DiagnosticResponse) (frames : Frames V)
      → All (Answers hooks frame pid_freeze_dtc) replies
      → All Held frames
      → All Held (hold_frames frame replies frames)
  unfolding hold_frames
  hold_frames-Held [] frames answers h = h
  hold_frames-Held (reply ∷ replies) frames (p, answers) h =
      hold_frames-Held replies (hold_frame frame reply frames) answers
        (hold_frame-Held reply frames p h)

  module _ (ops : Arithmetic V) (d : Definition V) (pid : ℕ) (named : d.name ≡ names pid) where
    -- A reading that a frame is given is the answer of its controller.
    Held-add :
        (reply : DiagnosticResponse) (bytes : List ℕ) (held : FreezeFrame V) (reading : Reading V)
        → Answered hooks frame reply.source pid bytes
        → decode_reply ops d (plain (pos mode_current_data) (pos pid) d.name) reply.source bytes
          ≡ ok reading
        → Held (reply.source, held)
        → Held (reply.source, record held { values = held.values ++ (reading ∷ []) })
    Held-add reply bytes held reading answered e (same, (of_frame, trigger, all)) =
        let (source, raw, name) =
          decode_reply_inv ops d (pos mode_current_data) (pos pid) reply.source bytes reading e in
        (
          same,
          (
            of_frame,
            trigger,
            All-concat (ReadFrom held.source) held.values reading all
                (pid, source ∙ sym same, rw (same, raw) answered, name ∙ named),
          ),
        )

    add_value-Held :
        (reply : DiagnosticResponse) (frames after : Frames V)
        → Answers hooks frame pid reply
        → add_value ops d pid frame reply frames ≡ ok after
        → All Held frames
        → All Held after
    unfolding add_value
    add_value-Held reply frames after answers k h = elim (Option-cases (find reply.source frames)) [
      | inl e ↦
          let s : ok frames ≡ ok after = rw (e, add_value) at k in
          rw (sym (ok_injective frames after s)) h
      | inr (held, e) ↦ elim (Option-cases (payload_after_echo reply pid (some frame))) [
        | inl p ↦
            let s : ok frames ≡ ok after = rw (e, p, add_value) at k in
            rw (sym (ok_injective frames after s)) h
        | inr (bytes, p) ↦
            let s = rw (e, p, add_value) at k in
            let (reading, e1, h1) =
              bind_inv
                (decode_reply ops d (plain (pos mode_current_data) (pos pid) d.name) reply.source
                  bytes)
                _ _ s in
            rw (sym (ok_injective _ after h1)) (
              put-Held reply.source _ frames
                (Held-add reply bytes held reading (answers bytes p) e1
                  (find-Held reply.source held frames e h))
                h)
      ]
    ]

    pub add_values-Held :
        (replies : List DiagnosticResponse) (frames after : Frames V)
        → All (Answers hooks frame pid) replies
        → add_values ops d pid frame replies frames ≡ ok after
        → All Held frames
        → All Held after
    unfolding add_values
    add_values-Held [] frames after answers k h = rw (sym (ok_injective frames after k)) h
    add_values-Held (reply ∷ replies) frames after (p, answers) k h =
        let (next, e, k1) = bind_inv (add_value ops d pid frame reply frames) _ _ k in
        add_values-Held replies next after answers k1 (add_value-Held reply frames next p e h)

  frame_values-All : (frames : Frames V) → All Held frames → All Genuine (frame_values frames)
  frame_values-All [] h = tt
  frame_values-All ((ecu, f) ∷ frames) (p, h) = (p.1, frame_values-All frames h)

  frame_values-least :
      (n : ℕ) (frames : Frames V)
      → All Held frames
      → All (λ entry. n ≤ entry.0) frames
      → All (λ f. n ≤ f.source) (frame_values frames)
  frame_values-least n [] h k = tt
  frame_values-least n ((ecu, f) ∷ frames) (p, h) (q, k) =
      (omega (arith, p.0, q), frame_values-least n frames h k)

  frame_values-Ascending :
      (frames : Frames V)
      → All Held frames
      → Ascending (λ entry. entry.0) frames
      → Ascending (λ f. f.source) (frame_values frames)
  frame_values-Ascending [] h k = tt
  frame_values-Ascending ((ecu, f) ∷ frames) (p, h) (q, k) =
      (rw p.0 (frame_values-least ecu frames h q), frame_values-Ascending frames h k)

  abbrev pub InOrder : List (FreezeFrame V) → Type 0
  InOrder fs = Ascending (λ f. f.source) fs × All Genuine fs

  pub in_order-InOrder : (frames : Frames V) → All Held frames → InOrder (in_order frames)
  unfolding in_order
  in_order-InOrder frames h =
      let kept = sort-All (λ entry. entry.0) Held frames h in
      (
        frame_values-Ascending (sort (by_key (λ entry. entry.0)) frames) kept
            (sort-Ascending (λ entry. entry.0) frames),
        frame_values-All (sort (by_key (λ entry. entry.0)) frames) kept,
      )
