-- ===== src/Native/Replies.antt =====
-- What the replies that a request collects are.
use canopen_studio.Prelude.{
  ℕ, ◌≡◌, refl, Bool, true, false, Option, none, some, List, [], ◌∷◌, arith, Bool-cases, inl, inr,
  ap, Result, ok, err, All, length, ◌<◌,
}
use canopen_studio.Canopen.{CanMessage}
use canopen_studio.Diagnostic.{DiagnosticResponse}
use canopen_studio.IsoTp.{is_response_id}
use canopen_studio.Native.{
  Settings, NativeState, Poll, Wait, Raised, Collected, is_response_pending, expired, heard, turn,
  collect, resume, cons_reply, completed_to, feed_message,
}

-- A reply that is final, carries a byte, and comes from an identifier that controllers answer on.
abbrev pub IsFinal : Bool → DiagnosticResponse → Type 0
IsFinal extended reply =
    (is_response_pending reply ≡ false)
    × (0 < length reply.bytes)
    × (is_response_id reply.source extended ≡ true)

module _ (settings : Settings) where
  heard-IsFinal :
      (timeout later : ℕ) (r reply : DiagnosticResponse) (wait : Wait)
      → (heard settings timeout later r wait).0 ≡ some reply
      → (is_response_pending reply ≡ false) × (reply ≡ r)
  unfolding heard
  heard-IsFinal timeout later r reply wait h = ground (arith, h)

  completed-IsFinal :
      (timeout later source : ℕ) (wait wait' : Wait) (c : Result Raised (Option (List ℕ)))
      (reply : DiagnosticResponse)
      → completed_to settings timeout later source wait c ≡ ok (some reply, wait')
      → (is_response_pending reply ≡ false) × (0 < length reply.bytes) × (reply.source ≡ source)
  completed-IsFinal timeout later source wait wait' (err e) reply h = ground (arith, h)
  completed-IsFinal timeout later source wait wait' (ok none) reply h = ground (arith, h)
  completed-IsFinal timeout later source wait wait' (ok (some [])) reply h = ground (arith, h)
  completed-IsFinal timeout later source wait wait' (ok (some (b ∷ bs))) reply h =
      let r : DiagnosticResponse = record { source = source; bytes = b ∷ bs } in
      let inner : heard settings timeout later r wait ≡ (some reply, wait') = ground (arith, h) in
      let (final, same) = heard-IsFinal timeout later r reply wait (ap (λ x. x.0) inner) in
      (final, ground (arith, same), ap (λ x. x.source) same)

  turn-IsFinal :
      (timeout : ℕ) (message : Option CanMessage) (later : ℕ) (wait wait' : Wait) (s : NativeState)
      (reply : DiagnosticResponse)
      → (turn settings timeout message later wait s).0 ≡ ok (some reply, wait')
      → IsFinal settings.extended reply
  unfolding turn
  turn-IsFinal timeout none later wait wait' s reply h = ground (arith, h)
  turn-IsFinal timeout (some msg) later wait wait' s reply h = ground (
    arith,
    h,
    completed-IsFinal timeout later msg.arbitration_id wait wait' (feed_message settings msg s).0
        reply,
  )

  cons_reply-ok :
      (reply : DiagnosticResponse) (c : Collected) (replies : List DiagnosticResponse)
      → cons_reply reply c ≡ some (ok replies)
      → (rest : List DiagnosticResponse) × (c ≡ some (ok rest)) × (replies ≡ reply ∷ rest)
  cons_reply-ok reply none replies h = ground (arith, h)
  cons_reply-ok reply (some (err e)) replies h = ground (arith, h)
  cons_reply-ok reply (some (ok rest)) replies h = (rest, refl, ground (arith, h))

  resume-IsFinal :
      (result : Result Raised (Option DiagnosticResponse × Wait)) (s : NativeState)
      (more : Wait → Collected × NativeState) (replies : List DiagnosticResponse)
      → ((wait : Wait) (reply : DiagnosticResponse)
          → result ≡ ok (some reply, wait)
          → IsFinal settings.extended reply)
      → ((wait : Wait) (rest : List DiagnosticResponse)
          → (more wait).0 ≡ some (ok rest)
          → All (IsFinal settings.extended) rest)
      → (resume settings result s more).0 ≡ some (ok replies)
      → All (IsFinal settings.extended) replies
  resume-IsFinal (err e) s more replies one others h = ground (arith, h)
  resume-IsFinal (ok (none, wait)) s more replies one others h = others wait replies h
  resume-IsFinal (ok (some reply, wait)) s more replies one others h =
      let (rest, e, split) = cons_reply-ok reply (more wait).0 replies h in
      rw split (one wait reply refl, others wait rest e)

  -- Every reply that is collected is final, never the word that a controller needs more time, and
  -- comes from an identifier that controllers answer on.
  pub collect-IsFinal :
      (timeout : ℕ) (polls : List Poll) (wait : Wait) (s : NativeState)
      (replies : List DiagnosticResponse)
      → (collect settings timeout polls wait s).0 ≡ some (ok replies)
      → All (IsFinal settings.extended) replies
  unfolding collect
  collect-IsFinal timeout [] wait s replies h = ground (arith, h)
  collect-IsFinal timeout (poll ∷ polls) wait s replies h =
      elim (Bool-cases (expired wait poll.now)) [
        | inl e ↦
            let h' : some (ok []) ≡ some (ok replies) = rw e at h in
            let none_kept : replies ≡ [] = ground (arith, h') in rw none_kept tt
        | inr e ↦
            let (result, s') = turn settings timeout poll.message poll.later wait s in
            resume-IsFinal result s' (λ wait'. collect settings timeout polls wait' s') replies
              (λ wait' reply. turn-IsFinal timeout poll.message poll.later wait wait' s reply)
              (λ wait' rest. collect-IsFinal timeout polls wait' s' rest) (rw e at h)
      ]
