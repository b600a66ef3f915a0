-- ===== src/Native/Deadline.antt =====
-- The collecting loop ends, also for a controller that asks for more time again and again.
use canopen_studio.Prelude.{
  ℕ, suc, ◌+◌, ◌*◌, ◌-◌, ◌≤◌, ◌<◌, ◌≡◌, ◌⊎◌, inl, inr, refl, Bool, true, false, Option, none, some,
  List, [], ◌∷◌, arith, Result, ok, err, All, Bool-cases,
}
use canopen_studio.Canopen.{CanMessage}
use canopen_studio.Diagnostic.{DiagnosticResponse}
use canopen_studio.Native.{
  Settings, NativeState, Poll, Wait, Raised, Collected, expired, heard, turn, collect, resume,
  cons_reply, completed_to, feed_message, max_response_pending,
}

abbrev pub is_done : Collected → Bool
is_done none = false
is_done (some r) = true

-- The latest deadline that the loop may still come to.
abbrev pub latest : ℕ → Wait → ℕ
latest grant wait = wait.deadline + (max_response_pending - wait.pending_seen) * grant

-- Some turn begins at the time or after it.
abbrev pub Reaches : ℕ → List Poll → Type 0
Reaches time [] = ⊥
Reaches time (poll ∷ polls) = (time ≤ poll.now) ⊎ Reaches time polls

Reaches-mono :
    (early time : ℕ) (polls : List Poll) → early ≤ time → Reaches time polls → Reaches early polls
Reaches-mono early time [] h r = r
Reaches-mono early time (poll ∷ polls) h (inl now) = inl (omega (arith, now, h))
Reaches-mono early time (poll ∷ polls) h (inr r) = inr (Reaches-mono early time polls h r)

later_turn :
    (time : ℕ) (poll : Poll) (polls : List Poll)
    → Reaches time (poll ∷ polls)
    → poll.now < time
    → Reaches time polls
later_turn time poll polls (inl now) h = absurd (omega (arith, now, h))
later_turn time poll polls (inr r) h = r

one_less : (p grant : ℕ) → p < 10 → (10 - p) * grant ≡ (10 - suc p) * grant + grant
one_less p grant h = let e : 10 - p ≡ suc (10 - suc p) = omega arith in rw e (omega arith)

none_less : (p grant : ℕ) → 10 ≤ p → (10 - suc p) * grant ≡ (10 - p) * grant
none_less p grant h = let e : 10 - suc p ≡ 10 - p = omega arith in rw e refl

cons_reply-done :
    (reply : DiagnosticResponse) (c : Collected)
    → is_done c ≡ true
    → is_done (cons_reply reply c) ≡ true
cons_reply-done reply none h = h
cons_reply-done reply (some (ok replies)) h = refl
cons_reply-done reply (some (err e)) h = refl

module _ (settings : Settings) where
  resume-done :
      (result : Result Raised (Option DiagnosticResponse × Wait)) (s : NativeState)
      (more : Wait → Collected × NativeState)
      → ((wait : Wait) (o : Option DiagnosticResponse)
          → result ≡ ok (o, wait)
          → is_done (more wait).0 ≡ true)
      → is_done (resume settings result s more).0 ≡ true
  resume-done (err e) s more rest = refl
  resume-done (ok (none, wait)) s more rest = rest wait none refl
  resume-done (ok (some reply, wait)) s more rest =
      cons_reply-done reply (more wait).0 (rest wait (some reply) refl)

  heard-latest :
      (timeout later slack : ℕ) (r : DiagnosticResponse) (wait : Wait)
      → later ≤ wait.deadline + slack
      → latest (timeout + slack) (heard settings timeout later r wait).1
        ≤ latest (timeout + slack) wait
  unfolding heard
  heard-latest timeout later slack r wait h = ground (
    arith,
    one_less wait.pending_seen (timeout + slack),
    none_less wait.pending_seen (timeout + slack),
  )

  completed-latest :
      (timeout later slack source : ℕ) (wait wait' : Wait) (c : Result Raised (Option (List ℕ)))
      (o : Option DiagnosticResponse)
      → later ≤ wait.deadline + slack
      → completed_to settings timeout later source wait c ≡ ok (o, wait')
      → latest (timeout + slack) wait' ≤ latest (timeout + slack) wait
  completed-latest timeout later slack source wait wait' (err e) o h e' = ground (arith, e')
  completed-latest timeout later slack source wait wait' (ok none) o h e' = ground (arith, e')
  completed-latest timeout later slack source wait wait' (ok (some [])) o h e' = ground (arith, e')
  completed-latest timeout later slack source wait wait' (ok (some (b ∷ bs))) o h e' =
      let r : DiagnosticResponse = record { source = source; bytes = b ∷ bs } in
      let inner : heard settings timeout later r wait ≡ (o, wait') = ground (arith, e') in
      rw inner at (heard-latest timeout later slack r wait h)

  turn-latest :
      (timeout later slack : ℕ) (message : Option CanMessage) (wait wait' : Wait) (s : NativeState)
      (o : Option DiagnosticResponse)
      → later ≤ wait.deadline + slack
      → (turn settings timeout message later wait s).0 ≡ ok (o, wait')
      → latest (timeout + slack) wait' ≤ latest (timeout + slack) wait
  unfolding turn
  turn-latest timeout later slack none wait wait' s o h e = ground (arith, e)
  turn-latest timeout later slack (some msg) wait wait' s o h e = ground (
    arith,
    e,
    completed-latest timeout later slack msg.arbitration_id wait wait'
        (feed_message settings msg s).0 o,
  )

  -- If every turn takes at most `slack`, and some turn begins when the deadline has passed by what
  -- the ten grants of a full timeout can add to it, then the loop has returned or raised.
  pub collect-done :
      (timeout slack : ℕ) (polls : List Poll) (wait : Wait) (s : NativeState)
      → All (λ poll. poll.later ≤ poll.now + slack) polls
      → Reaches (latest (timeout + slack) wait) polls
      → is_done (collect settings timeout polls wait s).0 ≡ true
  unfolding collect
  collect-done timeout slack [] wait s quick reaches = absurd reaches
  collect-done timeout slack (poll ∷ polls) wait s (quick, later) reaches =
      elim (Bool-cases (expired wait poll.now)) [
        | inl e ↦ rw e refl
        | inr e ↦
            let (result, s') = turn settings timeout poll.message poll.later wait s in
            let early : poll.now < wait.deadline = unfold expired in ground (arith, e) in
            let more : Reaches (latest (timeout + slack) wait) polls =
              later_turn _ poll polls reaches (omega (arith, early)) in
            rw e (
              resume-done result s' (λ wait'. collect settings timeout polls wait' s')
                (λ wait' o turned. collect-done timeout slack polls wait' s' later (
                  Reaches-mono _ _ polls
                    (turn-latest timeout poll.later slack poll.message wait wait' s o
                      (omega (arith, quick, early)) turned)
                    more)))
      ]
