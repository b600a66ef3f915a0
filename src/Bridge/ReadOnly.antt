-- ===== src/Bridge/ReadOnly.antt =====
-- A bridge that may not inject.
use canopen_studio.Prelude.{
  ℕ, ◌≡◌, refl, ap, ◌∙◌, Bool, true, false, ◌&&◌, List, [], ◌∷◌, ◌++◌, arith, if◌then◌else◌,
}
use canopen_studio.Bridge.{
  Bridge, Message, Received, start, stop, forward, inject_turn, inject_received, new_bridge,
}
use canopen_studio.Bridge.Trace.{Event, started, stopped, captured, turned, happen, run}

-- No frame may be injected, and the thread that would do it was not started.
abbrev pub Silent : Bridge → Type 0
Silent b = (b.allow_inject ≡ false) × (b.reading ≡ false)

forward-allow_inject :
    (msg : Message) (sent : Bool) (now later : ℕ) (b : Bridge)
    → ((forward msg sent now later b).0.allow_inject ≡ b.allow_inject)
      × ((forward msg sent now later b).0.reading ≡ b.reading)
unfolding forward
forward-allow_inject msg sent now later b = (ground arith, ground arith)

start-allow_inject : (b : Bridge) → b.allow_inject ≡ false → b.reading ≡ false → Silent (start b)
unfolding start
start-allow_inject b h k = (ground (arith, h), ground (arith, h, k))

stop-allow_inject : (b : Bridge) → b.allow_inject ≡ false → b.reading ≡ false → Silent (stop b)
unfolding stop
stop-allow_inject b h k = (ground (arith, h), ground (arith, h, k))

skipped {ℓ} :
    {A : Type ℓ} (reading running : Bool) (turn skip : A)
    → reading ≡ false
    → (if reading && running then turn else skip) ≡ skip
skipped true running turn skip h = ground (arith, h)
skipped false running turn skip h = refl

inject_turn-unread :
    (r : Received) (sent : Bool) (now later : ℕ) (b : Bridge)
    → b.reading ≡ false
    → inject_turn r sent now later b ≡ (b, [])
unfolding inject_turn
inject_turn-unread r sent now later b k =
    skipped b.reading b.running (inject_received r sent now later b) (b, []) k

happen-Silent : (e : Event) (b : Bridge) → Silent b → Silent (happen e b).0 × ((happen e b).1 ≡ [])
unfolding happen
happen-Silent started b (h, k) = (start-allow_inject b h k, refl)
happen-Silent stopped b (h, k) = (stop-allow_inject b h k, refl)
happen-Silent (captured msg sent now later) b (h, k) =
    let (a, r) = forward-allow_inject msg sent now later b in ((a ∙ h, r ∙ k), refl)
happen-Silent (turned r sent now later) b (h, k) =
    let e = inject_turn-unread r sent now later b k in
    ((ap (λ p. p.0.allow_inject) e ∙ h, ap (λ p. p.0.reading) e ∙ k), ap (λ p. p.1) e)

run-Silent : (events : List Event) (b : Bridge) → Silent b → (run events b).1 ≡ []
unfolding run
run-Silent [] b s = refl
run-Silent (e ∷ events) b s =
    let (s1, out) = happen-Silent e b s in
    ap (λ l. l ++ (run events (happen e b).0).1) out ∙ run-Silent events (happen e b).0 s1

-- A bridge that may not inject never sends the real bus a frame, whatever is captured, whatever the
-- network delivers and however often it is started and stopped.
pub run-read_only :
    (events : List Event) (echo_window : ℕ) → (run events (new_bridge false echo_window)).1 ≡ []
unfolding new_bridge
run-read_only events echo_window = run-Silent events (new_bridge false echo_window) (refl, refl)
