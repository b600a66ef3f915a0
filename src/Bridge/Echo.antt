-- ===== src/Bridge/Echo.antt =====
-- The echo of a frame that was injected.
use canopen_studio.Prelude.{
  ℕ, ◌+◌, ◌-◌, ◌≤◌, ◌≡◌, refl, ap, ◌∙◌, Bool, true, false, ◌&&◌, Bool-cases, inl, inr, some, List,
  [], ◌∷◌, arith, leb, ltb, if◌then◌else◌, All,
}
use canopen_studio.Prelude.Dict.{find, put, erase, find-put, find-erase, same_refl}
use canopen_studio.Bridge.{
  Bridge, Message, Received, nothing, failed, received, Signature, signature, signature_eq,
  signature_same, Pending, drop_expired, within, consume_echo, remember, forward, inject_message,
  inject_turn, inject_received,
}
use canopen_studio.Bridge.Trace.{Event, started, stopped, captured, turned, happen, run}

-- An entry that is not older than the window outlives the clearing.
drop_expired-find :
    (window now t : ℕ) (s : Signature) (pending : Pending)
    → find s pending ≡ some t
    → now - t ≤ window
    → find s (drop_expired window now pending) ≡ some t
unfolding find drop_expired
drop_expired-find window now t s [] h k = h
drop_expired-find window now t s ((r, u) ∷ pending) h k = elim (Bool-cases (signature_eq r s)) [
  | inl e ↦
      let same : some u ≡ some t = rw e at h in
      let fresh : ltb window (now - u) ≡ false = ground (arith, same, k) in rw (fresh, e) same
  | inr e ↦
      let rest = drop_expired-find window now t s pending (rw e at h) k in
      elim (Bool-cases (ltb window (now - u))) [
        | inl old ↦ rw old rest
        | inr new ↦ rw (new, e) rest
      ]
]

-- Another frame's echo is looked for.
consume_echo-other :
    (window now t : ℕ) (s r : Signature) (pending : Pending)
    → find s pending ≡ some t
    → signature_eq r s ≡ false
    → now - t ≤ window
    → find s (consume_echo window now r pending).1 ≡ some t
unfolding consume_echo
consume_echo-other window now t s r pending h other k =
    let kept : find s (erase r pending) ≡ some t = find-erase s r pending ∙ rw other h in
    elim (Bool-cases (within window now (find r pending))) [
      | inl e ↦ rw e kept
      | inr e ↦ rw e (drop_expired-find window now t s (erase r pending) kept k)
    ]

-- A frame is awaited: the bridge runs, and an echo of it has been pending since some time.
abbrev pub Awaits : Signature → ℕ → Bridge → Type 0
Awaits s t b = (b.running ≡ true) × (find s b.pending_injected ≡ some t)

-- An event of another frame, within the window.
abbrev pub Other : Signature → ℕ → Event → Type 0
Other s latest (captured msg sent now later) =
    (signature_eq (signature msg) s ≡ false) × (now ≤ latest)
Other s latest (turned nothing sent now later) = Unit
Other s latest (turned failed sent now later) = Unit
Other s latest (turned (received msg) sent now later) = signature_eq (signature msg) s ≡ false
Other s latest started = ⊥
Other s latest stopped = ⊥

forward-pending :
    (msg : Message) (sent : Bool) (now later : ℕ) (b : Bridge)
    → ((forward msg sent now later b).0.running ≡ b.running)
      × ((forward msg sent now later b).0.echo_window ≡ b.echo_window)
      × ((forward msg sent now later b).0.pending_injected ≡ (
          if b.running
          then (consume_echo b.echo_window now (signature msg) b.pending_injected).1
          else b.pending_injected))
unfolding forward
forward-pending msg sent now later b = (ground arith, ground arith, ground arith)

-- The bridge keeps its window and awaits the frame still.
abbrev pub Goes : Signature → ℕ → Bridge → Bridge → Type 0
Goes s t b after = Awaits s t after × (after.echo_window ≡ b.echo_window)

forward-Awaits :
    (msg : Message) (sent : Bool) (now later t : ℕ) (s : Signature) (b : Bridge)
    → Awaits s t b
    → signature_eq (signature msg) s ≡ false
    → now ≤ t + b.echo_window
    → Goes s t b (forward msg sent now later b).0
forward-Awaits msg sent now later t s b (r, h) other k =
    let (same, window, pending) = forward-pending msg sent now later b in
    let left =
      consume_echo-other b.echo_window now t s (signature msg) b.pending_injected h other
        (omega (arith, k)) in
    ((same ∙ r, ap (find s) pending ∙ (rw r left)), window)

find-either :
    (echo : Bool) (t : ℕ) (s : Signature) (p q : Pending)
    → find s p ≡ some t
    → find s q ≡ some t
    → find s (if echo then p else q) ≡ some t
find-either true t s p q x y = x
find-either false t s p q x y = y

inject_message-pending :
    (msg : Message) (sent : Bool) (now later : ℕ) (b : Bridge)
    → ((inject_message msg sent now later b).0.running ≡ b.running)
      × ((inject_message msg sent now later b).0.echo_window ≡ b.echo_window)
      × ((inject_message msg sent now later b).0.pending_injected ≡ (
          if (consume_echo b.echo_window now (signature msg) b.pending_forwarded).0
          then b.pending_injected
          else remember (signature msg) later b.pending_injected))
unfolding inject_message
inject_message-pending msg sent now later b = (ground arith, ground arith, ground arith)

inject_message-Awaits :
    (msg : Message) (sent : Bool) (now later t : ℕ) (s : Signature) (b : Bridge)
    → Awaits s t b
    → signature_eq (signature msg) s ≡ false
    → Goes s t b (inject_message msg sent now later b).0
unfolding remember
inject_message-Awaits msg sent now later t s b (r, h) other =
    let (same, window, pending) = inject_message-pending msg sent now later b in
    let kept : find s (put (signature msg) later b.pending_injected) ≡ some t =
      find-put s (signature msg) later b.pending_injected ∙ rw other h in
    (
      (
        same ∙ r,
        ap (find s) pending
            ∙ find-either (consume_echo b.echo_window now (signature msg) b.pending_forwarded).0 t s
                b.pending_injected _ h kept,
      ),
      window,
    )

inject_received-Awaits :
    (r : Received) (sent : Bool) (now later t : ℕ) (s : Signature) (b : Bridge)
    → Awaits s t b
    → Other s (t + b.echo_window) (turned r sent now later)
    → Goes s t b (inject_received r sent now later b).0
inject_received-Awaits nothing sent now later t s b a o = (a, refl)
inject_received-Awaits failed sent now later t s b (x, y) o = ((x, y), refl)
inject_received-Awaits (received msg) sent now later t s b a o =
    inject_message-Awaits msg sent now later t s b a o

inject_turn-Awaits :
    (r : Received) (sent : Bool) (now later t : ℕ) (s : Signature) (b : Bridge)
    → Awaits s t b
    → Other s (t + b.echo_window) (turned r sent now later)
    → Goes s t b (inject_turn r sent now later b).0
unfolding inject_turn
inject_turn-Awaits r sent now later t s b a o = elim (Bool-cases (b.reading && b.running)) [
  | inl e ↦ rw (e, inject_turn) (inject_received-Awaits r sent now later t s b a o)
  | inr e ↦ rw (e, inject_turn) (a, refl)
]

happen-Awaits :
    (e : Event) (t : ℕ) (s : Signature) (b : Bridge)
    → Awaits s t b
    → Other s (t + b.echo_window) e
    → Goes s t b (happen e b).0
unfolding happen
happen-Awaits started t s b a o = absurd o
happen-Awaits stopped t s b a o = absurd o
happen-Awaits (captured msg sent now later) t s b a (other, k) =
    forward-Awaits msg sent now later t s b a other k
happen-Awaits (turned r sent now later) t s b a o = inject_turn-Awaits r sent now later t s b a o

run-Awaits :
    (events : List Event) (t : ℕ) (s : Signature) (b : Bridge)
    → Awaits s t b
    → All (Other s (t + b.echo_window)) events
    → Goes s t b (run events b).0
unfolding run
run-Awaits [] t s b a o = (a, refl)
run-Awaits (e ∷ events) t s b a (p, o) =
    let (a1, w) = happen-Awaits e t s b a p in
    let (a2, w2) = run-Awaits events t s (happen e b).0 a1 (rw w o) in (a2, w2 ∙ w)

forward-echo :
    (msg : Message) (sent : Bool) (now later t : ℕ) (b : Bridge)
    → Awaits (signature msg) t b
    → now ≤ t + b.echo_window
    → (forward msg sent now later b).1 ≡ []
unfolding forward consume_echo
forward-echo msg sent now later t b (r, h) k =
    let young : leb (now - t) b.echo_window ≡ true = ground (arith, k) in
    rw (r, h, young, forward) refl

-- The bus echoes a frame that was injected: as long as it does so within the window, the echo is not
-- sent to the network again, whatever other frames were captured and injected in between, and whether
-- or not the buses took them.
pub echo_suppressed :
    (msg : Message) (sent : Bool) (now t : ℕ) (b : Bridge) (events : List Event) (sent' : Bool)
    (now' later' : ℕ)
    → b.running ≡ true
    → (consume_echo b.echo_window now (signature msg) b.pending_forwarded).0 ≡ false
    → All (Other (signature msg) (t + b.echo_window)) events
    → now' ≤ t + b.echo_window
    → (forward msg sent' now' later' (run events (inject_message msg sent now t b).0).0).1 ≡ []
unfolding remember
echo_suppressed msg sent now t b events sent' now' later' r fresh o k =
    let (same, window, pending) = inject_message-pending msg sent now t b in
    let b1 = (inject_message msg sent now t b).0 in
    let here : signature_eq (signature msg) (signature msg) ≡ true = same_refl (signature msg) in
    let held : find (signature msg) b1.pending_injected ≡ some t =
      ap (find (signature msg)) pending
      ∙ (rw fresh (find-put (signature msg) (signature msg) t b.pending_injected ∙ rw here refl)) in
    let (a, w) = run-Awaits events t (signature msg) b1 (same ∙ r, held) (rw window o) in
    forward-echo msg sent' now' later' t (run events b1).0 a (rw (w, window) k)
