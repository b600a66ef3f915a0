-- ===== src/Bridge/Trace.antt =====
-- Sequences of what happens to a bridge, in any order.
use canopen_studio.Prelude.{ℕ, Bool, List, [], ◌∷◌, ◌++◌}
use canopen_studio.Bridge.{Bridge, Message, Received, start, stop, forward, inject_turn}

pub data Event : Type 0 where
  started stopped : Event
  captured : Message → (sent : Bool) (now later : ℕ) → Event
  turned : Received → (sent : Bool) (now later : ℕ) → Event

-- The bridge after an event, and what the real bus was sent.
unfoldable pub happen : Event → Bridge → Bridge × List Message
unfolding start stop forward inject_turn
happen started b = (start b, [])
happen stopped b = (stop b, [])
happen (captured msg sent now later) b = ((forward msg sent now later b).0, [])
happen (turned r sent now later) b = inject_turn r sent now later b

unfoldable pub run : List Event → Bridge → Bridge × List Message
unfolding happen
run [] b = (b, [])
run (e ∷ events) b =
    let (b1, out) = happen e b in let (b2, more) = run events b1 in (b2, out ++ more)
