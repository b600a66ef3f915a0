-- ===== src/WriteGate/Clearing.antt =====
-- Clearing the trouble codes through the gates.
use canopen_studio.Prelude.{
  ℕ, ◌≡◌, ◌⊎◌, refl, Bool, true, false, Option, none, some, [], ◌∷◌, Result, ok, err, arith,
}
use canopen_studio.Diagnostic.{Backend, Interface, request, service, positive_responses, timeout_or}
use canopen_studio.WriteGate.Decision.{check_iff}
use canopen_studio.WriteGate.{
  Environment, WriteGate, Refusal, check, clear_trouble_codes, refused, mode_clear_dtc, enabled,
  agent_enabled,
}

check-refuses :
    (env : Environment) (gate : WriteGate) (service : ℕ) (identifier : Option ℕ) (confirm : Bool)
    → (enabled env gate ≡ false)
      ⊎ ((gate.agent ≡ true) × (agent_enabled env gate ≡ false))
      ⊎ (confirm ≡ false)
    → (e : Refusal) × (check env gate service identifier confirm ≡ err e)
check-refuses env gate service identifier confirm h =
    go (check env gate service identifier confirm) refl
  where
    go :
        (r : Result Refusal (Unit {0}))
        → check env gate service identifier confirm ≡ r
        → (e : Refusal) × (check env gate service identifier confirm ≡ err e)
    go (ok u) p = absurd (ground (arith, h, (check_iff env gate service identifier confirm).0 p))
    go (err e) p = (e, p)

module _ {S : Type 0} (hooks : Backend S) where
  -- If the kill switch is closed, or the agent's switch is for an agent, or the caller does not
  -- confirm, then the call raises a refusal of the gates and nothing is transmitted: the session
  -- and the backend are as they were.
  pub clear_trouble_codes-refused :
      (env : Environment) (gate : WriteGate) (confirm : Bool) (timeout : Option ℕ) (i : Interface S)
      → (enabled env gate ≡ false)
        ⊎ ((gate.agent ≡ true) × (agent_enabled env gate ≡ false))
        ⊎ (confirm ≡ false)
      → (e : Refusal) × (clear_trouble_codes hooks env gate confirm timeout i
          ≡ (err (refused e), i))
  clear_trouble_codes-refused env gate confirm timeout i h =
      let (e, p) = check-refuses env gate mode_clear_dtc none confirm h in
      (e, unfold clear_trouble_codes in rw p)

  -- If the kill switch is open, the agent's switch too for an agent, and the session is open, then
  -- a confirmed call changes nothing but the backend, by one exchange of the one byte of the mode,
  -- within the time that is given, or that of the session where none is.
  pub clear_trouble_codes-sent :
      (env : Environment) (gate : WriteGate) (timeout : Option ℕ) (i : Interface S)
      → enabled env gate ≡ true
      → (gate.agent ≡ false) ⊎ (agent_enabled env gate ≡ true)
      → i.open_flag ≡ true
      → (clear_trouble_codes hooks env gate true timeout i).1 ≡ record i {
        backend = (hooks.exchange (0x04 ∷ []) (timeout_or timeout i.default_timeout) i.backend).1;
      }
  unfolding clear_trouble_codes check positive_responses service request
  clear_trouble_codes-sent env gate none i h1 h2 h3 = ground (arith, h1, h2, h3)
  clear_trouble_codes-sent env gate (some timeout) i h1 h2 h3 = ground (arith, h1, h2, h3)
