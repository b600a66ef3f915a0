-- ===== src/WriteGate/Decision.antt =====
-- When a write passes the gates.
use canopen_studio.Prelude.{ℕ, ◌≡◌, ◌↔◌, ◌⊎◌, Bool, true, false, Option, ok, err, arith}
use canopen_studio.WriteGate.{
  Environment, WriteGate, no_request_path, enabled, agent_enabled, for_agent, check, allows, member,
  write_services,
}

-- A service passes the gates exactly if it is the clearing of trouble codes, the kill switch is
-- open, the agent's switch is open too if an agent asks, and the caller confirms; the whitelist
-- plays no part in it.
pub check_iff :
    (env : Environment) (gate : WriteGate) (service : ℕ) (identifier : Option ℕ) (confirm : Bool)
    → (check env gate service identifier confirm ≡ ok tt) ↔ (
        (service ≡ 0x04)
        × (enabled env gate ≡ true)
        × ((gate.agent ≡ false) ⊎ (agent_enabled env gate ≡ true))
        × (confirm ≡ true))
unfolding check
check_iff env gate service identifier confirm = ground arith

-- A service that writes a parameter or starts a routine is refused for want of a request path,
-- whatever the configuration, the whitelist and the caller say.
pub check-write_services :
    (env : Environment) (gate : WriteGate) (service : ℕ) (identifier : Option ℕ) (confirm : Bool)
    → member service write_services ≡ true
    → check env gate service identifier confirm ≡ err no_request_path
unfolding check
check-write_services env gate service identifier confirm h = ground arith

-- An agent never has more than a person at the same gate: what passes for the agent passes for the
-- person, and the agent needs its own switch on top.
pub allows-for_agent :
    (env : Environment) (gate : WriteGate) (service : ℕ) (identifier : Option ℕ)
    → (allows env (for_agent gate) service identifier ≡ true) ↔ (
        (allows env (record gate { agent = false }) service identifier ≡ true)
        × (agent_enabled env gate ≡ true))
unfolding allows for_agent enabled agent_enabled
allows-for_agent env gate service identifier = ground arith
