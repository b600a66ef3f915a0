-- ===== src/WriteGate/Examples.antt =====
-- Gates in concrete postures, before a vehicle of one ECU.
use canopen_studio.Prelude.{
  ℕ, suc, ◌≡◌, ◌↔◌, ◌⊎◌, refl, inl, true, false, none, some, [], ◌∷◌, ok, err,
}
use canopen_studio.Prelude.Text.{codes}
use canopen_studio.Diagnostic.{Backend, Interface}
use canopen_studio.WriteGate.{
  Environment, WriteGate, Refusal, enabled, agent_enabled, for_agent, check, allows,
  clear_trouble_codes, refused, env_flag,
}
use canopen_studio.WriteGate.Decision.{check_iff, allows-for_agent}
use canopen_studio.WriteGate.Clearing.{clear_trouble_codes-refused, clear_trouble_codes-sent}

abbrev bare : Environment
bare name = none

-- The kill switch is read from the environment; the agent's switch is shut.
abbrev person : Environment
person = λ name. some (codes " On ")

abbrev gate : WriteGate
gate = record {
  entries = [];
  enabled_override = none;
  agent = false;
  agent_enabled_override = none;
}

-- A backend whose state counts the requests that it was given.
abbrev vehicle : Backend ℕ
vehicle = record {
  bring_up = λ n. (ok tt, n);
  take_down = λ n. (ok tt, n);
  exchange = λ bytes timeout n. (ok (record { source = 0x7E8; bytes = 0x44 ∷ [] } ∷ []), suc n);
}

abbrev session : Interface ℕ
session = record { open_flag = true; default_timeout = 1000; backend = 0 }

switch_on : env_flag person "CANOPEN_STUDIO_DIAG_WRITE" false ≡ true
unfolding env_flag
switch_on = refl

clear_trouble_codes-refused_example :
    (e : Refusal) × (clear_trouble_codes vehicle bare gate true none session
      ≡ (err (refused e), session))
unfolding enabled env_flag
clear_trouble_codes-refused_example =
    clear_trouble_codes-refused vehicle bare gate true none session (inl refl)

clear_trouble_codes-sent_example :
    (clear_trouble_codes vehicle person gate true none session).1 ≡ record session { backend = 1 }
unfolding enabled env_flag
clear_trouble_codes-sent_example =
    clear_trouble_codes-sent vehicle person gate none session refl (inl refl) refl

check_iff_example : (check person gate 0x04 none true ≡ ok tt) ↔ (
    (◌≡◌ {A = ℕ} 0x04 0x04)
    × (enabled person gate ≡ true)
    × ((false ≡ false) ⊎ (agent_enabled person gate ≡ true))
    × (true ≡ true))
check_iff_example = check_iff person gate 0x04 none true

allows-for_agent_example :
    (allows person (for_agent gate) 0x04 none ≡ true)
    ↔ ((allows person gate 0x04 none ≡ true) × (agent_enabled person gate ≡ true))
allows-for_agent_example = allows-for_agent person gate 0x04 none
