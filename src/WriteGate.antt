-- ===== src/WriteGate.antt =====
-- src/canopen_studio/diag/security.py: the gates that a write to a vehicle passes, with `env_flag`
-- of src/canopen_studio/agent_security.py. The environment is a parameter, from names to texts;
-- a refusal is the gate that refused, without its message. Services and identifiers are natural
-- numbers.
pub mod Decision
pub mod Clearing
mod Examples
use Prim.Native.String.{String}
use canopen_studio.Prelude.{
  ℕ, Bool, true, false, not, ◌&&◌, ◌||◌, Option, none, some, List, [], ◌∷◌, map, Result, ok, err,
  ◌==◌, if◌then◌else◌,
}
use canopen_studio.Prelude.Text.{codes, strip, lower, text_eq}
use canopen_studio.Diagnostic.{
  DiagnosticResponse, DiagnosticError, Backend, Interface, positive_responses,
}

-- `os.environ`
abbrev pub Environment : Type 0
Environment = String → Option (List ℕ)

abbrev truthy : List (List ℕ)
truthy = codes "1" ∷ codes "true" ∷ codes "yes" ∷ codes "on" ∷ []

abbrev one_of : List ℕ → List (List ℕ) → Bool
one_of t [] = false
one_of t (u ∷ us) = text_eq t u || one_of t us

unfoldable pub env_flag : Environment → String → Bool → Bool
unfolding strip lower
env_flag env name default = elim (env name) [
  | none ↦ default
  | some raw ↦ one_of (map lower (strip raw)) truthy
]

abbrev pub write_services : List ℕ
write_services = 0x2E ∷ 0x31 ∷ 0x2F ∷ []

abbrev pub implemented_services : List ℕ
implemented_services = 0x04 ∷ []

abbrev pub mode_clear_dtc : ℕ
mode_clear_dtc = 0x04

abbrev pub member : ℕ → List ℕ → Bool
member a [] = false
member a (b ∷ bs) = a == b || member a bs

pub data Refusal : Type 0 where
  no_request_path writes_disabled agent_writes_disabled not_whitelisted not_confirmed : Refusal

pub record WhitelistEntry : Type 0 where
  pub service : ℕ
  pub identifier : Option ℕ

abbrev pub same_identifier : Option ℕ → ℕ → Bool
same_identifier none b = false
same_identifier (some a) b = a == b

unfoldable pub covers : WhitelistEntry → ℕ → Option ℕ → Bool
covers entry service identifier =
    if not (service == entry.service)
    then false
    else elim entry.identifier [ none ↦ true | some i ↦ same_identifier identifier i ]

abbrev pub any_covers : List WhitelistEntry → ℕ → Option ℕ → Bool
any_covers [] service identifier = false
any_covers (entry ∷ entries) service identifier =
    covers entry service identifier || any_covers entries service identifier

pub record WriteGate : Type 0 where
  pub entries : List WhitelistEntry
  pub enabled_override : Option Bool
  pub agent : Bool
  pub agent_enabled_override : Option Bool

abbrev pub or_else : Option Bool → Bool → Bool
or_else none b = b
or_else (some a) b = a

unfoldable pub enabled : Environment → WriteGate → Bool
enabled env gate = or_else gate.enabled_override (env_flag env "CANOPEN_STUDIO_DIAG_WRITE" false)

unfoldable pub agent_enabled : Environment → WriteGate → Bool
agent_enabled env gate =
    or_else gate.agent_enabled_override (env_flag env "CANOPEN_STUDIO_MCP_DIAG_WRITE" false)

unfoldable pub for_agent : WriteGate → WriteGate
for_agent gate = record gate { agent = true }

unfoldable pub check : Environment → WriteGate → ℕ → Option ℕ → Bool → Result Refusal (Unit {0})
check env gate service identifier confirm =
    if not (member service implemented_services)
    then err no_request_path
    else if not (enabled env gate)
    then err writes_disabled
    else if gate.agent && not (agent_enabled env gate)
    then err agent_writes_disabled
    else if member service write_services && not (any_covers gate.entries service identifier)
    then err not_whitelisted
    else if not confirm
    then err not_confirmed
    else ok tt

unfoldable pub allows : Environment → WriteGate → ℕ → Option ℕ → Bool
unfolding check
allows env gate service identifier = elim (check env gate service identifier true) [
  | ok u ↦ true
  | err e ↦ false
]

-- What `clear_trouble_codes` raises: a refusal of the gate, or an error of the session.
pub data ClearError : Type 0 where
  refused : Refusal → ClearError
  session_error : DiagnosticError → ClearError

abbrev pub sources : List DiagnosticResponse → List ℕ
sources [] = []
sources (r ∷ rs) = r.source ∷ sources rs

abbrev pub acknowledged :
    Result DiagnosticError (List DiagnosticResponse) → Result ClearError (List ℕ)
acknowledged (ok replies) = ok (sources replies)
acknowledged (err e) = err (session_error e)

module _ {S : Type 0} (hooks : Backend S) where
  abbrev pub clear_if :
      Result Refusal (Unit {0}) → Option ℕ → Interface S → Result ClearError (List ℕ) × Interface S
  clear_if (err e) timeout i = (err (refused e), i)
  clear_if (ok u) timeout i =
      let (replies, i') = positive_responses hooks mode_clear_dtc [] timeout false i in
      (acknowledged replies, i')

  unfoldable pub clear_trouble_codes :
      Environment
      → WriteGate
      → Bool
      → Option ℕ
      → Interface S
      → Result ClearError (List ℕ) × Interface S
  clear_trouble_codes env gate confirm timeout i =
      clear_if (check env gate mode_clear_dtc none confirm) timeout i
