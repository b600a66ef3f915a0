-- ===== src/LocalOnly.antt =====
-- src/canopen_studio/agent_security.py: the guard in front of the servers for agents. A header is
-- its bytes, taken to be ASCII. The body of the refusal is not modelled.
pub mod Origins
pub mod Hosts
mod Examples
use canopen_studio.Prelude.{
  ℕ, suc, ◌+◌, Bool, true, false, not, ◌&&◌, ◌||◌, Option, none, some, List, [], ◌∷◌, ltb, ◌==◌,
  if◌then◌else◌,
}
use canopen_studio.Prelude.Text.{codes, is_space, strip, lower, text_eq}
use canopen_studio.WriteGate.{Environment}

abbrev pub among : List ℕ → List (List ℕ) → Bool
among text [] = false
among text (t ∷ texts) = text_eq t text || among text texts

abbrev pub lowers : List ℕ → List ℕ
lowers [] = []
lowers (c ∷ text) = lower c ∷ lowers text

abbrev pub local_hosts : List (List ℕ)
local_hosts = codes "localhost" ∷ codes "127.0.0.1" ∷ codes "::1" ∷ codes "[::1]" ∷ []

-- `host[: host.find(c) + 1]`, where `c` is in `host`
unfoldable pub through : ℕ → List ℕ → Option (List ℕ)
through c [] = none
through c (d ∷ host) =
    let rest = through c host in
    if d == c then some (d ∷ []) else elim rest [ some head ↦ some (d ∷ head) | none ↦ none ]

unfoldable pub count_of : ℕ → List ℕ → ℕ
count_of c [] = 0
count_of c (d ∷ host) = if d == c then suc (count_of c host) else count_of c host

-- What stands before the only `c`.
unfoldable pub before : ℕ → List ℕ → List ℕ
before c [] = []
before c (d ∷ host) = let rest = before c host in if d == c then [] else d ∷ rest

abbrev pub or_text : Option (List ℕ) → List ℕ → List ℕ
or_text (some head) host = head
or_text none host = host

unfoldable pub strip_port : List ℕ → List ℕ
strip_port [] = []
strip_port (c ∷ rest) =
    let host = c ∷ rest in
    if c == b'['
    then or_text (through b']' host) host
    else if ltb 1 (count_of b':' host)
    then host
    else if count_of b':' host == 1
    then before b':' host
    else host

-- A missing header and an empty one are accepted alike.
unfoldable pub host_is_local : Option (List ℕ) → Bool
host_is_local none = true
host_is_local (some []) = true
host_is_local (some (c ∷ host)) = among (strip_port (lowers (strip (c ∷ host)))) local_hosts

-- `text.rstrip("/")`
unfoldable pub rstrip_slash : List ℕ → List ℕ
rstrip_slash [] = []
rstrip_slash (c ∷ text) = elim (rstrip_slash text) [
  | [] ↦ if c == b'/' then [] else c ∷ []
  | d ∷ rest ↦ c ∷ d ∷ rest
]

unfoldable pub normalised : List ℕ → List ℕ
normalised origin = lowers (rstrip_slash (strip origin))

abbrev pub is_blank : List ℕ → Bool
is_blank [] = true
is_blank (c ∷ text) = false

unfoldable pub permitted : List (List ℕ) → List (List ℕ)
permitted [] = []
permitted (o ∷ allowed) =
    let rest = permitted allowed in if is_blank (strip o) then rest else normalised o ∷ rest

unfoldable pub origin_is_allowed : Option (List ℕ) → List (List ℕ) → Bool
origin_is_allowed none allowed = true
origin_is_allowed (some []) allowed = true
origin_is_allowed (some (c ∷ origin)) allowed = among (normalised (c ∷ origin)) (permitted allowed)

abbrev pub cons_char : ℕ → List (List ℕ) → List (List ℕ)
cons_char c [] = (c ∷ []) ∷ []
cons_char c (part ∷ parts) = (c ∷ part) ∷ parts

-- `raw.split(",")`
unfoldable pub split_commas : List ℕ → List (List ℕ)
split_commas [] = [] ∷ []
split_commas (c ∷ raw) =
    let rest = split_commas raw in if c == b',' then [] ∷ rest else cons_char c rest

unfoldable pub stripped_parts : List (List ℕ) → List (List ℕ)
stripped_parts [] = []
stripped_parts (part ∷ parts) =
    let rest = stripped_parts parts in if is_blank (strip part) then rest else strip part ∷ rest

unfoldable pub allowed_origins_from_env : Environment → List (List ℕ)
allowed_origins_from_env env =
    stripped_parts (split_commas (or_text (env "CANOPEN_STUDIO_ALLOWED_ORIGINS") []))

pub data Rejection : Type 0 where
  host_not_local origin_not_accepted : Rejection

unfoldable pub rejection_reason : Environment → Option (List ℕ) → Option (List ℕ) → Option Rejection
rejection_reason env host origin =
    if not (host_is_local host)
    then some host_not_local
    else if not (origin_is_allowed origin (allowed_origins_from_env env))
    then some origin_not_accepted
    else none

-- The last header of a name, whatever the case of its letters.
unfoldable pub header : List ℕ → List (List ℕ × List ℕ) → Option (List ℕ)
header name [] = none
header name ((key, value) ∷ headers) = elim (header name headers) [
  | some later ↦ some later
  | none ↦ if text_eq (lowers key) name then some value else none
]

-- Whether the request goes on to the application, or is answered with status 403.
pub data Outcome : Type 0 where
  to_app : Outcome
  forbidden : Rejection → Outcome

abbrev pub outcome_of : Option Rejection → Outcome
outcome_of none = to_app
outcome_of (some reason) = forbidden reason

unfoldable pub local_only : Environment → Bool → List (List ℕ × List ℕ) → Outcome
local_only env is_http headers =
    if is_http
    then outcome_of
        (rejection_reason env (header (codes "host") headers) (header (codes "origin") headers))
    else to_app
