-- ===== src/LocalOnly/Origins.antt =====
-- Requests that a web page made.
use canopen_studio.Prelude.{ℕ, ◌≡◌, ◌≢◌, refl, true, false, none, some, List, [], ◌∷◌, arith}
use canopen_studio.Prelude.Text.{codes, strip, lstrip}
use canopen_studio.WriteGate.{Environment}
use canopen_studio.LocalOnly.{
  local_only, rejection_reason, header, origin_is_allowed, allowed_origins_from_env, split_commas,
  stripped_parts, permitted, to_app,
}

-- A variable that is not set allows no origin.
pub no_origins :
    (env : Environment)
    → env "CANOPEN_STUDIO_ALLOWED_ORIGINS" ≡ none
    → permitted (allowed_origins_from_env env) ≡ []
unfolding allowed_origins_from_env split_commas stripped_parts permitted strip lstrip
no_origins env h = rw h refl

-- Where the environment allows no origin, an HTTP request whose last `Origin` header is not empty
-- does not reach the application, whatever its other headers are.
pub local_only-origin :
    (env : Environment) (headers : List (List ℕ × List ℕ)) (c : ℕ) (origin : List ℕ)
    → permitted (allowed_origins_from_env env) ≡ []
    → header (codes "origin") headers ≡ some (c ∷ origin)
    → local_only env true headers ≢ to_app
unfolding local_only rejection_reason origin_is_allowed
local_only-origin env headers c origin h e =
    let refused : origin_is_allowed (some (c ∷ origin)) (allowed_origins_from_env env) ≡ false =
      rw h refl in
    λ passed. ground (arith, e, refused, passed)
