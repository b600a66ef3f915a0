-- ===== src/LocalOnly/Examples.antt =====
-- A page of another site, and hosts as clients write them.
use canopen_studio.Prelude.{ℕ, ◌≡◌, ◌≢◌, refl, true, none, some, List, [], ◌∷◌}
use canopen_studio.Prelude.Text.{codes, lower, strip, lstrip, is_space}
use canopen_studio.WriteGate.{Environment}
use canopen_studio.LocalOnly.{
  local_only, header, to_app, forbidden, host_not_local, host_is_local, rejection_reason,
  strip_port, through, count_of, before,
}
use canopen_studio.LocalOnly.Origins.{no_origins, local_only-origin}

abbrev nothing_set : Environment
nothing_set name = none

abbrev page : List (List ℕ × List ℕ)
page = (codes "Host", codes "localhost:8000") ∷ (codes "Origin", codes "https://example.org") ∷ []

page_origin : header (codes "origin") page ≡ some (codes "https://example.org")
unfolding header lower
page_origin = refl

local_only-origin_example : local_only nothing_set true page ≢ to_app
local_only-origin_example =
    local_only-origin nothing_set page b'h' (codes "ttps://example.org")
      (no_origins nothing_set refl) page_origin

foreign_host :
    local_only nothing_set true ((codes "host", codes "example.org:8000") ∷ [])
    ≡ forbidden host_not_local
unfolding local_only rejection_reason host_is_local header lower strip lstrip is_space strip_port
    through count_of before
foreign_host = refl
