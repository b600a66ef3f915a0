-- ===== src/Discovery/Views.antt =====
-- The views of `SupportedPids`: sets as sorted lists without repetitions.
use canopen_studio.Prelude.{ℕ, List, [], ◌∷◌, ◌++◌, if◌then◌else◌}
use canopen_studio.Readiness.{insert_sources}
use canopen_studio.Discovery.{Found, contains}

abbrev pub pid_union : Found → List ℕ
pid_union [] = []
pid_union ((ecu, pids) ∷ found) = pids ++ pid_union found

-- `sorted(supported.all)`
unfoldable pub all_pids : Found → List ℕ
unfolding insert_sources
all_pids found = insert_sources (pid_union found) []

abbrev pub ecu_list : Found → List ℕ
ecu_list [] = []
ecu_list ((ecu, pids) ∷ found) = ecu ∷ ecu_list found

unfoldable pub ecus : Found → List ℕ
unfolding insert_sources
ecus found = insert_sources (ecu_list found) []

abbrev pub ecus_with : ℕ → Found → List ℕ
ecus_with pid [] = []
ecus_with pid ((ecu, pids) ∷ found) =
    let rest = ecus_with pid found in if contains pid pids then ecu ∷ rest else rest

unfoldable pub supported_by : ℕ → Found → List ℕ
unfolding insert_sources
supported_by pid found = insert_sources (ecus_with pid found) []
