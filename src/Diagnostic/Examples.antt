-- ===== src/Diagnostic/Examples.antt =====
-- A session with an engine controller that answers and a gateway that refuses.
use canopen_studio.Prelude.{ℕ, suc, ◌≡◌, refl, true, false, none, List, [], ◌∷◌, ok, err}
use canopen_studio.Diagnostic.{
  Backend, Interface, DiagnosticResponse, is_negative, keep_positive, positive_responses, request,
  service, transport,
}

abbrev replies : List DiagnosticResponse
replies =
    record { source = 0x7E8; bytes = 0x41 ∷ 0x0C ∷ 0x1A ∷ 0xF8 ∷ [] }
    ∷ record { source = 0x7E9; bytes = 0x7F ∷ 0x01 ∷ 0x12 ∷ [] }
    ∷ []

-- It cannot be taken down.
abbrev vehicle : Backend ℕ
vehicle = record {
  bring_up = λ n. (ok tt, suc n);
  take_down = λ n. (err transport, n);
  exchange = λ bytes timeout n. (ok replies, suc n);
}

abbrev shut : Interface ℕ
shut = record { open_flag = false; default_timeout = 1000; backend = 0 }

abbrev session : Interface ℕ
session = record { open_flag = true; default_timeout = 1000; backend = 0 }

engine_speed : positive_responses vehicle 0x01 (0x0C ∷ []) none false session ≡ (
  ok (record { source = 0x7E8; bytes = 0x41 ∷ 0x0C ∷ 0x1A ∷ 0xF8 ∷ [] } ∷ []),
  record session { backend = 1 },
)
unfolding positive_responses service request keep_positive is_negative
engine_speed = refl
