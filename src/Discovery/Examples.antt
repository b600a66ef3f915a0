-- ===== src/Discovery/Examples.antt =====
-- An engine controller that implements 0x0C and 0x20, and a gateway that answers something else.
use canopen_studio.Prelude.{
  ℕ, suc, ◌+◌, ◌≤◌, ◌≡◌, refl, min, true, false, ◌||◌, none, List, [], ◌∷◌, ok, arith,
}
use canopen_studio.Prelude.Bits.{test_bit}
use canopen_studio.Diagnostic.{Backend, Interface, DiagnosticResponse}
use canopen_studio.Discovery.{
  decode_support_bitmask, declared, from_bytes, fold_replies, discover_supported_pids, supports,
}
use canopen_studio.Discovery.Bitmask.{is_declared, decode_support_bitmask_places}
use canopen_studio.Discovery.Walk.{
  any_declares, fold_replies-supports, discover_supported_pids-count,
}

abbrev answers : List DiagnosticResponse
answers =
    record { source = 0x7E8; bytes = 0x41 ∷ 0x00 ∷ 0x00 ∷ 0x10 ∷ 0x00 ∷ 0x01 ∷ [] }
    ∷ record { source = 0x7E9; bytes = 0x41 ∷ 0x20 ∷ 0xFF ∷ 0xFF ∷ 0xFF ∷ 0xFF ∷ [] }
    ∷ []

-- It counts its requests.
abbrev vehicle : Backend ℕ
vehicle = record {
  bring_up = λ n. (ok tt, n);
  take_down = λ n. (ok tt, n);
  exchange = λ bytes timeout n. (ok answers, suc n);
}

abbrev session : Interface ℕ
session = record { open_flag = true; default_timeout = 1000; backend = 0 }

engine_bits : decode_support_bitmask 0 (0x00 ∷ 0x10 ∷ 0x00 ∷ 0x01 ∷ []) ≡ ok (0x0C ∷ 0x20 ∷ [])
unfolding decode_support_bitmask declared from_bytes
engine_bits = refl

decode_support_bitmask_places_example :
    is_declared (0x20 + 1 + (8 + 3)) (decode_support_bitmask 0x20 (0x00 ∷ 0x10 ∷ 0x00 ∷ 0x01 ∷ []))
    ≡ test_bit 0x10 4
decode_support_bitmask_places_example =
    decode_support_bitmask_places 0x20 0x00 0x10 0x00 0x01 1 3 [] (omega arith) (omega arith)
      (omega arith) (omega arith) (omega arith)

fold_replies-supports_example :
    supports (fold_replies 0 [] answers ([], false)).0 0x7E8 0x0C
    ≡ (supports [] 0x7E8 0x0C || any_declares 0 [] 0x7E8 0x0C answers)
fold_replies-supports_example = fold_replies-supports 0 [] answers ([], false) 0x7E8 0x0C

discover_supported_pids-count_example :
    (discover_supported_pids vehicle 0x01 [] none 8 session).1.backend ≤ min 8 8 + 0
discover_supported_pids-count_example =
    discover_supported_pids-count vehicle (λ n. n) (λ bytes timeout s. omega arith) 0x01 [] none 8
      session
