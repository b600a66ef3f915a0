-- ===== src/Readiness/Status.antt =====
-- What the four bytes of a monitor status say.
use canopen_studio.Prelude.{
  ℕ, suc, ltb, ◌+◌, ◌^◌, ◌≤◌, ◌<◌, ◌≡◌, ◌↔◌, ◌⊎◌, refl, ap, ◌∙◌, Bool, true, false, Option, none,
  some, List, [], ◌∷◌, ok, is_ok, arith, ◌==◌, if◌then◌else◌, length, drop, ==_iff,
}
use mathlib.Core.Path.{subst}
use canopen_studio.Prelude.Bits.{test_bit, every_under, every_under_at}
use canopen_studio.Readiness.{
  Monitor, Readiness, spark, specific, readiness_of, decode_monitor_status, spark_monitors, lamp,
}

-- A status is read from PID 01 or 41 and four bytes or more, and from nothing else.
pub decode_monitor_status_accepts :
    (bytes : List ℕ) (pid : ℕ) (source : Option ℕ) (forced : Option Bool)
    → (is_ok (decode_monitor_status bytes pid source forced) ≡ true)
      ↔ (((pid ≡ 0x01) ⊎ (pid ≡ 0x41)) × (4 ≤ length bytes))
unfolding decode_monitor_status
decode_monitor_status_accepts bytes pid source forced = ground arith

-- The number whose bits, from bit `bit` on, say which monitors are available, or are incomplete.
pub available_bits : ℕ → List Monitor → ℕ
available_bits bit [] = 0
available_bits bit (m ∷ ms) = (if m.available then 2 ^ bit else 0) + available_bits (bit + 1) ms

pub incomplete_bits : ℕ → List Monitor → ℕ
incomplete_bits bit [] = 0
incomplete_bits bit (m ∷ ms) = (if m.complete then 0 else 2 ^ bit) + incomplete_bits (bit + 1) ms

available_bits-specific : (c d : ℕ) → c < 256 → available_bits 0 (specific c d 0 spark_monitors) ≡ c
unfolding available_bits specific every_under
available_bits-specific c d h =
    (==_iff _ c).0
      (every_under_at 256 (λ x. available_bits 0 (specific x 0 0 spark_monitors) == x) c refl h)

incomplete_bits-specific :
    (c d : ℕ) → d < 256 → incomplete_bits 0 (specific c d 0 spark_monitors) ≡ d
unfolding incomplete_bits specific every_under
incomplete_bits-specific c d h =
    (==_iff _ d).0
      (every_under_at 256 (λ x. incomplete_bits 0 (specific 0 x 0 spark_monitors) == x) d refl h)

abbrev or_none : Option ℕ → ℕ
or_none none = 0
or_none (some n) = n

-- The bytes A, C and D, rebuilt from a status.
abbrev pub Rebuilds : ℕ → ℕ → ℕ → Readiness → Type 0
Rebuilds a c d r =
    ((if lamp r.mil_on then 128 else 0) + or_none r.dtc_count ≡ a)
    × (available_bits 0 (drop 3 r.monitors) ≡ c)
    × (incomplete_bits 0 (drop 3 r.monitors) ≡ d)

readiness_of-Rebuilds :
    (a b c d : ℕ) (source : Option ℕ) (compressed : Bool)
    → a < 256
    → c < 256
    → d < 256
    → (readiness_of a b c d 0x01 source compressed).ignition ≡ spark
    → Rebuilds a c d (readiness_of a b c d 0x01 source compressed)
unfolding readiness_of
readiness_of-Rebuilds a b c d source true ha hc hd i = cc
readiness_of-Rebuilds a b c d source false ha hc hd i =
    (ground arith, available_bits-specific c d hc, incomplete_bits-specific c d hd)

-- On a spark-ignition engine the status of PID 01 keeps all that its bytes A, C and D say: the
-- lamp and the count make up byte A, and the monitors behind the three common ones make up C, by
-- being available, and D, by being incomplete.
pub spark_status_lossless :
    (a b c d : ℕ) (rest : List ℕ) (source : Option ℕ) (r : Readiness)
    → a < 256
    → c < 256
    → d < 256
    → decode_monitor_status (a ∷ b ∷ c ∷ d ∷ rest) 0x01 source none ≡ ok r
    → r.ignition ≡ spark
    → Rebuilds a c d r
unfolding decode_monitor_status
spark_status_lossless a b c d rest source r ha hc hd h i =
    let made = readiness_of a b c d 0x01 source (test_bit b 3) in
    let few : ltb (suc (suc (suc (suc (length rest))))) 4 ≡ false = ground arith in
    let e : made ≡ r = cc (rw few at h) in
    subst (Rebuilds a c d) e (
      readiness_of-Rebuilds a b c d source (test_bit b 3) ha hc hd
        (ap (λ (x : Readiness). x.ignition) e ∙ i))
