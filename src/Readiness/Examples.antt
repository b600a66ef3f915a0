-- ===== src/Readiness/Examples.antt =====
-- An engine controller with one monitor left to run, and a transmission that has none.
use canopen_studio.Prelude.{ℕ, ◌≡◌, refl, false, none, some, List, [], ◌∷◌, ok, if◌then◌else◌}
use canopen_studio.Readiness.{
  egr_vvt, Readiness, decode_monitor_status, readiness_of, specific, combine, merge_readings,
  code_of, all_complete, incomplete, lamps, counts, all_sources,
}
use canopen_studio.Readiness.Merged.{entry_of, reports, all_monitors, combine-entry_of}

abbrev engine_bytes : List ℕ
engine_bytes = 0x02 ∷ 0x07 ∷ 0xE1 ∷ 0x80 ∷ []

abbrev engine : Readiness
engine = readiness_of 0x02 0x07 0xE1 0x80 0x01 (some 0x7E8) false

abbrev gearbox : Readiness
gearbox = readiness_of 0x00 0x04 0x00 0x00 0x01 (some 0x7E9) false

abbrev vehicle : Readiness
vehicle = record {
  scope = engine.scope;
  ignition = engine.ignition;
  mil_on = lamps (engine ∷ gearbox ∷ []);
  dtc_count = counts (engine ∷ gearbox ∷ []);
  monitors = merge_readings [] (engine ∷ gearbox ∷ []);
  sources = all_sources (engine ∷ gearbox ∷ []);
}

engine_decoded : decode_monitor_status engine_bytes 0x01 (some 0x7E8) none ≡ ok engine
unfolding decode_monitor_status
engine_decoded = refl

vehicle_combined : combine (engine ∷ gearbox ∷ []) ≡ some vehicle
unfolding combine
vehicle_combined = refl

vehicle_incomplete : all_complete vehicle ≡ false
unfolding all_complete incomplete combine code_of readiness_of specific
vehicle_incomplete = refl

combine-entry_of_example : entry_of egr_vvt vehicle.monitors ≡ (
    let r = reports egr_vvt (all_monitors (engine ∷ gearbox ∷ [])) in
    if r.seen then some (r.available, r.complete) else none)
combine-entry_of_example = combine-entry_of engine (gearbox ∷ []) vehicle egr_vvt vehicle_combined
