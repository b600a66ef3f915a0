-- ===== src/Readiness.antt =====
-- src/canopen_studio/diag/j1979/readiness.py: which emissions monitors have run. Monitors are named
-- by a data type in place of their names and labels; identifiers and bytes are natural numbers.
pub mod Status
pub mod Merged
mod Examples
use canopen_studio.Prelude.{
  ℕ, suc, ◌+◌, ◌*◌, ◌^◌, ltb, Bool, true, false, not, ◌&&◌, ◌||◌, Option, none, some, List, [], ◌∷◌,
  ◌++◌, Result, ok, err, ◌==◌, if◌then◌else◌, length, get_or,
}
use canopen_studio.Prelude.Bits.{low_bits, test_bit}

pub data MonitorName : Type 0 where
  misfire fuel_system components : MonitorName
  catalyst heated_catalyst evaporative_system secondary_air ac_refrigerant : MonitorName
  oxygen_sensor oxygen_sensor_heater egr_vvt : MonitorName
  nmhc_catalyst nox_aftertreatment boost_pressure exhaust_gas_sensor pm_filter : MonitorName

-- A number for each name, to compare names by.
unfoldable pub code_of : MonitorName → ℕ
code_of misfire = 0
code_of fuel_system = 1
code_of components = 2
code_of catalyst = 3
code_of heated_catalyst = 4
code_of evaporative_system = 5
code_of secondary_air = 6
code_of ac_refrigerant = 7
code_of oxygen_sensor = 8
code_of oxygen_sensor_heater = 9
code_of egr_vvt = 10
code_of nmhc_catalyst = 11
code_of nox_aftertreatment = 12
code_of boost_pressure = 13
code_of exhaust_gas_sensor = 14
code_of pm_filter = 15

abbrev pub pid_monitor_status : ℕ
pid_monitor_status = 0x01

abbrev pub pid_monitor_this_cycle : ℕ
pid_monitor_this_cycle = 0x41

abbrev pub common_monitors : List MonitorName
common_monitors = misfire ∷ fuel_system ∷ components ∷ []

-- `none` marks a bit that the standard reserves.
abbrev pub spark_monitors : List (Option MonitorName)
spark_monitors =
    some catalyst
    ∷ some heated_catalyst
    ∷ some evaporative_system
    ∷ some secondary_air
    ∷ some ac_refrigerant
    ∷ some oxygen_sensor
    ∷ some oxygen_sensor_heater
    ∷ some egr_vvt
    ∷ []

abbrev pub compression_monitors : List (Option MonitorName)
compression_monitors =
    some nmhc_catalyst
    ∷ some nox_aftertreatment
    ∷ none
    ∷ some boost_pressure
    ∷ none
    ∷ some exhaust_gas_sensor
    ∷ some pm_filter
    ∷ some egr_vvt
    ∷ []

pub record Monitor : Type 0 where
  pub name : MonitorName
  pub available : Bool
  pub complete : Bool

pub data Scope : Type 0 where
  since_codes_cleared this_drive_cycle : Scope

pub data Ignition : Type 0 where
  spark compression : Ignition

pub record Readiness : Type 0 where
  pub scope : Scope
  pub ignition : Ignition
  pub mil_on : Option Bool
  pub dtc_count : Option ℕ
  pub monitors : List Monitor
  pub sources : List ℕ

unfoldable pub incomplete : List Monitor → List Monitor
incomplete [] = []
incomplete (m ∷ ms) =
    let rest = incomplete ms in if m.available && not m.complete then m ∷ rest else rest

abbrev pub lamp : Option Bool → Bool
lamp none = false
lamp (some b) = b

abbrev pub is_empty {ℓ} : {A : Type ℓ} → List A → Bool
is_empty [] = true
is_empty (a ∷ as') = false

-- `not self.mil_on and not self.incomplete`
unfoldable pub all_complete : Readiness → Bool
all_complete r = not (lamp r.mil_on) && is_empty (incomplete r.monitors)

pub data StatusError : Type 0 where
  wrong_pid : ℕ → StatusError
  too_short : ℕ → StatusError

-- The comprehension over `COMMON_MONITORS`, from bit `bit` on.
unfoldable pub common : ℕ → ℕ → List MonitorName → List Monitor
common b bit [] = []
common b bit (name ∷ names) =
    record { name = name; available = test_bit b bit; complete = not (test_bit b (bit + 4)) }
    ∷ common b (bit + 1) names

-- The loop over the table of the ignition type, from bit `bit` on.
unfoldable pub specific : ℕ → ℕ → ℕ → List (Option MonitorName) → List Monitor
specific c d bit [] = []
specific c d bit (none ∷ names) = specific c d (bit + 1) names
specific c d bit (some name ∷ names) =
    record { name = name; available = test_bit c bit; complete = not (test_bit d bit) }
    ∷ specific c d (bit + 1) names

abbrev pub source_list : Option ℕ → List ℕ
source_list none = []
source_list (some s) = s ∷ []

abbrev pub or_bit : Option Bool → Bool → Bool
or_bit none b = b
or_bit (some a) b = a

unfoldable pub readiness_of : ℕ → ℕ → ℕ → ℕ → ℕ → Option ℕ → Bool → Readiness
unfolding common
readiness_of a b c d pid source compressed =
    let since_clear = pid == pid_monitor_status in
    let table = if compressed then compression_monitors else spark_monitors in
    record {
      scope = if since_clear then since_codes_cleared else this_drive_cycle;
      ignition = if compressed then compression else spark;
      mil_on = if since_clear then some (test_bit a 7) else none;
      dtc_count = if since_clear then some (low_bits a 7) else none;
      monitors = common b 0 common_monitors ++ specific c d 0 table;
      sources = source_list source;
    }

unfoldable pub decode_monitor_status :
    List ℕ → ℕ → Option ℕ → Option Bool → Result StatusError Readiness
decode_monitor_status bytes pid source forced =
    if not (pid == pid_monitor_status || pid == pid_monitor_this_cycle)
    then err (wrong_pid pid)
    else if ltb (length bytes) 4
    then err (too_short (length bytes))
    else ok (
        readiness_of (get_or bytes 0 0) (get_or bytes 1 0) (get_or bytes 2 0) (get_or bytes 3 0) pid
          source (or_bit forced (test_bit (get_or bytes 1 0) 3)))

-- What a further report of a monitor changes in the entry that is kept for it.
unfoldable pub absorb : Monitor → Monitor → Monitor
absorb entry m =
    if m.available
    then record entry { available = true; complete = entry.complete && m.complete }
    else entry

-- The dictionary `merged` in the order of `order`.
unfoldable pub merge : List Monitor → Monitor → List Monitor
unfolding absorb
merge [] m = absorb (record { name = m.name; available = false; complete = true }) m ∷ []
merge (entry ∷ entries) m =
    let rest = merge entries m in
    if code_of entry.name == code_of m.name then absorb entry m ∷ entries else entry ∷ rest

unfoldable pub merge_all : List Monitor → List Monitor → List Monitor
unfolding merge
merge_all merged [] = merged
merge_all merged (m ∷ ms) = merge_all (merge merged m) ms

unfoldable pub merge_readings : List Monitor → List Readiness → List Monitor
unfolding merge_all
merge_readings merged [] = merged
merge_readings merged (r ∷ rs) = merge_readings (merge_all merged r.monitors) rs

abbrev pub either_lamp : Option Bool → Option Bool → Option Bool
either_lamp none b = b
either_lamp (some a) none = some a
either_lamp (some a) (some b) = some (a || b)

-- `any(lamps) if lamps else None`
unfoldable pub lamps : List Readiness → Option Bool
lamps [] = none
lamps (r ∷ rs) = either_lamp r.mil_on (lamps rs)

abbrev pub add_count : Option ℕ → Option ℕ → Option ℕ
add_count none b = b
add_count (some a) none = some a
add_count (some a) (some b) = some (a + b)

-- `sum(counts) if counts else None`
unfoldable pub counts : List Readiness → Option ℕ
counts [] = none
counts (r ∷ rs) = add_count r.dtc_count (counts rs)

-- One more element of a sorted list without repetitions.
unfoldable pub insert_source : ℕ → List ℕ → List ℕ
insert_source s [] = s ∷ []
insert_source s (t ∷ ts) =
    let rest = insert_source s ts in
    if ltb s t then s ∷ t ∷ ts else if s == t then t ∷ ts else t ∷ rest

unfoldable pub insert_sources : List ℕ → List ℕ → List ℕ
unfolding insert_source
insert_sources [] ts = ts
insert_sources (s ∷ ss) ts = insert_source s (insert_sources ss ts)

-- `sorted({ecu for r in readings for ecu in r.sources})`
unfoldable pub all_sources : List Readiness → List ℕ
unfolding insert_sources
all_sources [] = []
all_sources (r ∷ rs) = insert_sources r.sources (all_sources rs)

unfoldable pub combine : List Readiness → Option Readiness
unfolding merge_readings lamps counts all_sources
combine [] = none
combine (first ∷ rest) = some (record {
  scope = first.scope;
  ignition = first.ignition;
  mil_on = lamps (first ∷ rest);
  dtc_count = counts (first ∷ rest);
  monitors = merge_readings [] (first ∷ rest);
  sources = all_sources (first ∷ rest);
})
