-- ===== src/Readiness/Merged.antt =====
-- What the status combined from several ECUs says.
use canopen_studio.Prelude.{
  ◌≡◌, refl, ap, sym, ◌∙◌, Bool, true, false, not, ◌&&◌, ◌||◌, Option, none, some, List, [], ◌∷◌,
  ◌++◌, arith, ◌==◌, if◌then◌else◌,
}
use canopen_studio.Readiness.{
  Monitor, MonitorName, Readiness, code_of, merge, merge_all, merge_readings, lamps, combine,
  incomplete, all_complete, is_empty, lamp,
}

-- Some report names the monitor, some has it available, and each that has it available has it
-- complete.
pub record Reports : Type 0 where
  pub seen : Bool
  pub available : Bool
  pub complete : Bool

pub reports : MonitorName → List Monitor → Reports
reports n [] = record { seen = false; available = false; complete = true }
reports n (m ∷ ms) =
    let rest = reports n ms in
    if code_of m.name == code_of n
    then record {
      seen = true;
      available = m.available || rest.available;
      complete = (not m.available || m.complete) && rest.complete;
    }
    else rest

-- The first entry of a name.
pub entry_of : MonitorName → List Monitor → Option (Bool × Bool)
entry_of n [] = none
entry_of n (m ∷ ms) =
    let rest = entry_of n ms in
    if code_of m.name == code_of n then some (m.available, m.complete) else rest

abbrev join : Option (Bool × Bool) → Reports → Option (Bool × Bool)
join none r = if r.seen then some (r.available, r.complete) else none
join (some (a, c)) r = some (a || r.available, c && r.complete)

merge-entry_of :
    (n : MonitorName) (merged : List Monitor) (m : Monitor)
    → entry_of n (merge merged m) ≡ join (entry_of n merged) (reports n (m ∷ []))
unfolding entry_of merge reports
merge-entry_of n [] m = ground arith
merge-entry_of n (e ∷ es) m = ground (arith, merge-entry_of n es m)

join_step :
    (o : Option (Bool × Bool)) (n : MonitorName) (m : Monitor) (ms : List Monitor)
    → join (join o (reports n (m ∷ []))) (reports n ms) ≡ join o (reports n (m ∷ ms))
unfolding reports
join_step none n m ms = ground arith
join_step (some (a, c)) n m ms = ground arith

merge_all-entry_of :
    (n : MonitorName) (merged ms : List Monitor)
    → entry_of n (merge_all merged ms) ≡ join (entry_of n merged) (reports n ms)
unfolding merge_all
merge_all-entry_of n merged [] = unfold reports in ground arith
merge_all-entry_of n merged (m ∷ ms) =
    merge_all-entry_of n (merge merged m) ms
    ∙ ap (λ o. join o (reports n ms)) (merge-entry_of n merged m)
    ∙ join_step (entry_of n merged) n m ms

abbrev pub all_monitors : List Readiness → List Monitor
all_monitors [] = []
all_monitors (r ∷ rs) = r.monitors ++ all_monitors rs

merge_all-append :
    (merged ms ns : List Monitor) → merge_all merged (ms ++ ns) ≡ merge_all (merge_all merged ms) ns
unfolding merge_all
merge_all-append merged [] ns = refl
merge_all-append merged (m ∷ ms) ns = merge_all-append (merge merged m) ms ns

merge_readings-merge_all :
    (merged : List Monitor) (rs : List Readiness)
    → merge_readings merged rs ≡ merge_all merged (all_monitors rs)
unfolding merge_readings
merge_readings-merge_all merged [] = unfold merge_all in refl
merge_readings-merge_all merged (r ∷ rs) =
    merge_readings-merge_all (merge_all merged r.monitors) rs
    ∙ sym (merge_all-append merged r.monitors (all_monitors rs))

-- In the combined status a monitor stands exactly if some ECU reports it, is available exactly if
-- some ECU has it, and is complete exactly if every ECU that has it says so.
pub combine-entry_of :
    (first : Readiness) (rest : List Readiness) (combined : Readiness) (n : MonitorName)
    → combine (first ∷ rest) ≡ some combined
    → entry_of n combined.monitors ≡ (
        let r = reports n (all_monitors (first ∷ rest)) in
        if r.seen then some (r.available, r.complete) else none)
unfolding combine entry_of
combine-entry_of first rest combined n h =
    let e : combined.monitors ≡ merge_readings [] (first ∷ rest) = cc in
    rw (e, merge_readings-merge_all [] (first ∷ rest))
      (merge_all-entry_of n [] (all_monitors (first ∷ rest)))

-- Whether some monitor that is available has not run.
pub pending : List Monitor → Bool
pending [] = false
pending (m ∷ ms) = m.available && not m.complete || pending ms

is_empty-incomplete : (ms : List Monitor) → is_empty (incomplete ms) ≡ not (pending ms)
unfolding incomplete pending
is_empty-incomplete [] = refl
is_empty-incomplete (m ∷ ms) = ground (arith, is_empty-incomplete ms)

all_complete_lem :
    (r : Readiness) → all_complete r ≡ (not (lamp r.mil_on) && not (pending r.monitors))
unfolding all_complete
all_complete_lem r = rw is_empty-incomplete

-- An entry that is not available counts as complete.
abbrev IsSound : List Monitor → Type 0
IsSound [] = Unit
IsSound (m ∷ ms) = (m.available || m.complete ≡ true) × IsSound ms

merge-IsSound : (merged : List Monitor) (m : Monitor) → IsSound merged → IsSound (merge merged m)
unfolding merge
merge-IsSound [] m h = ground arith
merge-IsSound (e ∷ es) m h = ground (arith, merge-IsSound es m h.1)

merge-pending :
    (merged : List Monitor) (m : Monitor)
    → IsSound merged
    → pending (merge merged m) ≡ (pending merged || m.available && not m.complete)
unfolding merge pending
merge-pending [] m h = ground arith
merge-pending (e ∷ es) m h = ground (arith, merge-pending es m h.1)

merge_all-pending :
    (merged ms : List Monitor)
    → IsSound merged
    → pending (merge_all merged ms) ≡ (pending merged || pending ms)
unfolding merge_all
merge_all-pending merged [] h = unfold pending in ground arith
merge_all-pending merged (m ∷ ms) h =
    merge_all-pending (merge merged m) ms (merge-IsSound merged m h)
    ∙ unfold pending in ground (arith, merge-pending merged m h)

pending-append : (ms ns : List Monitor) → pending (ms ++ ns) ≡ (pending ms || pending ns)
unfolding pending
pending-append [] ns = refl
pending-append (m ∷ ms) ns = ground (arith, pending-append ms ns)

-- Every ECU has its lamp off and no monitor left to run.
abbrev pub every_complete : List Readiness → Bool
every_complete [] = true
every_complete (r ∷ rs) = all_complete r && every_complete rs

every_complete_lem :
    (rs : List Readiness)
    → (not (lamp (lamps rs)) && not (pending (all_monitors rs))) ≡ every_complete rs
unfolding lamps
every_complete_lem [] = unfold pending in refl
every_complete_lem (r ∷ rs) =
    ground (
      arith,
      every_complete_lem rs,
      pending-append r.monitors (all_monitors rs),
      all_complete_lem r,
    )

-- The combined status is all complete exactly if the status of every ECU is.
pub combine-all_complete :
    (first : Readiness) (rest : List Readiness) (combined : Readiness)
    → combine (first ∷ rest) ≡ some combined
    → all_complete combined ≡ every_complete (first ∷ rest)
unfolding combine
combine-all_complete first rest combined h =
    let p : combined.monitors ≡ merge_readings [] (first ∷ rest) = cc in
    let q : combined.mil_on ≡ lamps (first ∷ rest) = cc in
    let all = all_monitors (first ∷ rest) in
    all_complete_lem combined
    ∙ rw (p, q, merge_readings-merge_all [] (first ∷ rest), merge_all-pending [] all tt)
        (unfold pending in every_complete_lem (first ∷ rest))
