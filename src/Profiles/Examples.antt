-- ===== src/Profiles/Examples.antt =====
-- A base profile and a make that extends it, for a vehicle whose number is known.
use canopen_studio.Prelude.{
  ℕ, ◌≡◌, refl, true, false, none, some, List, [], ◌∷◌, map, arith, ◌≤◌, ◌↔◌, ok, err, is_ok,
  Result, Option,
}
use canopen_studio.Prelude.Dict.{find, put, erase, update, text_same, key_same}
use canopen_studio.Prelude.Int.{pos}
use canopen_studio.Prelude.Sort.{sort, insert_sorted}
use canopen_studio.Prelude.Text.{codes, upper, strip, lstrip, is_space}
use canopen_studio.Pids.{Definition}
use canopen_studio.Pids.Table.{add_entries, get_definition, merged_with}
use canopen_studio.Profiles.{
  given, ProfileError, needs_an_id, rules_of, as_tuple, as_pids, inheritance_loops, MatchRules,
  Profile, base_profile_id, is_empty, Document, profile_of,
}
use canopen_studio.Vin.{
  parse_vin, is_valid_vin, clean_vin, decode_model_year, alternate_model_year, index_in,
}
use canopen_studio.Profiles.Merge.{
  ResolvedProfile, merge_chain, merge_tables, merge_descriptions, merge_whitelist, last_of,
}
use canopen_studio.Profiles.Library.{
  Library, max_depth, climb, chain_of, resolve_profile, add_profile, base, load, load_files, reload,
  resolve_each, resolved_profiles, ids,
}
use canopen_studio.Profiles.Chains.{Inherits, chain_of-Inherits}
use canopen_studio.Profiles.Merged.{most_specific, last_wording, whitelists, merge_chain-layers}
use canopen_studio.Profiles.Cache.{
  Coherent, merged_profile, resolve_profile-Coherent, add_profile-stale,
}
use canopen_studio.Profiles.Scores.{
  score_against_fingerprint, manufacturer, score_against_vin, prefix_score, wmi_score, year_score,
  score_ecu_names, keep, candidate_years,
}
use canopen_studio.Profiles.Evidence.{
  vin_fits, FitsPids, score_against_vin-fits, score_against_fingerprint-fits,
}
use canopen_studio.Profiles.Resolver.{
  by_vin, score_vin_stage, vin_candidates, candidate_of, specific, best_from, info_for, Identity,
  Match, resolve_vehicle, vin_stage, by_fingerprint, score_fingerprint_stage,
  fingerprint_candidates, contradicts_vin, Stage, fingerprint_stage,
}
use canopen_studio.Profiles.Matches.{Rests, resolve_vehicle-Rests}
use canopen_studio.Profiles.Answers.{reload-answers}

abbrev no_rules : MatchRules
no_rules = record {
  wmi = [];
  vin_prefixes = [];
  year_from = none;
  year_to = none;
  required_pids = [];
  forbidden_pids = [];
  ecu_name_contains = [];
}

abbrev speed_definition : List ℕ → Definition ℕ
speed_definition name = record {
  mode = pos 1;
  pid = pos 13;
  name = name;
  formula = none;
  values = none;
  bits = none;
  ascii = false;
}

-- The whitelist is of numbers here.
abbrev base_profile : Profile ℕ ℕ
base_profile = record {
  id = base_profile_id;
  name = codes "base";
  extends = none;
  table = ((pos 1, pos 13), speed_definition (codes "speed")) ∷ [];
  dtc_descriptions = (codes "P0001", codes "fuel") ∷ [];
  rules = no_rules;
  write_whitelist = 1 ∷ [];
}

abbrev make_profile : Profile ℕ ℕ
make_profile = record {
  id = codes "make";
  name = codes "make";
  extends = some base_profile_id;
  table = ((pos 1, pos 13), speed_definition (codes "road_speed")) ∷ [];
  dtc_descriptions = [];
  rules = record no_rules { wmi = codes "1M8" ∷ []; forbidden_pids = (pos 1, pos 5) ∷ [] };
  write_whitelist = 2 ∷ [];
}

abbrev both : List (List ℕ × Profile ℕ ℕ)
both = (base_profile_id, base_profile) ∷ (codes "make", make_profile) ∷ []

make_chain : chain_of both (codes "make") ≡ ok (base_profile ∷ make_profile ∷ [])
unfolding chain_of climb find
make_chain = refl

chain_of-Inherits_example :
    (chain_of both (codes "make") ≡ ok (base_profile ∷ make_profile ∷ []))
    ↔ (Inherits both (codes "make") (base_profile ∷ make_profile ∷ []) × (2 ≤ max_depth))
chain_of-Inherits_example = chain_of-Inherits both (codes "make") (base_profile ∷ make_profile ∷ [])

-- A profile that extends itself.
loop_refused :
    chain_of ((codes "a", record make_profile { extends = some (codes "a") }) ∷ []) (codes "a")
    ≡ err inheritance_loops
unfolding chain_of climb find
loop_refused = refl

abbrev make_merged : ResolvedProfile ℕ ℕ
make_merged = record {
  id = codes "make";
  name = codes "make";
  table = make_profile.table;
  dtc_descriptions = base_profile.dtc_descriptions;
  rules = make_profile.rules;
  write_whitelist = 1 ∷ 2 ∷ [];
  lineage = base_profile_id ∷ codes "make" ∷ [];
}

make_merges : merge_chain (base_profile ∷ make_profile ∷ []) ≡ ok make_merged
unfolding merge_chain merge_tables merge_descriptions merge_whitelist merged_with update put
make_merges = refl

merge_chain-layers_example :
    (get_definition (pos 1) (pos 13) make_merged.table
      ≡ most_specific (pos 1) (pos 13) (base_profile ∷ make_profile ∷ []))
    × (find (codes "P0001") make_merged.dtc_descriptions
        ≡ last_wording (codes "P0001") (base_profile ∷ make_profile ∷ []))
    × (make_merged.write_whitelist ≡ whitelists (base_profile ∷ make_profile ∷ []))
    × (make_merged.id ≡ (last_of base_profile (make_profile ∷ [])).id)
    × (make_merged.name ≡ (last_of base_profile (make_profile ∷ [])).name)
    × (make_merged.rules ≡ (last_of base_profile (make_profile ∷ [])).rules)
    × (make_merged.lineage ≡ map (λ q. q.id) (base_profile ∷ make_profile ∷ []))
merge_chain-layers_example =
    merge_chain-layers base_profile (make_profile ∷ []) make_merged (pos 1) (pos 13) (codes "P0001")
      (unfold find in (((refl, tt), (refl, tt)), (((refl, tt), tt), tt))) make_merges

abbrev base_merged : ResolvedProfile ℕ ℕ
base_merged = record {
  id = base_profile_id;
  name = codes "base";
  table = base_profile.table;
  dtc_descriptions = base_profile.dtc_descriptions;
  rules = no_rules;
  write_whitelist = 1 ∷ [];
  lineage = base_profile_id ∷ [];
}

abbrev fresh : Library ℕ ℕ
fresh = record { profiles = both; errors = []; resolved = [] }

fresh-Coherent : Coherent fresh
unfolding find
fresh-Coherent id r h = ground (arith, h)

resolve_profile-Coherent_example :
    ((resolve_profile fresh (codes "make")).0 ≡ merged_profile both (codes "make"))
    × ((resolve_profile fresh (codes "make")).1.profiles ≡ both)
    × Coherent (resolve_profile fresh (codes "make")).1
resolve_profile-Coherent_example = resolve_profile-Coherent fresh (codes "make") fresh-Coherent

-- The make was resolved; then a base with another wording is added.
abbrev resolved_once : Library ℕ ℕ
resolved_once = record { profiles = both; errors = []; resolved = (codes "make", make_merged) ∷ [] }

abbrev other_base : Profile ℕ ℕ
other_base = record base_profile { dtc_descriptions = (codes "P0001", codes "other") ∷ [] }

add_profile-stale_example :
    (resolve_profile (add_profile resolved_once other_base) (codes "make")).0 ≡ ok make_merged
add_profile-stale_example =
    add_profile-stale resolved_once other_base (codes "make") make_merged (unfold find in refl) refl

-- Without the cache the new wording comes out.
other_wording :
    (merged_profile (add_profile resolved_once other_base).profiles (codes "make"))
    ≡ ok (record make_merged { dtc_descriptions = (codes "P0001", codes "other") ∷ [] })
unfolding add_profile put erase chain_of climb find merge_chain merge_tables merge_descriptions
    merge_whitelist merged_with update
other_wording = refl

abbrev vehicle : Identity
vehicle = record {
  vin = codes "1M8GDM9AXKP042788";
  vin_info = none;
  ecu_names = [];
  fingerprint = 5 ∷ 12 ∷ [];
}

-- The vehicle supports PID 05, which the profile forbids; the number alone decides.
abbrev vehicle_match : Match ℕ ℕ
vehicle_match = record {
  profile = make_merged;
  stage = vin_stage;
  score = 6;
  reasons = manufacturer (codes "1M8") ∷ [];
}

vehicle_resolved : (resolve_vehicle fresh (some vehicle) []).0 ≡ ok vehicle_match
unfolding resolve_vehicle by_vin score_vin_stage vin_candidates candidate_of specific is_empty
    resolved_profiles resolve_each ids sort insert_sorted resolve_profile put find chain_of climb
    merge_chain merge_tables merge_descriptions merge_whitelist merged_with update score_against_vin
    prefix_score wmi_score year_score score_ecu_names keep upper best_from info_for
vehicle_resolved = refl

resolve_vehicle-Rests_example : Rests vehicle vin_stage make_merged
resolve_vehicle-Rests_example = resolve_vehicle-Rests fresh vehicle vehicle_match vehicle_resolved

abbrev empty_library : Library ℕ ℕ
empty_library = record { profiles = []; errors = []; resolved = [] }

-- Only the base is read well.
abbrev base_loaded : Library ℕ ℕ
base_loaded = record {
  profiles = (base_profile_id, base_profile) ∷ [];
  errors = needs_an_id ∷ [];
  resolved = (base_profile_id, base_merged) ∷ [];
}

base_reloaded : reload empty_library (err needs_an_id ∷ ok base_profile ∷ []) ≡ ok base_loaded
unfolding reload load load_files base resolve_profile put find chain_of climb merge_chain
    merge_tables merge_descriptions merge_whitelist merged_with update
base_reloaded = refl

reload-answers_example : is_ok (resolve_vehicle base_loaded (some vehicle) []).0 ≡ true
reload-answers_example =
    reload-answers empty_library base_loaded (err needs_an_id ∷ ok base_profile ∷ []) (some vehicle)
      base_reloaded

-- A parent given as the empty text is no parent, though the profile is not the base.
abbrev orphan : Document ℕ ℕ
orphan = record {
  id = codes "orphan";
  name = [];
  extends = some [];
  pids = [];
  dtcs = [];
  match_section = record {
    wmi = [];
    vin_prefixes = [];
    year_from = none;
    year_to = none;
    required_pids = [];
    forbidden_pids = [];
    ecu_name_contains = [];
  };
  write_whitelist = [];
}

orphan_read :
    profile_of orphan
    ≡ ok (record {
      id = codes "orphan";
      name = codes "orphan";
      extends = none;
      table = [];
      dtc_descriptions = [];
      rules = no_rules;
      write_whitelist = [];
    })
unfolding profile_of strip lstrip is_space add_entries rules_of as_tuple as_pids
orphan_read = refl

score_against_vin-fits_example :
    given (score_against_vin make_profile.rules (codes "1M8GDM9AXKP042788") none)
    ≡ vin_fits make_profile.rules (codes "1M8GDM9AXKP042788") none
score_against_vin-fits_example =
    score_against_vin-fits make_profile.rules (codes "1M8GDM9AXKP042788") none

score_against_fingerprint-fits_example :
    (given (score_against_fingerprint make_profile.rules (12 ∷ [])) ≡ true)
    ↔ FitsPids make_profile.rules (12 ∷ [])
score_against_fingerprint-fits_example = score_against_fingerprint-fits make_profile.rules (12 ∷ [])

-- A profile for cars of 2030 and later is chosen by the PIDs for a car whose number says an earlier
-- year.
abbrev later_profile : Profile ℕ ℕ
later_profile = record make_profile {
  rules = record no_rules { year_from = some 2030; required_pids = (pos 1, pos 5) ∷ [] };
}

abbrev later_library : Library ℕ ℕ
later_library = record {
  profiles = (base_profile_id, base_profile) ∷ (codes "make", later_profile) ∷ [];
  errors = [];
  resolved = [];
}

abbrev stage_of : Result ProfileError (Match ℕ ℕ) → Option Stage
stage_of (ok m) = some m.stage
stage_of (err e) = none

years_passed_over :
    stage_of (resolve_vehicle later_library (some vehicle) []).0 ≡ some fingerprint_stage
unfolding resolve_vehicle by_vin by_fingerprint score_vin_stage score_fingerprint_stage
    vin_candidates fingerprint_candidates contradicts_vin score_against_fingerprint candidate_of
    specific is_empty resolved_profiles resolve_each ids sort insert_sorted resolve_profile put find
    chain_of climb merge_chain merge_tables merge_descriptions merge_whitelist merged_with update
    score_against_vin prefix_score wmi_score year_score score_ecu_names keep upper best_from
    info_for candidate_years parse_vin is_valid_vin clean_vin decode_model_year index_in strip
    lstrip is_space alternate_model_year
years_passed_over = refl
