-- ===== src/Profiles/Scores.antt =====
-- src/canopen_studio/diag/profiles/resolver.py: the scores of a profile against what a vehicle says.
-- Scores are counted in halves, so that they are whole numbers.
use canopen_studio.Prelude.{
  ℕ, zero, suc, ◌+◌, ◌*◌, Bool, true, false, not, ◌&&◌, ◌||◌, Option, none, some, List, [], ◌∷◌,
  ◌++◌, map, take, leb, ◌==◌, if◌then◌else◌, length,
}
use canopen_studio.Prelude.Dict.{Key, member, text_same}
use canopen_studio.Prelude.Int.{ℤ, pos, negsuc}
use canopen_studio.Prelude.Text.{upper}
use canopen_studio.Vin.{VinInfo, alternate_model_year}
use canopen_studio.Profiles.{MatchRules, any, given}

abbrev pub score_vin_prefix : ℕ
score_vin_prefix = 8

abbrev pub score_wmi : ℕ
score_wmi = 6

abbrev pub score_year : ℕ
score_year = 4

abbrev pub score_ecu_name : ℕ
score_ecu_name = 2

abbrev pub score_required_pid : ℕ
score_required_pid = 2

abbrev pub score_forbidden_pid_absent : ℕ
score_forbidden_pid_absent = 1

pub data Reason : Type 0 where
  vin_begins : List ℕ → Reason
  manufacturer : List ℕ → Reason
  fitting_year : ℕ → Reason
  supports_all : ℕ → Reason
  lacks_all : ℕ → Reason
  ecu_name_has : List ℕ → Reason
  chosen_by_hand : List ℕ → Reason
  nothing_matched : Reason

-- A score with the reasons for it.
abbrev pub Scored : Type 0
Scored = ℕ × List Reason

-- `text.startswith(prefix)`
unfoldable pub starts_with : List ℕ → List ℕ → Bool
starts_with text [] = true
starts_with [] (d ∷ prefix) = false
starts_with (c ∷ text) (d ∷ prefix) = c == d && starts_with text prefix

-- `fragment in text`
unfoldable pub contains_text : List ℕ → List ℕ → Bool
unfolding starts_with
contains_text fragment [] = starts_with [] fragment
contains_text fragment (c ∷ text) =
    let later = contains_text fragment text in starts_with (c ∷ text) fragment || later

-- The items that pass a test.
unfoldable pub keep {ℓ} : {A : Type ℓ} → (A → Bool) → List A → List A
keep test [] = []
keep test (a ∷ rest) = let kept = keep test rest in if test a then a ∷ kept else kept

abbrev pub first_of {ℓ} : {A : Type ℓ} → List A → Option A
first_of [] = none
first_of (a ∷ rest) = some a

abbrev pub reason_for {ℓ} : {A : Type ℓ} → ℕ → (A → Reason) → Option A → Option Scored
reason_for score reason (some a) = some (score, reason a ∷ [])
reason_for score reason none = none

-- `none` where the rule is contradicted, and no score where there is no rule.
unfoldable pub prefix_score : MatchRules → List ℕ → Option Scored
unfolding starts_with keep
prefix_score rules vin =
    if any rules.vin_prefixes
    then reason_for score_vin_prefix vin_begins
        (first_of (keep (starts_with vin) rules.vin_prefixes))
    else some (0, [])

unfoldable pub wmi_score : MatchRules → List ℕ → Option Scored
wmi_score rules vin =
    if any rules.wmi
    then (if member (take 3 vin) rules.wmi
        then some (score_wmi, manufacturer (take 3 vin) ∷ [])
        else none)
    else some (0, [])

abbrev pub nonzero : Option ℕ → Option ℕ
nonzero none = none
nonzero (some zero) = none
nonzero (some (suc n)) = some (suc n)

abbrev pub years_of : Bool → Option ℕ → Option ℕ → List ℕ
years_of ambiguous none alternate = []
years_of true (some year) (some alternate) = year ∷ alternate ∷ []
years_of true (some year) none = year ∷ []
years_of false (some year) alternate = year ∷ []

unfoldable pub candidate_years : Option VinInfo → List ℕ
unfolding alternate_model_year
candidate_years none = []
candidate_years (some info) =
    years_of info.model_year_is_ambiguous info.model_year (nonzero (alternate_model_year info))

abbrev pub from_fits : Option ℕ → ℕ → Bool
from_fits none year = true
from_fits (some first) year = leb first year

abbrev pub to_fits : Option ℕ → ℕ → Bool
to_fits none year = true
to_fits (some last) year = leb year last

abbrev pub year_fits : MatchRules → ℕ → Bool
year_fits rules year = from_fits rules.year_from year && to_fits rules.year_to year

unfoldable pub year_score : MatchRules → Option VinInfo → Option Scored
unfolding candidate_years keep
year_score rules info =
    if given rules.year_from || given rules.year_to
    then reason_for score_year fitting_year
        (first_of (keep (year_fits rules) (candidate_years info)))
    else some (0, [])

abbrev pub add_scores : Option Scored → Option Scored → Option Scored
add_scores (some (m, why)) (some (n, more)) = some (m + n, why ++ more)
add_scores (some s) none = none
add_scores none s = none

abbrev pub unless_zero : Option Scored → Option Scored
unless_zero none = none
unless_zero (some (zero, why)) = none
unless_zero (some (suc n, why)) = some (suc n, why)

unfoldable pub score_against_vin : MatchRules → List ℕ → Option VinInfo → Option Scored
unfolding prefix_score wmi_score year_score
score_against_vin rules vin info =
    unless_zero (
      add_scores (prefix_score rules vin)
        (add_scores (wmi_score rules vin) (year_score rules info)))

-- `pid in supported`, whose members are not negative
abbrev pub in_supported : List ℕ → ℤ → Bool
in_supported [] pid = false
in_supported (n ∷ supported) (pos pid) = n == pid || in_supported supported (pos pid)
in_supported (n ∷ supported) (negsuc pid) = false

abbrev pub all_supported : List ℕ → List Key → Bool
all_supported supported [] = true
all_supported supported ((mode, pid) ∷ keys) =
    in_supported supported pid && all_supported supported keys

abbrev pub any_supported : List ℕ → List Key → Bool
any_supported supported [] = false
any_supported supported ((mode, pid) ∷ keys) =
    in_supported supported pid || any_supported supported keys

abbrev pub counted {ℓ} : {A : Type ℓ} → ℕ → (ℕ → Reason) → List A → Scored
counted each reason [] = (0, [])
counted each reason (a ∷ rest) = (each * length (a ∷ rest), reason (length (a ∷ rest)) ∷ [])

unfoldable pub score_against_fingerprint : MatchRules → List ℕ → Option Scored
score_against_fingerprint rules supported =
    if not (any rules.required_pids) && not (any rules.forbidden_pids)
    then none
    else if not (all_supported supported rules.required_pids)
    then none
    else if any_supported supported rules.forbidden_pids
    then none
    else add_scores (some (counted score_required_pid supports_all rules.required_pids))
        (some (counted score_forbidden_pid_absent lacks_all rules.forbidden_pids))

-- `" ".join(names)` of the names in capitals
abbrev pub joined : List (List ℕ) → List ℕ
joined [] = []
joined (name ∷ []) = map upper name
joined (name ∷ other ∷ names) = map upper name ++ (b' ' ∷ joined (other ∷ names))

abbrev pub ecu_matches : List (List ℕ) → Option Scored
ecu_matches [] = none
ecu_matches (fragment ∷ rest) =
    some (score_ecu_name * length (fragment ∷ rest), ecu_name_has fragment ∷ [])

unfoldable pub score_ecu_names : MatchRules → List (List ℕ) → Option Scored
unfolding contains_text keep upper
score_ecu_names rules names =
    ecu_matches (keep (λ fragment. contains_text fragment (joined names)) rules.ecu_name_contains)
