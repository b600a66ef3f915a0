-- ===== src/Profiles/Evidence.antt =====
-- Which profiles are candidates, and what the scores say.
use canopen_studio.Prelude.{
  ℕ, suc, ◌≤◌, ◌≡◌, ◌≢◌, ◌↔◌, ◌⊎◌, refl, sym, ◌∙◌, Bool, true, false, not, ◌&&◌, ◌||◌, Bool-cases,
  inl, inr, Option, none, some, List, [], ◌∷◌, take, arith, if◌then◌else◌,
}
use mathlib.Core.List.{Memᴰ}
use canopen_studio.Prelude.Dict.{Key, member, text_same}
use canopen_studio.Vin.{VinInfo}
use canopen_studio.Profiles.{MatchRules, any, given}
use canopen_studio.Profiles.Supported.{Supports, all_supported_iff, any_supported_iff, ruled_iff}
use canopen_studio.Profiles.Scores.{
  Reason, Scored, starts_with, keep, first_of, reason_for, vin_begins, fitting_year,
  score_vin_prefix, score_year, score_wmi, manufacturer, prefix_score, wmi_score, year_score,
  year_fits, candidate_years, add_scores, unless_zero, score_against_vin, score_against_fingerprint,
  all_supported, any_supported,
}
use canopen_studio.Profiles.Resolver.{any_prefix}

abbrev pub any_year : MatchRules → List ℕ → Bool
any_year rules [] = false
any_year rules (year ∷ years) = year_fits rules year || any_year rules years

abbrev pub year_ruled : MatchRules → Bool
year_ruled rules = given rules.year_from || given rules.year_to

-- A rule that is stated is met.
abbrev pub met : Bool → Bool → Bool
met stated holds = not stated || holds

-- Every rule on the number is met, and there is one.
abbrev pub vin_fits : MatchRules → List ℕ → Option VinInfo → Bool
vin_fits rules vin info =
    met (any rules.vin_prefixes) (any_prefix vin rules.vin_prefixes)
    && met (any rules.wmi) (member (take 3 vin) rules.wmi)
    && met (year_ruled rules) (any_year rules (candidate_years info))
    && (any rules.vin_prefixes || any rules.wmi || year_ruled rules)

-- There is a rule on the PIDs, the vehicle has every PID that is required, and none that is forbidden.
abbrev pub FitsPids : MatchRules → List ℕ → Type 0
FitsPids rules supported =
    ((rules.required_pids ≢ []) ⊎ (rules.forbidden_pids ≢ []))
    × ((key : Key) → Memᴰ key rules.required_pids → Supports supported key.1)
    × ((key : Key) → Memᴰ key rules.forbidden_pids → ¬ Supports supported key.1)

keep-prefix :
    (vin : List ℕ) (prefixes : List (List ℕ))
    → given (reason_for score_vin_prefix vin_begins (first_of (keep (starts_with vin) prefixes)))
      ≡ any_prefix vin prefixes
unfolding keep
keep-prefix vin [] = refl
keep-prefix vin (prefix ∷ prefixes) = elim (Bool-cases (starts_with vin prefix)) [
  | inl t ↦ rw t refl
  | inr t ↦ rw t (keep-prefix vin prefixes)
]

keep-year :
    (rules : MatchRules) (years : List ℕ)
    → given (reason_for score_year fitting_year (first_of (keep (year_fits rules) years)))
      ≡ any_year rules years
unfolding keep
keep-year rules [] = refl
keep-year rules (year ∷ years) = elim (Bool-cases (year_fits rules year)) [
  | inl t ↦ rw t refl
  | inr t ↦ rw t (keep-year rules years)
]

-- A score that is not zero.
abbrev Positive : Option Scored → Type 0
Positive none = Unit
Positive (some (n, why)) = 1 ≤ n

rules_given :
    (a b c : Bool) (x y z : Option Scored)
    → Positive x
    → Positive y
    → Positive z
    → given (
        unless_zero (
          add_scores
            (if a then x else some (0, []))
            (add_scores (if b then y else some (0, [])) (if c then z else some (0, [])))))
      ≡ (met a (given x) && met b (given y) && met c (given z) && (a || b || c))
rules_given a b c x y z p q r = ground arith

reason_for-Positive {ℓ} :
    {A : Type ℓ} (n : ℕ) (reason : A → Reason) (o : Option A)
    → Positive (reason_for (suc n) reason o)
reason_for-Positive n reason none = tt
reason_for-Positive n reason (some a) = omega arith

wmi_found : MatchRules → List ℕ → Option Scored
wmi_found rules vin =
    if member (take 3 vin) rules.wmi then some (score_wmi, manufacturer (take 3 vin) ∷ []) else none

wmi_found-given :
    (rules : MatchRules) (vin : List ℕ)
    → given (wmi_found rules vin) ≡ member (take 3 vin) rules.wmi
unfolding wmi_found
wmi_found-given rules vin = ground arith

wmi_found-Positive : (rules : MatchRules) (vin : List ℕ) → Positive (wmi_found rules vin)
unfolding wmi_found
wmi_found-Positive rules vin = elim (Bool-cases (member (take 3 vin) rules.wmi)) [
  | inl t ↦ rw t (omega arith)
  | inr t ↦ rw t tt
]

-- A number scores for a profile exactly if every rule that the profile states on the number is met,
-- and it states one: a prefix, a manufacturer, or years that one of the years of the number lies in.
pub score_against_vin-fits :
    (rules : MatchRules) (vin : List ℕ) (info : Option VinInfo)
    → given (score_against_vin rules vin info) ≡ vin_fits rules vin info
unfolding score_against_vin prefix_score wmi_score year_score wmi_found
score_against_vin-fits rules vin info =
    let x =
      reason_for score_vin_prefix vin_begins
        (first_of (keep (starts_with vin) rules.vin_prefixes)) in
    let z =
      reason_for score_year fitting_year
        (first_of (keep (year_fits rules) (candidate_years info))) in
    rules_given (any rules.vin_prefixes) (any rules.wmi) (year_ruled rules) x (wmi_found rules vin)
      z (reason_for-Positive 7 vin_begins (first_of (keep (starts_with vin) rules.vin_prefixes)))
      (wmi_found-Positive rules vin)
      (reason_for-Positive 3 fitting_year
        (first_of (keep (year_fits rules) (candidate_years info))))
    ∙ (rw
        (
          keep-prefix vin rules.vin_prefixes,
          keep-year rules (candidate_years info),
          wmi_found-given rules vin,
        )
        refl)

pids_given :
    (rules : MatchRules) (supported : List ℕ)
    → given (score_against_fingerprint rules supported) ≡ (
        (any rules.required_pids || any rules.forbidden_pids)
        && all_supported supported rules.required_pids
        && not (any_supported supported rules.forbidden_pids))
unfolding score_against_fingerprint
pids_given rules supported = ground arith

and_parts : (a b c : Bool) → ((a && b && not c) ≡ true) ↔ ((a ≡ true) × (b ≡ true) × (c ≡ false))
and_parts a b c = (
  λ h. (ground (arith, h), ground (arith, h), ground (arith, h)),
  λ (p, q, r). ground (arith, p, q, r),
)

-- The PIDs of a vehicle score for a profile exactly if it states a rule on them, the vehicle has all
-- that it requires, and none that it forbids; only the number of a PID is compared, not its mode.
pub score_against_fingerprint-fits :
    (rules : MatchRules) (supported : List ℕ)
    → (given (score_against_fingerprint rules supported) ≡ true) ↔ FitsPids rules supported
score_against_fingerprint-fits rules supported =
    let (parts, whole) =
      and_parts (any rules.required_pids || any rules.forbidden_pids)
        (all_supported supported rules.required_pids)
        (any_supported supported rules.forbidden_pids) in
    let (ruled, ruled_back) = ruled_iff rules.required_pids rules.forbidden_pids in
    let (all, all_back) = all_supported_iff supported rules.required_pids in
    let (no_one, no_one_back) = any_supported_iff supported rules.forbidden_pids in
    (
      λ h.
          let (p, q, r) = parts (sym (pids_given rules supported) ∙ h) in
          (ruled p, all q, no_one r),
      λ (p, q, r). pids_given rules supported ∙ whole (ruled_back p, all_back q, no_one_back r),
    )
