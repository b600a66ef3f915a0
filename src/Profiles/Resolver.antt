-- ===== src/Profiles/Resolver.antt =====
-- src/canopen_studio/diag/profiles/resolver.py: the stages, and the choice between candidates.
use canopen_studio.Prelude.{
  ℕ, ◌+◌, Bool, true, false, not, ◌&&◌, ◌||◌, Option, none, some, List, [], ◌∷◌, ◌++◌, map, take,
  ltb, leb, if◌then◌else◌, Result, ok, err,
}
use canopen_studio.Prelude.Dict.{member, text_same}
use canopen_studio.Prelude.Sort.{sort}
use canopen_studio.Prelude.Text.{upper, text_eq}
use canopen_studio.Vin.{VinInfo, VinError, parse_vin}
use canopen_studio.Profiles.{MatchRules, ProfileError, base_profile_id, any, is_empty}
use canopen_studio.Profiles.Merge.{ResolvedProfile}
use canopen_studio.Profiles.Library.{Library, base, resolve_profile, resolved_profiles}
use canopen_studio.Profiles.Scores.{
  Reason, chosen_by_hand, nothing_matched, Scored, starts_with, score_against_vin,
  score_against_fingerprint, score_ecu_names,
}

-- What a vehicle says about itself; the fingerprint is the set of PIDs that it supports.
pub record Identity : Type 0 where
  pub vin : List ℕ
  pub vin_info : Option VinInfo
  pub ecu_names : List (List ℕ)
  pub fingerprint : List ℕ

pub data Stage : Type 0 where
  manual_stage vin_stage fingerprint_stage fallback_stage : Stage

pub record Candidate (V W : Type 0) : Type 0 where
  pub score : ℕ
  pub reasons : List Reason
  pub profile : ResolvedProfile V W

pub record Match (V W : Type 0) : Type 0 where
  pub profile : ResolvedProfile V W
  pub stage : Stage
  pub score : ℕ
  pub reasons : List Reason

abbrev pub as_match : {V W : Type 0} → Stage → Candidate V W → Match V W
as_match stage c = record {
  profile = c.profile;
  stage = stage;
  score = c.score;
  reasons = c.reasons;
}

-- `max` by the score: the first of the greatest.
unfoldable pub best_from : {V W : Type 0} → Candidate V W → List (Candidate V W) → Candidate V W
best_from c [] = c
best_from c (d ∷ rest) = best_from (if ltb c.score d.score then d else c) rest

abbrev pub best : {V W : Type 0} → List (Candidate V W) → Option (Candidate V W)
best [] = none
best (c ∷ rest) = some (best_from c rest)

abbrev pub with_extra : Scored → Option Scored → Scored
with_extra (score, reasons) none = (score, reasons)
with_extra (score, reasons) (some (extra, more)) = (score + extra, reasons ++ more)

-- A candidate of a profile that was scored, with what the names of its controllers add.
unfoldable pub candidate_of :
    {V W : Type 0}
    → List (List ℕ)
    → ResolvedProfile V W
    → Option Scored
    → List (Candidate V W)
    → List (Candidate V W)
unfolding score_ecu_names
candidate_of names profile none rest = rest
candidate_of names profile (some scored) rest =
    let (score, reasons) = with_extra scored (score_ecu_names profile.rules names) in
    record { score = score; reasons = reasons; profile = profile } ∷ rest

abbrev pub info_or_none : Result VinError VinInfo → Option VinInfo
info_or_none (ok info) = some info
info_or_none (err e) = none

unfoldable pub info_for : Identity → Option VinInfo
unfolding parse_vin
info_for identity = elim identity.vin_info [
  | some info ↦ some info
  | none ↦ info_or_none (parse_vin identity.vin none)
]

unfoldable pub vin_candidates :
    {V W : Type 0} → Identity → List (ResolvedProfile V W) → List (Candidate V W)
unfolding candidate_of info_for upper score_against_vin
vin_candidates identity [] = []
vin_candidates identity (profile ∷ profiles) =
    candidate_of identity.ecu_names profile
      (score_against_vin profile.rules (map upper identity.vin) (info_for identity))
      (vin_candidates identity profiles)

abbrev pub any_prefix : List ℕ → List (List ℕ) → Bool
any_prefix vin [] = false
any_prefix vin (prefix ∷ prefixes) = starts_with vin prefix || any_prefix vin prefixes

unfoldable pub contradicts_vin : MatchRules → Identity → Bool
unfolding starts_with upper
contradicts_vin rules identity =
    let vin = map upper identity.vin in
    if not (any identity.vin)
    then false
    else if any rules.wmi && not (member (take 3 vin) rules.wmi)
    then true
    else any rules.vin_prefixes && not (any_prefix vin rules.vin_prefixes)

unfoldable pub fingerprint_candidates :
    {V W : Type 0} → Identity → List (ResolvedProfile V W) → List (Candidate V W)
unfolding candidate_of contradicts_vin score_against_fingerprint
fingerprint_candidates identity [] = []
fingerprint_candidates identity (profile ∷ profiles) =
    let rest = fingerprint_candidates identity profiles in
    if contradicts_vin profile.rules identity
    then rest
    else candidate_of identity.ecu_names profile
        (score_against_fingerprint profile.rules identity.fingerprint) rest

unfoldable pub specific : {V W : Type 0} → List (ResolvedProfile V W) → List (ResolvedProfile V W)
unfolding is_empty
specific [] = []
specific (profile ∷ profiles) =
    let rest = specific profiles in
    if not (text_eq profile.id base_profile_id) && not (is_empty profile.rules)
    then profile ∷ rest
    else rest

-- Both stages read all profiles, and leave the library as that leaves it.
unfoldable pub score_vin_stage :
    {V W : Type 0} → Library V W → Identity → List (Candidate V W) × Library V W
unfolding vin_candidates specific resolved_profiles
score_vin_stage library identity =
    let (profiles, after) = resolved_profiles library in
    if any identity.vin then (vin_candidates identity (specific profiles), after) else ([], library)

unfoldable pub score_fingerprint_stage :
    {V W : Type 0} → Library V W → Identity → List (Candidate V W) × Library V W
unfolding fingerprint_candidates specific resolved_profiles
score_fingerprint_stage library identity =
    let (profiles, after) = resolved_profiles library in
    if any identity.fingerprint
    then (fingerprint_candidates identity (specific profiles), after)
    else ([], library)

abbrev pub fallback_match :
    {V W : Type 0} → Result ProfileError (ResolvedProfile V W) → Result ProfileError (Match V W)
fallback_match (ok profile) = ok (record {
  profile = profile;
  stage = fallback_stage;
  score = 0;
  reasons = nothing_matched ∷ [];
})
fallback_match (err e) = err e

unfoldable pub fallback :
    {V W : Type 0} → Library V W → Result ProfileError (Match V W) × Library V W
unfolding base
fallback library = let (result, after) = base library in (fallback_match result, after)

abbrev pub manual_match :
    {V W : Type 0}
    → List ℕ
    → Result ProfileError (ResolvedProfile V W)
    → Result ProfileError (Match V W)
manual_match id (ok profile) = ok (record {
  profile = profile;
  stage = manual_stage;
  score = 0;
  reasons = chosen_by_hand id ∷ [];
})
manual_match id (err e) = err e

-- The stages of a vehicle that said something about itself.
unfoldable pub by_fingerprint :
    {V W : Type 0} → Library V W → Identity → Result ProfileError (Match V W) × Library V W
unfolding score_fingerprint_stage fallback
by_fingerprint library identity =
    let (candidates, after) = score_fingerprint_stage library identity in
    elim (best candidates) [
      | some c ↦ (ok (as_match fingerprint_stage c), after)
      | none ↦ fallback after
    ]

unfoldable pub by_vin :
    {V W : Type 0} → Library V W → Identity → Result ProfileError (Match V W) × Library V W
unfolding score_vin_stage by_fingerprint
by_vin library identity =
    let (candidates, after) = score_vin_stage library identity in
    elim (best candidates) [
      | some c ↦ (ok (as_match vin_stage c), after)
      | none ↦ by_fingerprint after identity
    ]

unfoldable pub resolve_vehicle :
    {V W : Type 0}
    → Library V W
    → Option Identity
    → List ℕ
    → Result ProfileError (Match V W) × Library V W
unfolding resolve_profile by_vin fallback
resolve_vehicle library identity manual =
    if any manual
    then (let (result, after) = resolve_profile library manual in
        (manual_match manual result, after))
    else elim identity [ none ↦ fallback library | some said ↦ by_vin library said ]

-- Every profile that fits, the best first.
unfoldable pub fitting : {V W : Type 0} → Library V W → Identity → List (Match V W) × Library V W
unfolding score_vin_stage score_fingerprint_stage sort
fitting library identity =
    let (by_number, after) = score_vin_stage library identity in
    let (by_pids, final) = score_fingerprint_stage after identity in
    (
      sort (λ m n. leb n.score m.score)
          (map (as_match vin_stage) by_number ++ map (as_match fingerprint_stage) by_pids),
      final,
    )
