-- ===== src/Profiles/Matches.antt =====
-- What the profile that a vehicle is given fits.
use canopen_studio.Prelude.{
  ℕ, ◌≤◌, Bool, not, ◌||◌, ◌&&◌, take, ◌≡◌, refl, sym, ◌∙◌, true, false, ltb→lt, Bool-cases,
  Option-cases, inl, inr, Option, none, some, List, [], ◌∷◌, map, arith, ltb, Result, ok, err,
  ok_injective, All,
}
use mathlib.Core.Path.{subst}
use canopen_studio.Prelude.Text.{upper}
use canopen_studio.Prelude.Dict.{member, text_same}
use canopen_studio.Profiles.{MatchRules, ProfileError, any, given}
use canopen_studio.Profiles.Merge.{ResolvedProfile}
use canopen_studio.Profiles.Library.{Library, resolved_profiles}
use canopen_studio.Profiles.Scores.{Scored, score_against_vin, score_against_fingerprint}
use canopen_studio.Profiles.Resolver.{
  any_prefix, Identity, Stage, manual_stage, vin_stage, fingerprint_stage, fallback_stage,
  Candidate, Match, as_match, best, best_from, candidate_of, info_for, vin_candidates,
  fingerprint_candidates, contradicts_vin, specific, score_vin_stage, score_fingerprint_stage,
  fallback, fallback_match, by_fingerprint, by_vin, resolve_vehicle,
}
use canopen_studio.Profiles.Evidence.{
  vin_fits, FitsPids, met, score_against_vin-fits, score_against_fingerprint-fits,
}

undo_negation : (b : Bool) → not b ≡ false → b ≡ true
undo_negation b h = ground (arith, h)

-- Where the number is known, the rules on its manufacturer and on how it begins are met.
abbrev pub maker_fits : Identity → MatchRules → Bool
maker_fits identity rules =
    let vin = map upper identity.vin in
    not (any identity.vin)
    || (met (any rules.wmi) (member (take 3 vin) rules.wmi)
        && met (any rules.vin_prefixes) (any_prefix vin rules.vin_prefixes))

contradicts_vin-maker_fits :
    (rules : MatchRules) (identity : Identity)
    → contradicts_vin rules identity ≡ not (maker_fits identity rules)
unfolding contradicts_vin
contradicts_vin-maker_fits rules identity = ground arith

module _ {V W : Type 0} where
  best_from-All :
      (P : Candidate V W → Type 0) (c : Candidate V W) (rest : List (Candidate V W))
      → P c
      → All P rest
      → P (best_from c rest)
  unfolding best_from
  best_from-All P c [] p h = p
  best_from-All P c (d ∷ rest) p (q, h) = elim (Bool-cases (ltb c.score d.score)) [
    | inl t ↦ rw t (best_from-All P d rest q h)
    | inr t ↦ rw t (best_from-All P c rest p h)
  ]

  best_from-greatest :
      (c : Candidate V W) (rest : List (Candidate V W)) (m : Candidate V W)
      → best_from c rest ≡ m
      → (c.score ≤ m.score) × All (λ d. d.score ≤ m.score) rest
  unfolding best_from
  best_from-greatest c [] m h = (rw h (omega arith), tt)
  best_from-greatest c (d ∷ rest) m h = elim (Bool-cases (ltb c.score d.score)) [
    | inl t ↦
        let (p, q) = best_from-greatest d rest m (rw (t, best_from) at h) in
        (omega (arith, ltb→lt c.score d.score t, p), (p, q))
    | inr t ↦
        let (p, q) = best_from-greatest c rest m (rw (t, best_from) at h) in
        (p, (ground (arith, t, p), q))
  ]

  -- A stage passes over no candidate that scores more than the one it takes.
  pub best-greatest :
      (candidates : List (Candidate V W)) (c : Candidate V W)
      → best candidates ≡ some c
      → All (λ d. d.score ≤ c.score) candidates
  best-greatest [] c h = tt
  best-greatest (d ∷ rest) c h = best_from-greatest d rest c (ground (arith, h))

  candidate_of-All :
      (P : ResolvedProfile V W → Type 0) (names : List (List ℕ)) (profile : ResolvedProfile V W)
      (scored : Option Scored) (rest : List (Candidate V W))
      → (given scored ≡ true → P profile)
      → All (λ c. P c.profile) rest
      → All (λ c. P c.profile) (candidate_of names profile scored rest)
  unfolding candidate_of
  candidate_of-All P names profile none rest p h = h
  candidate_of-All P names profile (some scored) rest p h = (p refl, h)

  -- What a profile that was chosen by the number, or by the PIDs, fits.
  abbrev pub FitsVin : Identity → ResolvedProfile V W → Type 0
  FitsVin identity profile =
      vin_fits profile.rules (map upper identity.vin) (info_for identity) ≡ true

  abbrev pub FitsFingerprint : Identity → ResolvedProfile V W → Type 0
  FitsFingerprint identity profile =
      FitsPids profile.rules identity.fingerprint × (maker_fits identity profile.rules ≡ true)

  vin_candidates-fit :
      (identity : Identity) (profiles : List (ResolvedProfile V W))
      → All (λ c. FitsVin identity c.profile) (vin_candidates identity profiles)
  unfolding vin_candidates
  vin_candidates-fit identity [] = tt
  vin_candidates-fit identity (profile ∷ profiles) =
      candidate_of-All (FitsVin identity) identity.ecu_names profile
        (score_against_vin profile.rules (map upper identity.vin) (info_for identity))
        (vin_candidates identity profiles)
        (λ g.
          sym (score_against_vin-fits profile.rules (map upper identity.vin) (info_for identity))
          ∙ g)
        (vin_candidates-fit identity profiles)

  fingerprint_candidates-fit :
      (identity : Identity) (profiles : List (ResolvedProfile V W))
      → All (λ c. FitsFingerprint identity c.profile) (fingerprint_candidates identity profiles)
  unfolding fingerprint_candidates
  fingerprint_candidates-fit identity [] = tt
  fingerprint_candidates-fit identity (profile ∷ profiles) =
      elim (Bool-cases (contradicts_vin profile.rules identity)) [
        | inl t ↦ rw t (fingerprint_candidates-fit identity profiles)
        | inr t ↦ rw t (
            candidate_of-All (FitsFingerprint identity) identity.ecu_names profile
              (score_against_fingerprint profile.rules identity.fingerprint)
              (fingerprint_candidates identity profiles)
              (λ g. (
                (score_against_fingerprint-fits profile.rules identity.fingerprint).0 g,
                undo_negation _ (sym (contradicts_vin-maker_fits profile.rules identity) ∙ t),
              ))
              (fingerprint_candidates-fit identity profiles))
      ]

  best-All :
      (P : Candidate V W → Type 0) (candidates : List (Candidate V W)) (c : Candidate V W)
      → best candidates ≡ some c
      → All P candidates
      → P c
  best-All P [] c h k = ground (arith, h)
  best-All P (d ∷ rest) c h (p, k) =
      let e : best_from d rest ≡ c = ground (arith, h) in subst P e (best_from-All P d rest p k)

  -- What a match rests on, by its stage.
  abbrev pub Rests : Identity → Stage → ResolvedProfile V W → Type 0
  Rests identity vin_stage profile = FitsVin identity profile
  Rests identity fingerprint_stage profile = FitsFingerprint identity profile
  Rests identity manual_stage profile = Unit
  Rests identity fallback_stage profile = Unit

  score_vin_stage-fit :
      (library : Library V W) (identity : Identity)
      → All (λ c. FitsVin identity c.profile) (score_vin_stage library identity).0
  unfolding score_vin_stage
  score_vin_stage-fit library identity = elim (Bool-cases (any identity.vin)) [
    | inl t ↦ rw t (vin_candidates-fit identity (specific (resolved_profiles library).0))
    | inr t ↦ rw t tt
  ]

  score_fingerprint_stage-fit :
      (library : Library V W) (identity : Identity)
      → All (λ c. FitsFingerprint identity c.profile) (score_fingerprint_stage library identity).0
  unfolding score_fingerprint_stage
  score_fingerprint_stage-fit library identity = elim (Bool-cases (any identity.fingerprint)) [
    | inl t ↦ rw t (fingerprint_candidates-fit identity (specific (resolved_profiles library).0))
    | inr t ↦ rw t tt
  ]

  fallback_match-Rests :
      (identity : Identity) (r : Result ProfileError (ResolvedProfile V W)) (m : Match V W)
      → fallback_match r ≡ ok m
      → Rests identity m.stage m.profile
  fallback_match-Rests identity (ok profile) m h = rw (sym (ok_injective _ m h)) tt
  fallback_match-Rests identity (err e) m h = ground (arith, h)

  by_fingerprint-Rests :
      (library : Library V W) (identity : Identity) (m : Match V W)
      → (by_fingerprint library identity).0 ≡ ok m
      → Rests identity m.stage m.profile
  unfolding by_fingerprint fallback
  by_fingerprint-Rests library identity m h =
      elim (Option-cases (best (score_fingerprint_stage library identity).0)) [
        | inl e ↦ fallback_match-Rests identity _ m (rw (e, by_fingerprint) at h)
        | inr (c, e) ↦
            let k : ok (as_match fingerprint_stage c) ≡ ok m = rw (e, by_fingerprint) at h in
            rw (sym (ok_injective _ m k)) (
              best-All (λ d. FitsFingerprint identity d.profile)
                (score_fingerprint_stage library identity).0 c e
                (score_fingerprint_stage-fit library identity))
      ]

  by_vin-Rests :
      (library : Library V W) (identity : Identity) (m : Match V W)
      → (by_vin library identity).0 ≡ ok m
      → Rests identity m.stage m.profile
  unfolding by_vin
  by_vin-Rests library identity m h =
      elim (Option-cases (best (score_vin_stage library identity).0)) [
        | inl e ↦
            by_fingerprint-Rests (score_vin_stage library identity).1 identity m
              (rw (e, by_vin) at h)
        | inr (c, e) ↦
            let k : ok (as_match vin_stage c) ≡ ok m = rw (e, by_vin) at h in
            rw (sym (ok_injective _ m k)) (
              best-All (λ d. FitsVin identity d.profile) (score_vin_stage library identity).0 c e
                (score_vin_stage-fit library identity))
      ]

  -- A profile that is chosen without one being named fits the vehicle by the stage it was chosen in:
  -- by the number, all that it states on the number is met; by the PIDs, the vehicle has all that it
  -- requires and none that it forbids, and a number that is known meets its rules on the
  -- manufacturer and on how a number begins, whatever its rule on the years is.
  pub resolve_vehicle-Rests :
      (library : Library V W) (identity : Identity) (m : Match V W)
      → (resolve_vehicle library (some identity) []).0 ≡ ok m
      → Rests identity m.stage m.profile
  unfolding resolve_vehicle
  resolve_vehicle-Rests library identity m h = by_vin-Rests library identity m h
